-- ===== src/Iface/Info/Set.antt =====
-- What `from_name` and `from_ifindex` leave in an `IfInfo`, on every way they end.
use xdpilone.Base.{
  take-append, ℕ, zero, suc, ◌≤◌, ◌≡◌, refl, ap, false, true, Bool, List, [], ◌∷◌, ◌++◌, take, drop,
  length, Bool-cases, inl, inr, ltb, leb, arith, assert, ok, panic,
}
use xdpilone.Sys.{Libc, Ran, panicked, Ends, Errno}
use xdpilone.Iface.Info.{IfInfo, from_name, from_ifindex, index_reply, name_reply}

-- However from_ifindex ends, it does not panic, and the context, with its ifindex, is as before.
pub from_ifindex-ctx :
    {W : Type 0} (libc : Libc W) (index : ℕ) (info : IfInfo) (w : W)
    → Ends
        (from_ifindex libc index (info, w))
        (λ _ s. s.0.ctx ≡ info.ctx)
        (λ _ s. s.0.ctx ≡ info.ctx)
unfolding from_ifindex
from_ifindex-ctx libc index info w = reply (libc.if_indextoname index info.ifname w)
  where
    reply :
        (o : Bool × List ℕ × _)
        → Ends (index_reply libc info o) (λ _ s. s.0.ctx ≡ info.ctx) (λ _ s. s.0.ctx ≡ info.ctx)
    reply (false, ifname, w') = refl
    reply (true, ifname, w') = refl

-- What a name that was found leaves: the kernel's index, no queue and no namespace, and the name at
-- the start of an array as long as before.
pub record Named {W : Type 0} (libc : Libc W) (bytes : List ℕ) (info : IfInfo) (w : W)
    (s : IfInfo × W) : Type 0 where
  pub index : libc.if_nametoindex bytes w ≡ (s.0.ctx.ifindex, s.1)
  pub queue : s.0.ctx.queue_id ≡ 0
  pub cookie : s.0.ctx.netnscookie ≡ 0
  pub name : take (length bytes) s.0.ifname ≡ bytes
  pub size : length s.0.ifname ≡ length info.ifname

length-overwrite : (a b : List ℕ) → length a ≤ length b → length (a ++ drop (length a) b) ≡ length b
length-overwrite [] b h = refl
length-overwrite (x ∷ a) [] h = absurd (omega arith)
length-overwrite (x ∷ a) (y ∷ b) h = ap suc (length-overwrite a b (omega arith))

name_reply-Ends :
    {W : Type 0} (libc : Libc W) (bytes : List ℕ) (info : IfInfo) (w : W) (o : ℕ × W)
    → length bytes ≤ length info.ifname
    → libc.if_nametoindex bytes w ≡ o
    → Ends (name_reply libc bytes info o) (λ _ s. Named libc bytes info w s) (λ _ s. s.0 ≡ info)
name_reply-Ends libc bytes info w (zero, w') fits h = refl
name_reply-Ends libc bytes info w (suc index, w') fits h = record {
  index = h;
  queue = refl;
  cookie = refl;
  name = take-append bytes _;
  size = length-overwrite bytes info.ifname fits;
}

asserted-Ends :
    {W A : Type 0} (P : A → W → Type 0) (Q : Errno → W → Type 0) (c : Bool) (r : Ran W A)
    → c ≡ true
    → Ends r P Q
    → Ends (elim (assert c) [ ok u ↦ r | panic ↦ panicked ]) P Q
asserted-Ends P Q true r e h = h
asserted-Ends P Q false r e h = absurd (ground arith)

fits_from : (a b : ℕ) → ltb a b ≡ false → b ≤ a
fits_from a b h = ground arith

-- from_name does not panic; if it returns, the context has the index that if_nametoindex gave,
-- queue 0 and no namespace, and the name, its NUL included, stands at the start of an array as
-- long as before; if it fails, nothing has changed.
pub from_name_lem :
    {W : Type 0} (libc : Libc W) (bytes : List ℕ) (info : IfInfo) (w : W)
    → Ends (from_name libc bytes (info, w)) (λ _ s. Named libc bytes info w s) (λ _ s. s.0 ≡ info)
unfolding from_name
from_name_lem libc bytes info w = elim (Bool-cases (ltb (length info.ifname) (length bytes))) [
  | inl t ↦ rw t refl
  | inr f ↦
      let fits : length bytes ≤ length info.ifname = fits_from _ _ f in
      rw f (
        asserted-Ends _ _ (leb (length bytes) (length info.ifname)) _ (ground arith)
          (name_reply-Ends libc bytes info w _ fits refl))
]
