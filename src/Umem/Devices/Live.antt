-- ===== src/Umem/Devices/Live.antt =====
-- Lists of device queues, or of claims on them, and the contexts that they take.
use xdpilone.Base.{
  ◌≡◌, refl, ap, subst, Bool, true, false, not, ◌&&◌, ◌||◌, Bool-cases, inl, inr, List, [], ◌∷◌,
  map, All, arith,
}
use xdpilone.Iface.Info.{IfCtx, same_ctx}
use xdpilone.Umem.Devices.{DeviceQueue}
use xdpilone.Umem.Devices.Control.{contains, same_ctx_refl, same_ctx_sound}

abbrev pub ctx_of : DeviceQueue → IfCtx
ctx_of d = d.socket.info.ctx

abbrev pub taken : List DeviceQueue → List IfCtx
taken live = map ctx_of live

-- No context is there twice.
unfoldable pub IsDistinct : List IfCtx → Type 0
IsDistinct [] = Unit {0}
IsDistinct (ctx ∷ l) = (contains ctx l ≡ false) × IsDistinct l

-- `live'` is `live` without one occurrence of `d`.
pub data Without {A : Type 0} (d : A) : List A → List A → Type 0 where
  here : {live : List A} → Without d (d ∷ live) live
  there : (e : A) {live live' : List A} → Without d live live' → Without d (e ∷ live) (e ∷ live')

pub Without-at :
    {A : Type 0} (P : A → Type 0) (d : A) {live live' : List A}
    → Without d live live'
    → All P live
    → P d
Without-at P d here h = h.0
Without-at P d (there e w) h = Without-at P d w h.1

pub Without-All :
    {A : Type 0} (P : A → Type 0) (d : A) {live live' : List A}
    → Without d live live'
    → All P live
    → All P live'
Without-All P d here h = h.1
Without-All P d (there e w) h = (h.0, Without-All P d w h.1)

-- A context that is not there is told apart from those that are.
contains-apart :
    (a c : IfCtx) (l : List IfCtx)
    → contains a l ≡ false
    → contains c l ≡ (not (same_ctx a c) && contains c l)
contains-apart a c l h = go (same_ctx a c) refl
  where
    go : (b : Bool) → same_ctx a c ≡ b → contains c l ≡ (not b && contains c l)
    go false e = refl
    go true e = subst (λ x. contains x l ≡ false) (same_ctx_sound a c e) h

pub Without-contains :
    {A : Type 0} (key : A → IfCtx) (d : A) {live live' : List A}
    → Without d live live'
    → contains (key d) (map key live) ≡ true
unfolding contains
Without-contains key d here = ground (arith, same_ctx_refl (key d))
Without-contains key d (there e w) = ground (arith, Without-contains key d w)

-- Where the rest of a list loses `d`, so does the list, for a context `e` that is not in the rest.
contains-past :
    (c e d : IfCtx) (l l' : List IfCtx)
    → contains e l ≡ false
    → contains d l ≡ true
    → contains c l' ≡ (not (same_ctx d c) && contains c l)
    → (same_ctx e c || contains c l') ≡ (not (same_ctx d c) && (same_ctx e c || contains c l))
contains-past c e d l l' absent present rest = elim (Bool-cases (same_ctx d c)) [
  | inl t ↦ ground (
    arith,
    t,
    ap (λ x. contains x l) (same_ctx_sound d c t),
    contains-apart e c l absent,
    present,
    rest,
  )
  | inr f ↦ ground (arith, f, rest)
]

-- Of distinct contexts exactly that of the dropped queue goes.
pub Without-taken :
    {A : Type 0} (key : A → IfCtx) (c : IfCtx) (d : A) {live live' : List A}
    → Without d live live'
    → IsDistinct (map key live)
    → contains c (map key live') ≡ (not (same_ctx (key d) c) && contains c (map key live))
unfolding contains IsDistinct
Without-taken key c d (here {live}) h = ground (arith, contains-apart (key d) c (map key live) h.0)
Without-taken key c d (there e {live} {live'} w) h =
    contains-past c (key e) (key d) (map key live) (map key live') h.0 (Without-contains key d w)
      (Without-taken key c d w h.1)

pub Without-IsDistinct :
    {A : Type 0} (key : A → IfCtx) (d : A) {live live' : List A}
    → Without d live live'
    → IsDistinct (map key live)
    → IsDistinct (map key live')
unfolding IsDistinct
Without-IsDistinct key d here h = h.1
Without-IsDistinct key d (there e w) h =
    (ground (arith, Without-taken key (key e) d w h.1, h.0), Without-IsDistinct key d w h.1)

-- The occurrence is put back: the contexts are those of before.
pub Without-back :
    {A : Type 0} (key : A → IfCtx) (c : IfCtx) (d : A) {live live' : List A}
    → Without d live live'
    → IsDistinct (map key live)
    → (same_ctx (key d) c || contains c (map key live')) ≡ contains c (map key live)
Without-back key c d {live} {live'} w h = elim (Bool-cases (same_ctx (key d) c)) [
  | inl t ↦ ground (
    arith,
    t,
    subst (λ x. contains x (map key live) ≡ true) (same_ctx_sound (key d) c t)
        (Without-contains key d w),
  )
  | inr f ↦ ground (arith, f, Without-taken key c d w h)
]

pub Without-absent :
    {A : Type 0} (key : A → IfCtx) (d : A) {live live' : List A}
    → Without d live live'
    → IsDistinct (map key live)
    → contains (key d) (map key live') ≡ false
Without-absent key d w h = ground (arith, same_ctx_refl (key d), Without-taken key (key d) d w h)
