-- ===== src/Sys/Works.antt =====
-- A system on which every call succeeds, as its manual says, and which leaves the rings of a socket as
-- it has mapped them until there is something for it to do.
use xdpilone.Base.{
  ℕ, ◌+◌, ◌≤◌, ◌<◌, ◌≡◌, ◌≢◌, refl, ◌∙◌, true, false, Bool, List, Outcome, Returns, some, ok, panic,
}
use xdpilone.Sys.{
  ℤ, pos, Errno, Ran, returned, failed, panicked, Libc, Buffer, and_then, Ends, Ends-and_then,
  Ends-map, compute, check,
}

-- The call returns, and does `P`.
abbrev pub Succeeds : {W A : Type 0} → Ran W A → (A → W → Type 0) → Type 0
Succeeds o P = Ends o P (λ _ _. ⊥)

pub Succeeds-and_then :
    {W A B : Type 0} (P : A → W → Type 0) (P' : B → W → Type 0) (o : Ran W A) (g : A → W → Ran W B)
    → Succeeds o P
    → ((a : A) (w : W) → P a w → Succeeds (g a w) P')
    → Succeeds (and_then o g) P'
Succeeds-and_then P P' o g h k = Ends-and_then P P' (λ _ _. ⊥) o g h k

pub Succeeds-map :
    {W A : Type 0} (P P' : A → W → Type 0) (o : Ran W A)
    → Succeeds o P
    → ((a : A) (w : W) → P a w → P' a w)
    → Succeeds o P'
Succeeds-map P P' o h f = Ends-map P P' (λ _ _. ⊥) (λ _ _. ⊥) o h f (λ _ _ bad. bad)

-- What is known of a call that may fail, of one that does not.
pub Succeeds-Ends :
    {W A : Type 0} (P P' : A → W → Type 0) (Q : Errno → W → Type 0) (o : Ran W A)
    → Ends o P Q
    → Succeeds o P'
    → Succeeds o (λ a w. P a w × P' a w)
Succeeds-Ends P P' Q (returned a w) h k = (h, k)
Succeeds-Ends P P' Q (failed e w) h k = k
Succeeds-Ends P P' Q panicked h k = h

pub compute-Succeeds :
    {W A : Type 0} (P : A → Type 0) (P' : A → W → Type 0) (o : Outcome A) (w : W)
    → Returns o P
    → ((a : A) → P a → P' a w)
    → Succeeds (compute o w) P'
compute-Succeeds P P' (ok a) w h f = f a h
compute-Succeeds P P' panic w h f = absurd h

-- `kept w x`: the word at `x` lies in a ring, is not its flags, and stays until the ring is used.
-- `flags_of` is where the flags of a ring stand, for the offset at which it is mapped.
pub record Works {W : Type 0} (libc : Libc W) : Type 0 where
  pub kept : W → ℕ → Bool
  pub flags_of : ℕ → ℕ

module _ {W : Type 0} {libc : Libc W} (v : Works libc) where
  -- The words that are kept go on to be, and to hold what they do.
  abbrev pub Carries : W → W → Type 0
  Carries w w' =
      (x : ℕ) → v.kept w x ≡ true → (v.kept w' x ≡ true) × (libc.memory w' x ≡ libc.memory w x)

  pub Carries-trans : {w w' w'' : W} → Carries w w' → Carries w' w'' → Carries w w''
  Carries-trans c d x k = let (k', e) = c x k in let (k'', e') = d x k' in (k'', e' ∙ e)

  -- A new mapping of `len` bytes at `a`: its words were not kept, and but for the flags are now, and
  -- hold 0.
  abbrev pub MapsFresh : ℕ → ℕ → ℕ → W → W → Type 0
  MapsFresh a len offset w w' =
      (x : ℕ)
      → a ≤ x
      → x < a + len
      → (v.kept w x ≡ false)
        × (x ≢ a + v.flags_of offset → (v.kept w' x ≡ true) × (libc.memory w' x ≡ 0))

-- The calls, for a kernel of today that reports all offsets. The offset of the flags that `kept` leaves
-- out is the one that it reports.
pub record Answers {W : Type 0} (libc : Libc W) (v : Works libc) : Type 0 where
  pub socket_lem :
      (domain kind protocol : ℕ) (w : W)
      → (fd : ℕ) × ((libc.socket domain kind protocol w).0 ≡ pos fd)
        × Carries v w (libc.socket domain kind protocol w).1
  pub setsockopt_lem :
      (fd level name : ℕ) (value : List ℕ) (size : ℕ) (w : W)
      → ((libc.setsockopt fd level name value size w).0 ≡ pos 0)
        × Carries v w (libc.setsockopt fd level name value size w).1
  pub getsockopt_lem :
      (fd level name : ℕ) (buffer : Buffer) (size : ℕ) (w : W)
      → ((libc.getsockopt fd level name buffer size w).0 ≡ pos 0)
        × ((libc.getsockopt fd level name buffer size w).2 ≡ size)
        × Carries v w (libc.getsockopt fd level name buffer size w).3
  pub bind_lem :
      (fd : ℕ) (addr : List ℕ) (size : ℕ) (w : W)
      → ((libc.bind fd addr size w).0 ≡ pos 0) × Carries v w (libc.bind fd addr size w).1
  pub if_nametoindex_lem :
      (name : List ℕ) (w : W)
      → ((libc.if_nametoindex name w).0 ≢ 0) × Carries v w (libc.if_nametoindex name w).1
  pub mmap_lem :
      (len fd offset : ℕ) (w : W)
      → (a : ℕ) × ((libc.mmap len fd offset w).0 ≡ some a)
        × (0 < a)
        × MapsFresh v a len offset w (libc.mmap len fd offset w).1
        × Carries v w (libc.mmap len fd offset w).1

module _ {W : Type 0} (libc : Libc W) where
  pub check-Succeeds :
      (err : ℤ) (w : W) → err ≡ pos 0 → Succeeds (check libc err w) (λ _ w'. w' ≡ w)
  check-Succeeds err w e = rw e refl
