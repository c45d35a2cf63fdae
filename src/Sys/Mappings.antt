-- ===== src/Sys/Mappings.antt =====
-- What `mmap` and `munmap` document of the mappings of the process, and that the other calls that a
-- device queue is set up with leave them alone.
use xdpilone.Base.{
  ℕ, zero, suc, ◌+◌, ◌-◌, ◌<◌, ◌≡◌, ◌==◌, ◌&&◌, if◌then◌else◌, List, Outcome, Returns, none, some,
}
use xdpilone.Ring.{Slice}
use xdpilone.Sys.{
  ℤ, pos, negsuc, Ran, Libc, Buffer, check, Ends, Ends-and_then, compute, compute-Ends, ◌>>=◌,
}

-- 1 for the mapping at `a` of `len` bytes, 0 for any other.
abbrev pub one_at : ℕ → ℕ → ℕ → ℕ → ℕ
one_at a len b l = if a == b && len == l then 1 else 0

-- `held w b l` counts the mappings at `b` of `l` bytes.
pub record Mappings {W : Type 0} (libc : Libc W) : Type 0 where
  pub held : W → ℕ → ℕ → ℕ
  pub mmap_some :
      (len fd offset : ℕ) (w w' : W) (a : ℕ)
      → libc.mmap len fd offset w ≡ (some a, w')
      → (0 < a) × ((b l : ℕ) → held w' b l ≡ held w b l + one_at a len b l)
  pub mmap_none :
      (len fd offset : ℕ) (w w' : W)
      → libc.mmap len fd offset w ≡ (none, w')
      → (b l : ℕ) → held w' b l ≡ held w b l
  pub munmap_lem :
      (a len : ℕ) (w : W) (b l : ℕ) → held (libc.munmap a len w) b l ≡ held w b l - one_at a len b l
  pub setsockopt_lem :
      (fd level name : ℕ) (value : List ℕ) (size : ℕ) (w w' : W) (err : ℤ)
      → libc.setsockopt fd level name value size w ≡ (err, w')
      → (b l : ℕ) → held w' b l ≡ held w b l
  pub getsockopt_lem :
      (fd level name : ℕ) (buffer : Buffer) (size : ℕ) (w w' : W) (err : ℤ) (reply : Buffer) (n : ℕ)
      → libc.getsockopt fd level name buffer size w ≡ (err, reply, n, w')
      → (b l : ℕ) → held w' b l ≡ held w b l

module _ {W : Type 0} {libc : Libc W} (v : Mappings libc) where
  -- `w'` holds what `w` does.
  abbrev pub SameHeld : W → W → Type 0
  SameHeld w w' = (b l : ℕ) → v.held w' b l ≡ v.held w b l

  -- `w'` holds the mapping `s` once more than `w`.
  abbrev pub Adds : W → Slice → W → Type 0
  Adds w s w' = (b l : ℕ) → v.held w' b l ≡ v.held w b l + one_at s.start s.len b l

  -- The call leaves the mappings as they are, however it ends.
  abbrev pub Keeps : {A : Type 0} → (W → Ran W A) → Type 0
  Keeps f =
      (w0 w : W) → SameHeld w0 w → Ends (f w) (λ _ w'. SameHeld w0 w') (λ _ w'. SameHeld w0 w')

  pub Keeps->>= :
      {A B : Type 0} (f : W → Ran W A) (g : A → W → Ran W B)
      → Keeps f
      → ((a : A) → Keeps (g a))
      → Keeps (f >>= g)
  Keeps->>= f g hf hg w0 w h =
      Ends-and_then (λ _ w'. SameHeld w0 w') _ _ _ _ (hf w0 w h) λ a w' h'. hg a w0 w' h'

  pub compute-Keeps : {A : Type 0} (o : Outcome A) → Returns o (λ _. Unit {0}) → Keeps (compute o)
  compute-Keeps o r w0 w h = compute-Ends (SameHeld w0) _ o w r h

  pub check-Keeps : (err : ℤ) → Keeps (check libc err)
  check-Keeps (pos zero) w0 w h = h
  check-Keeps (pos (suc n)) w0 w h = h
  check-Keeps (negsuc n) w0 w h = h
