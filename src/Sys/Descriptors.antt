-- ===== src/Sys/Descriptors.antt =====
-- What `socket` and `close` document of the descriptors of the process, and that the option calls
-- leave them alone.
use xdpilone.Base.{ℕ, zero, suc, ◌+◌, ◌-◌, ◌≡◌, ◌==◌, if◌then◌else◌, List}
use xdpilone.Sys.{ℤ, pos, negsuc, Libc, check, Ends}

-- 1 for the descriptor `fd`, 0 for any other.
abbrev pub one_for : ℕ → ℕ → ℕ
one_for fd x = if x == fd then 1 else 0

-- `opened w x` counts how often `x` is open.
pub record Descriptors {W : Type 0} (libc : Libc W) : Type 0 where
  pub opened : W → ℕ → ℕ
  pub socket_pos :
      (domain kind protocol : ℕ) (w w' : W) (fd : ℕ)
      → libc.socket domain kind protocol w ≡ (pos fd, w')
      → (x : ℕ) → opened w' x ≡ opened w x + one_for fd x
  pub socket_negsuc :
      (domain kind protocol : ℕ) (w w' : W) (n : ℕ)
      → libc.socket domain kind protocol w ≡ (negsuc n, w')
      → (x : ℕ) → opened w' x ≡ opened w x
  pub close_lem : (fd : ℕ) (w : W) (x : ℕ) → opened (libc.close fd w) x ≡ opened w x - one_for fd x
  pub setsockopt_lem :
      (fd level name : ℕ) (value : List ℕ) (size : ℕ) (w w' : W) (err : ℤ)
      → libc.setsockopt fd level name value size w ≡ (err, w')
      → (x : ℕ) → opened w' x ≡ opened w x

module _ {W : Type 0} {libc : Libc W} (v : Descriptors libc) where
  -- `w'` has the descriptors that `w` has.
  abbrev pub SameOpened : W → W → Type 0
  SameOpened w w' = (x : ℕ) → v.opened w' x ≡ v.opened w x

  -- `w'` has `fd` open once more than `w`.
  abbrev pub Opens : W → ℕ → W → Type 0
  Opens w fd w' = (x : ℕ) → v.opened w' x ≡ v.opened w x + one_for fd x

  pub check-Ends :
      (err : ℤ) (w w' : W)
      → SameOpened w w'
      → Ends (check libc err w') (λ _ w''. SameOpened w w'') (λ _ w''. SameOpened w w'')
  check-Ends (pos zero) w w' h = h
  check-Ends (pos (suc n)) w w' h = h
  check-Ends (negsuc n) w w' h = h
