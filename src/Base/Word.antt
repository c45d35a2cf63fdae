-- ===== src/Base/Word.antt =====
-- Machine words as native numbers: the wrapping operations of Rust's `u32`, and the order of
-- positions on the circle of 2 ^ 32 values.
use Prim.Native.Nat.{ℕ, ◌+◌, ◌-◌, ◌%◌, ◌^◌, ◌<◌}
use mathlib.Core.Path.{◌≡◌}
use native.Mathlib.Omega.{arith}

abbrev pub u32_mod : ℕ
u32_mod = 2 ^ 32

abbrev pub u64_mod : ℕ
u64_mod = 2 ^ 64

-- `u32::MAX`
abbrev pub u32_max : ℕ
u32_max = 2 ^ 32 - 1

abbrev pub IsU32 : ℕ → Type 0
IsU32 n = n < 2 ^ 32

abbrev pub IsU64 : ℕ → Type 0
IsU64 n = n < 2 ^ 64

-- `a.wrapping_add(b)`
abbrev pub wrapping_add : ℕ → ℕ → ℕ
wrapping_add a b = (a + b) % 2 ^ 32

-- `a.wrapping_sub(b)`: the number of steps from `b` forward to `a`.
abbrev pub wrapping_sub : ℕ → ℕ → ℕ
wrapping_sub a b = (a + 2 ^ 32 - b) % 2 ^ 32

pub wrapping_sub-wrapping_add :
    (a n : ℕ) → IsU32 a → IsU32 n → wrapping_sub (wrapping_add a n) a ≡ n
wrapping_sub-wrapping_add a n ha hn = omega arith

pub wrapping_add_assoc : (a b c : ℕ) → wrapping_add (wrapping_add a b) c ≡ wrapping_add a (b + c)
wrapping_add_assoc a b c = omega arith
