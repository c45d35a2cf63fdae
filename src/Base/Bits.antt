-- ===== src/Base/Bits.antt =====
-- A ring's size is a power of two below 2 ^ 32, and its mask is the size less one: masking an
-- index is the remainder by the size, and the size divides the circle of positions.
use Prim.Native.Nat.{
  ℕ, zero, suc, ◌+◌, ◌-◌, ◌*◌, ◌/◌, ◌%◌, ◌^◌, ◌≤◌, ◌<◌, ◌∣◌, min, bit_and, digits, bit_and-bitwise,
}
use mathlib.Core.Path.{◌≡◌, ◌∙◌, subst}
use mathlib.Core.Bool.{Bool, true, false, ◌||◌}
use mathlib.Core.Logic.{inl, inr}
use native.Mathlib.Nat.{
  pow-suc, two-pow-succ, le_refl, one-le-pow, mod-mod_of_dvd, zero-mod, mod-lt, mod-eq_of_lt,
  div-add-mod, mul-add-mod_self_left, pow-le-pow_right, dvd_refl, dvd-mul_right_of_dvd, add-zero,
  add-suc,
}
use native.Mathlib.Omega.{arith}
use xdpilone.Base.Tests.{◌==◌, Bool-cases}

-- The lowest digit apart, the remainder by `2 * m` is that of the half by `m`.
double_mod : (m x : ℕ) → 0 < m → x / 2 % m * 2 + x % 2 ≡ x % (m + m)
double_mod m x pos = ground (
  arith,
  div-add-mod (x / 2) m,
  mul-add-mod_self_left (m + m) (x / 2 / m) (x / 2 % m * 2 + x % 2),
  mod-eq_of_lt {n = x / 2 % m * 2 + x % 2} {m = m + m} (omega (arith, mod-lt (x / 2) pos)),
  regroup,
)
  where
    regroup : (m + m) * (x / 2 / m) + (x / 2 % m * 2 + x % 2) ≡ x
    regroup = omega (arith, div-add-mod (x / 2) m)

mask_digits : (n k a : ℕ) → a ≤ n → digits (λ b. zero) min n a (2 ^ k - 1) ≡ a % 2 ^ k
mask_digits zero k zero h = omega (arith, zero-mod (2 ^ k))
mask_digits zero k (suc a) h = absurd (omega arith)
mask_digits (suc n) k zero h = omega (arith, zero-mod (2 ^ k))
mask_digits (suc n) zero (suc a) h = omega (arith, mask_digits n zero (suc a / 2) (omega arith))
mask_digits (suc n) (suc k) (suc a) h =
    rw (halved, odd)
      (rw (mask_digits n k (suc a / 2) (omega arith), two-pow-succ)
        (omega (arith, double_mod (2 ^ k) (suc a) pos)))
  where
    pos : 0 < 2 ^ k
    pos = one-le-pow k 2 (omega arith)

    halved : (2 ^ suc k - 1) / 2 ≡ 2 ^ k - 1
    halved = omega (arith, two-pow-succ k, pos)

    odd : (2 ^ suc k - 1) % 2 ≡ 1
    odd = omega (arith, two-pow-succ k, pos)

-- Masking by `2 ^ k - 1` is the remainder by `2 ^ k`.
pub bit_and_mask : (k a : ℕ) → bit_and a (2 ^ k - 1) ≡ a % 2 ^ k
bit_and_mask k a = bit_and-bitwise a (2 ^ k - 1) ∙ mask_digits a k a (le_refl a)

pow-dvd-pow : (k j : ℕ) → 2 ^ k ∣ 2 ^ (k + j)
pow-dvd-pow k zero = rw add-zero (dvd_refl (2 ^ k))
pow-dvd-pow k (suc j) = rw (add-suc, pow-suc) (dvd-mul_right_of_dvd (2 ^ k) (pow-dvd-pow k j) 2)

-- The exponents below `bound` are tried, the largest first.
abbrev is_pow_below : ℕ → ℕ → Bool
is_pow_below zero n = false
is_pow_below (suc k) n = n == 2 ^ k || is_pow_below k n

-- `u32::is_power_of_two`
unfoldable pub is_power_of_two : ℕ → Bool
is_power_of_two n = is_pow_below 32 n

pub record IsPow2 (n : ℕ) : Type 0 where
  pub exponent : ℕ
  pub small : exponent < 32
  pub value : n ≡ 2 ^ exponent

is_pow_below-IsPow2 : (k n : ℕ) → k ≤ 32 → is_pow_below k n ≡ true → IsPow2 n
is_pow_below-IsPow2 zero n h e = absurd (ground arith)
is_pow_below-IsPow2 (suc k) n h e = elim (Bool-cases (n == 2 ^ k)) [
  | inl same ↦ record { exponent = k; small = h; value = ground arith }
  | inr other ↦ is_pow_below-IsPow2 k n (omega arith) (ground arith)
]

pub is_power_of_two-IsPow2 : (n : ℕ) → is_power_of_two n ≡ true → IsPow2 n
unfolding is_power_of_two
is_power_of_two-IsPow2 n e = is_pow_below-IsPow2 32 n (le_refl 32) e

module _ {n : ℕ} (pow : IsPow2 n) where
  pub IsPow2-pos : 0 < n
  IsPow2-pos = rw pow.value (one-le-pow pow.exponent 2 (omega arith))

  pub IsPow2-le : n ≤ 2 ^ 31
  IsPow2-le =
      rw pow.value (pow-le-pow_right {n = 2} (omega arith) {j = 31} (omega (arith, pow.small)))

  pub IsPow2-dvd : n ∣ 2 ^ 32
  IsPow2-dvd = rw pow.value (
      subst (λ j. 2 ^ pow.exponent ∣ 2 ^ j) {x = pow.exponent + (32 - pow.exponent)} {y = 32}
        (omega (arith, pow.small)) (pow-dvd-pow pow.exponent (32 - pow.exponent)))

  pub bit_and-IsPow2 : (a : ℕ) → bit_and a (n - 1) ≡ a % n
  bit_and-IsPow2 a = rw pow.value (bit_and_mask pow.exponent a)

  -- Wrapping at 2 ^ 32 does not show in the masked index.
  pub wrap-mod-IsPow2 : (a : ℕ) → a % 2 ^ 32 % n ≡ a % n
  wrap-mod-IsPow2 a = mod-mod_of_dvd n a IsPow2-dvd
