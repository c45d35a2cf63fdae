-- ===== src/Base/Fallible.antt =====
-- Rust code either returns a value or panics. Plain `+` and `-` on `u32` panic on overflow where
-- the build checks for it, and wrap where it does not; `debug_assert!` runs in debug builds only.
use Prim.Native.Nat.{ℕ, ◌+◌, ◌-◌, ◌*◌, ◌%◌, ◌^◌, ◌<◌}
use mathlib.Core.Path.{◌≡◌, refl, subst}
use native.Mathlib.Omega.{arith}
use mathlib.Core.Bool.{Bool, true, false, not, ◌||◌}
use xdpilone.Base.Tests.{ltb, leb, if◌then◌else◌}
use xdpilone.Base.Word.{wrapping_add, wrapping_sub}

pub data Outcome {ℓ} (A : Type ℓ) : Type ℓ where
  ok : A → Outcome A
  panic : Outcome A

infixl 5 ◌>>=◌ ◌>>◌
abbrev pub ◌>>=◌ {ℓ κ} : {A : Type ℓ} {B : Type κ} → Outcome A → (A → Outcome B) → Outcome B
ok a >>= f = f a
panic >>= f = panic

abbrev pub ◌>>◌ {ℓ} : {B : Type ℓ} → Outcome (Unit {0}) → Outcome B → Outcome B
m >> k = m >>= λ _. k

-- The two switches of a Cargo profile on which the meaning of the code depends.
pub record Profile : Type 0 where
  pub overflow_checks : Bool
  pub debug_assertions : Bool

abbrev pub release_profile : Profile
release_profile = record { overflow_checks = false; debug_assertions = false }

abbrev pub debug_profile : Profile
debug_profile = record { overflow_checks = true; debug_assertions = true }

-- `a + b` on `u32`
abbrev pub add_u32 : Profile → ℕ → ℕ → Outcome ℕ
add_u32 p a b =
    if ltb (a + b) (2 ^ 32)
    then ok (a + b)
    else (if p.overflow_checks then panic else ok (wrapping_add a b))

-- `a - b` on `u32`
abbrev pub sub_u32 : Profile → ℕ → ℕ → Outcome ℕ
sub_u32 p a b =
    if leb b a then ok (a - b) else (if p.overflow_checks then panic else ok (wrapping_sub a b))

-- `a * b` on `u64`
abbrev pub mul_u64 : Profile → ℕ → ℕ → Outcome ℕ
mul_u64 p a b =
    if ltb (a * b) (2 ^ 64)
    then ok (a * b)
    else (if p.overflow_checks then panic else ok (a * b % 2 ^ 64))

-- `assert!(c)`
abbrev pub assert : Bool → Outcome (Unit {0})
assert true = ok tt
assert false = panic

-- `debug_assert!(c)`
abbrev pub debug_assert : Profile → Bool → Outcome (Unit {0})
debug_assert p c = assert (not p.debug_assertions || c)

-- Total correctness: the code returns, and what it returns satisfies `P`.
abbrev pub Returns {ℓ} : {A : Type ℓ} → Outcome A → (A → Type 0) → Type 0
Returns (ok a) P = P a
Returns panic P = ⊥

-- Without overflow checks the operators wrap.
pub add_u32_wraps :
    (p : Profile) (a b : ℕ) → p.overflow_checks ≡ false → add_u32 p a b ≡ ok (wrapping_add a b)
add_u32_wraps p a b h = ground arith

pub sub_u32_wraps :
    (p : Profile) (a b : ℕ)
    → a < 2 ^ 32
    → b < 2 ^ 32
    → p.overflow_checks ≡ false
    → sub_u32 p a b ≡ ok (wrapping_sub a b)
sub_u32_wraps p a b ha hb h = ground arith

pub Returns-map {ℓ} :
    {A : Type ℓ} (P Q : A → Type 0) (o : Outcome A)
    → Returns o P
    → ((a : A) → P a → Q a)
    → Returns o Q
Returns-map P Q (ok a) h f = f a h
Returns-map P Q panic h f = absurd h

-- The value that is returned.
pub Returns-ok {ℓ} :
    {A : Type ℓ} (P : A → Type 0) (o : Outcome A) → Returns o P → (a : A) × (o ≡ ok a) × P a
Returns-ok P (ok a) h = (a, refl, h)
Returns-ok P panic h = absurd h

-- To run `o` and then `f` it is enough that `f` does with whatever `o` may return.
pub Returns->>= {ℓ κ} :
    {A : Type ℓ} {B : Type κ} (P : A → Type 0) (Q : B → Type 0) (o : Outcome A) (f : A → Outcome B)
    → Returns o P
    → ((a : A) → P a → Returns (f a) Q)
    → Returns (o >>= f) Q
Returns->>= P Q (ok a) f h g = g a h
Returns->>= P Q panic f h g = absurd h

-- What is known of the value that has been returned.
pub Returns-at {ℓ} :
    {A : Type ℓ} (P : A → Type 0) {o : Outcome A} (a : A) → Returns o P → o ≡ ok a → P a
Returns-at P a h e = subst (λ o. Returns o P) e h
