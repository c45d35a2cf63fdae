-- ===== src/Base/Lists.antt =====
-- Lists measured and cut by native numbers, under the library's names.
use Prim.Native.Nat.{ℕ, zero, suc, ◌+◌, ◌-◌, min}
use mathlib.Core.Path.{◌≡◌, refl, sym, ap, ap₂, ◌∙◌}
use mathlib.Core.List.{List, [], ◌∷◌, ◌++◌, head-eq_of_cons-eq, tail-eq_of_cons-eq}
use native.Mathlib.Omega.{arith}

module _ {ℓ} {A : Type ℓ} where
  abbrev pub length : List A → ℕ
  length [] = 0
  length (x ∷ xs) = suc (length xs)

  abbrev pub take : ℕ → List A → List A
  take zero xs = []
  take (suc n) [] = []
  take (suc n) (x ∷ xs) = x ∷ take n xs

  abbrev pub drop : ℕ → List A → List A
  drop zero xs = xs
  drop (suc n) [] = []
  drop (suc n) (x ∷ xs) = drop n xs

  pub length-append : (xs ys : List A) → length (xs ++ ys) ≡ length xs + length ys
  length-append [] ys = omega arith
  length-append (x ∷ xs) ys = omega (arith, length-append xs ys)

  pub length-take : (n : ℕ) (xs : List A) → length (take n xs) ≡ min n (length xs)
  length-take zero xs = omega arith
  length-take (suc n) [] = omega arith
  length-take (suc n) (x ∷ xs) = omega (arith, length-take n xs)

  pub length-drop : (n : ℕ) (xs : List A) → length (drop n xs) ≡ length xs - n
  length-drop zero xs = omega arith
  length-drop (suc n) [] = omega arith
  length-drop (suc n) (x ∷ xs) = omega (arith, length-drop n xs)

-- Every element satisfies `P`.
abbrev pub All {ℓ} : {A : Type ℓ} → (A → Type 0) → List A → Type 0
All P [] = Unit
All P (x ∷ xs) = P x × All P xs

pub take-append {ℓ} : {A : Type ℓ} (a b : List A) → take (length a) (a ++ b) ≡ a
take-append [] b = refl
take-append (x ∷ a) b = ap (λ l. x ∷ l) (take-append a b)

pub take-eq-nil {ℓ} : {A : Type ℓ} (n : ℕ) (xs : List A) → min (length xs) n ≡ 0 → take n xs ≡ []
take-eq-nil zero xs h = refl
take-eq-nil (suc n) [] h = refl
take-eq-nil (suc n) (x ∷ xs) h = absurd (omega arith)

pub take-min {ℓ} : {A : Type ℓ} (n : ℕ) (xs : List A) → take (min (length xs) n) xs ≡ take n xs
take-min n [] = take-eq-nil (min 0 n) [] (omega arith) ∙ sym (take-eq-nil n [] (omega arith))
take-min zero (x ∷ xs) = take-eq-nil (min (suc (length xs)) 0) (x ∷ xs) (omega arith)
take-min (suc n) (x ∷ xs) = ap (λ k. take k (x ∷ xs)) one_more ∙ ap (λ l. x ∷ l) (take-min n xs)
  where
    one_more : min (suc (length xs)) (suc n) ≡ suc (min (length xs) n)
    one_more = omega arith

-- Two lists that are cut at the same place are equal part by part.
pub append_inj {ℓ} :
    {A : Type ℓ} (cs bs : List A) {xs ys : List A}
    → length cs ≡ length bs
    → cs ++ xs ≡ bs ++ ys
    → (cs ≡ bs) × (xs ≡ ys)
append_inj [] [] n e = (refl, e)
append_inj [] (b ∷ bs) n e = absurd (omega arith)
append_inj (a ∷ cs) [] n e = absurd (omega arith)
append_inj (a ∷ cs) (b ∷ bs) n e =
    let (rest, same) = append_inj cs bs (omega arith) (tail-eq_of_cons-eq e) in
    (ap₂ ◌∷◌ (head-eq_of_cons-eq e) rest, same)
