-- ===== src/FloodMt/Connect/Rounds.antt =====
-- The places of a list gone around and around: those of the first turn come first.
use xdpilone.Base.{
  ℕ, zero, suc, ◌<◌, ◌≡◌, ◌≢◌, ◌==◌, refl, ap, arith, List, [], ◌∷◌, length, min, ◌⊎◌, inl, inr,
  if◌then◌else◌,
}
use xdpilone.FloodMt.Connect.{around_from, around}

-- No index is `i`.
abbrev pub Lacks : ℕ → List ℕ → Type 0
Lacks i [] = Unit
Lacks i (j ∷ taken) = (j ≢ i) × Lacks i taken

module _ {A : Type 0} (index : A → ℕ) where
  -- The indices of the list are not taken, and differ from one another.
  abbrev pub Differ : List A → List ℕ → Type 0
  Differ [] taken = Unit
  Differ (x ∷ xs) taken = Lacks (index x) taken × Differ xs (index x ∷ taken)

  -- At the places that are just those of the list, the indices are new.
  abbrev pub Claims : ℕ → List (ℕ × A) → List ℕ → Type 0
  Claims idx [] taken = Unit
  Claims idx ((i, x) ∷ items) taken =
      ((idx ≡ i) × Lacks (index x) taken × Claims (suc idx) items (index x ∷ taken))
      ⊎ ((idx ≢ i) × Claims (suc idx) items taken)

  later :
      (x : A) (xs rest : List A) (i idx n : ℕ) (taken : List ℕ)
      → i < idx
      → 0 < idx
      → Claims idx (around_from x xs rest i n) taken
  later x xs rest i idx zero taken behind up = tt
  later x xs [] i idx (suc n) taken behind up =
      inr (omega arith, later x xs xs 1 (suc idx) n taken (omega arith) (omega arith))
  later x xs (y ∷ ys) i idx (suc n) taken behind up =
      inr (omega arith, later x xs ys (suc i) (suc idx) n taken (omega arith) (omega arith))

  first_turn :
      (x : A) (xs rest : List A) (idx n : ℕ) (taken : List ℕ)
      → 0 < idx
      → Differ rest taken
      → Claims idx (around_from x xs rest idx n) taken
  first_turn x xs rest idx zero taken up d = tt
  first_turn x xs [] idx (suc n) taken up d =
      inr (omega arith, later x xs xs 1 (suc idx) n taken (omega arith) (omega arith))
  first_turn x xs (y ∷ ys) idx (suc n) taken up (lacks, d) =
      inl (refl, lacks, first_turn x xs ys (suc idx) n (index y ∷ taken) (omega arith) d)

  pub around-Claims :
      (x : A) (xs : List A) (n : ℕ) → Differ (x ∷ xs) [] → Claims 0 (around x xs n) []
  around-Claims x xs zero d = tt
  around-Claims x xs (suc n) (lacks, d) =
      inl (refl, tt, first_turn x xs xs 1 n (index x ∷ []) (omega arith) d)

-- How many places are those of the list.
abbrev pub claimed : {A : Type 0} → ℕ → List (ℕ × A) → ℕ
claimed idx [] = 0
claimed idx ((i, x) ∷ items) =
    let rest = claimed (suc idx) items in if idx == i then suc rest else rest

module _ {A : Type 0} where
  pub length-around_from :
      (x : A) (xs rest : List A) (i n : ℕ) → length (around_from x xs rest i n) ≡ n
  length-around_from x xs rest i zero = refl
  length-around_from x xs [] i (suc n) = ap suc (length-around_from x xs xs 1 n)
  length-around_from x xs (y ∷ ys) i (suc n) = ap suc (length-around_from x xs ys (suc i) n)

  claimed-later :
      (x : A) (xs rest : List A) (i idx n : ℕ)
      → i < idx
      → 0 < idx
      → claimed idx (around_from x xs rest i n) ≡ 0
  claimed-later x xs rest i idx zero behind up = refl
  claimed-later x xs [] i idx (suc n) behind up =
      ground (arith, claimed-later x xs xs 1 (suc idx) n (omega arith) (omega arith))
  claimed-later x xs (y ∷ ys) i idx (suc n) behind up =
      ground (arith, claimed-later x xs ys (suc i) (suc idx) n (omega arith) (omega arith))

  claimed-first_turn :
      (x : A) (xs rest : List A) (idx n : ℕ)
      → 0 < idx
      → claimed idx (around_from x xs rest idx n) ≡ min n (length rest)
  claimed-first_turn x xs rest idx zero up = omega arith
  claimed-first_turn x xs [] idx (suc n) up =
      ground (arith, claimed-later x xs xs 1 (suc idx) n (omega arith) (omega arith))
  claimed-first_turn x xs (y ∷ ys) idx (suc n) up =
      ground (arith, claimed-first_turn x xs ys (suc idx) n (omega arith))

  pub claimed-around :
      (x : A) (xs : List A) (n : ℕ) → claimed 0 (around x xs n) ≡ min n (suc (length xs))
  claimed-around x xs zero = omega arith
  claimed-around x xs (suc n) = ground (arith, claimed-first_turn x xs xs 1 n (omega arith))
