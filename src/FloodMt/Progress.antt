-- ===== src/FloodMt/Progress.antt =====
-- The threads of examples/flood-mt.rs can come to the end from wherever they are.
use native.Mathlib.Decide.{dec_lt}
use xdpilone.Base.{
  ℕ, ◌+◌, ◌<◌, ◌≡◌, ◌⊎◌, inl, inr, refl, ap, arith, Bool, false, List, [], ◌∷◌, ◌++◌, length,
  Profile, IsU32, All, Returns-ok,
}
use xdpilone.FloodMt.{
  Sender, loops, reserved, handed, gave_back, left, Completer, looks, chose, reaped, quit, Threads,
  share, comp_batch_of, all_sent, leave, reserve, stop, choose, reap, here, later,
}
use xdpilone.FloodMt.Count.{
  sum, sum-change, owed, uncounted, unreported, has_left, has_quit, IsCounted,
  reserve_share-Returns,
}
use xdpilone.FloodMt.Weight.{
  bound_for, sender_way, completer_way, sender_busy, completer_busy, Nearer,
}

sum-rest :
    {A : Type 0} (busy : A → Bool) (f : A → ℕ)
    → ((x : A) → busy x ≡ false → f x ≡ 0)
    → (l : List A) → All (λ x. busy x ≡ false) l
    → sum f l ≡ 0
sum-rest busy f h [] rest = refl
sum-rest busy f h (x ∷ l) rest = omega (arith, h x rest.0, sum-rest busy f h l rest.1)

owed-rest : (x : Sender) → sender_busy x ≡ false → owed x ≡ 0
owed-rest loops e = refl
owed-rest (reserved n) e = absurd (ground (arith, e))
owed-rest (handed n k) e = absurd (ground (arith, e))
owed-rest (gave_back k) e = absurd (ground (arith, e))
owed-rest left e = refl

uncounted-rest : (x : Sender) → sender_busy x ≡ false → uncounted x ≡ 0
uncounted-rest loops e = refl
uncounted-rest (reserved n) e = refl
uncounted-rest (handed n k) e = absurd (ground (arith, e))
uncounted-rest (gave_back k) e = absurd (ground (arith, e))
uncounted-rest left e = refl

unreported-rest : (x : Completer) → completer_busy x ≡ false → unreported x ≡ 0
unreported-rest looks e = refl
unreported-rest (chose n) e = refl
unreported-rest (reaped k) e = absurd (ground (arith, e))
unreported-rest quit e = refl

bound_for-rest : (x : Sender) → sender_busy x ≡ false → bound_for x ≡ 0
bound_for-rest loops e = refl
bound_for-rest (reserved n) e = absurd (ground (arith, e))
bound_for-rest (handed n k) e = absurd (ground (arith, e))
bound_for-rest (gave_back k) e = absurd (ground (arith, e))
bound_for-rest left e = refl

-- Of threads that rest, one is at the head of its loop, or all have left.
senders-cases :
    (l : List Sender)
    → All (λ x. sender_busy x ≡ false) l
    → ((xs : List Sender) × (ys : List Sender) × (l ≡ xs ++ (loops ∷ ys)))
      ⊎ (All (λ x. x ≡ left) l × (sum has_left l ≡ length l))
senders-cases [] rest = inr (tt, refl)
senders-cases (loops ∷ l) rest = inl ([], l, refl)
senders-cases (reserved n ∷ l) rest = absurd (ground (arith, rest.0))
senders-cases (handed n k ∷ l) rest = absurd (ground (arith, rest.0))
senders-cases (gave_back k ∷ l) rest = absurd (ground (arith, rest.0))
senders-cases (left ∷ l) rest = elim (senders-cases l rest.1) [
  | inl (xs, ys, e) ↦ inl (left ∷ xs, ys, ap (λ r. left ∷ r) e)
  | inr (all, n) ↦ inr ((refl, all), omega (arith, n))
]

completers-cases :
    (l : List Completer)
    → All (λ x. completer_busy x ≡ false) l
    → ((xs : List Completer) × (ys : List Completer) × (l ≡ xs ++ (looks ∷ ys)))
      ⊎ (All (λ x. x ≡ quit) l × (sum has_quit l ≡ length l))
completers-cases [] rest = inr (tt, refl)
completers-cases (looks ∷ l) rest = inl ([], l, refl)
completers-cases (chose n ∷ l) rest = absurd (ground (arith, rest.0))
completers-cases (reaped k ∷ l) rest = absurd (ground (arith, rest.0))
completers-cases (quit ∷ l) rest = elim (completers-cases l rest.1) [
  | inl (xs, ys, e) ↦ inl (quit ∷ xs, ys, ap (λ r. quit ∷ r) e)
  | inr (all, n) ↦ inr ((refl, all), omega (arith, n))
]

-- All threads have left their loops.
abbrev pub Ended : Threads → Type 0
Ended s = All (λ x. x ≡ left) s.senders × All (λ x. x ≡ quit) s.completers

module _ (p : Profile) {total : ℕ} (fits : IsU32 total) (batch : ℕ) (batch_pos : 0 < batch) where
  module _ {s : Threads} (c : IsCounted total s) (some_sender : 0 < length s.senders)
      (some_completer : 0 < length s.completers) (rest : All (λ x. sender_busy x ≡ false) s.senders)
      (rest' : All (λ x. completer_busy x ≡ false) s.completers) where
    -- No packet is between the counters but those in the kernel's hands.
    settled :
        (s.sent_reserved ≡ s.sent)
        × (s.sent ≡ s.completed + s.under_way)
        × (sum unreported s.completers ≡ 0)
        × (sum bound_for s.senders ≡ 0)
    settled =
        let a = sum-rest sender_busy owed owed-rest s.senders rest in
        let b = sum-rest sender_busy uncounted uncounted-rest s.senders rest in
        let d = sum-rest completer_busy unreported unreported-rest s.completers rest' in
        (
          omega (arith, a, c.reserved_for),
          omega (arith, b, d, c.reported),
          d,
          sum-rest sender_busy bound_for bound_for-rest s.senders rest,
        )

    reserve_moves : s.sent < total → Nearer p fits batch s
    reserve_moves more = elim (senders-cases s.senders rest) [
      | inl (xs, ys, e) ↦
          let (next, up, eq) =
            Returns-ok _ _ (reserve_share-Returns p fits batch s.sent_reserved c.at_most) in
          let n : ℕ = share total batch s.sent_reserved in
          (
            _,
            later here (
                reserve xs ys s.sent s.completed next e (omega arith) (omega arith)
                  (ground (arith, more)) up),
            omega (
              arith,
              settled,
              batch_pos,
              sum-change bound_for xs loops (reserved n) ys e,
              sum-change sender_way xs loops (reserved n) ys e,
            ),
          )
      | inr (all, n) ↦ absurd (ground (arith, c.ended, n, settled))
    ]

    reap_moves : s.sent ≡ total → s.completed < total → Nearer p fits batch s
    reap_moves all_there more = elim (completers-cases s.completers rest') [
      | inl (xs, ys, e) ↦
          let k : ℕ = comp_batch_of batch s.sent s.completed in
          (
            _,
            later
                (later here
                  (choose xs ys s.completed s.sent e (omega arith) (omega arith) (omega arith)))
                (reap xs ys k k refl (omega arith) (omega (arith, settled))),
            omega (
              arith,
              settled,
              batch_pos,
              sum-change unreported xs looks (reaped k) ys e,
              sum-change completer_way xs looks (reaped k) ys e,
            ),
          )
      | inr (all, n) ↦ absurd (ground (arith, c.ended, n, settled))
    ]

    leave_moves : s.sent ≡ total → s.completed ≡ total → Nearer p fits batch s ⊎ Ended s
    leave_moves all_sent all_there = elim (senders-cases s.senders rest) [
      | inl (xs, ys, e) ↦ inl (
        _,
        later here (
            leave xs ys s.sent s.completed e (omega arith) (omega arith)
              (ground (arith, all_sent, all_there))),
        omega (
          arith,
          sum-change bound_for xs loops left ys e,
          sum-change sender_way xs loops left ys e,
        ),
      )
      | inr (all, n) ↦ elim (completers-cases s.completers rest') [
        | inl (xs, ys, e) ↦ inl (
          _,
          later here (stop xs ys s.completed e (omega arith) all_there),
          omega (
            arith,
            sum-change unreported xs looks quit ys e,
            sum-change completer_way xs looks quit ys e,
          ),
        )
        | inr (all', n') ↦ inr (all, all')
      ]
    ]

    pub rest_moves : Nearer p fits batch s ⊎ Ended s
    rest_moves = elim (dec_lt s.sent total) [
      | yes more ↦ inl (reserve_moves more)
      | no all_sent ↦ elim (dec_lt s.completed total) [
        | yes more ↦ inl (reap_moves (omega (arith, settled, c.at_most)) more)
        | no all_there ↦
            leave_moves (omega (arith, settled, c.at_most)) (omega (arith, settled, c.at_most))
      ]
    ]
