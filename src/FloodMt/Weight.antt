-- ===== src/FloodMt/Weight.antt =====
-- How far the threads of examples/flood-mt.rs are from the end: every thread's way to its next rest,
-- and the packets that are still to be reserved and to be read.
use xdpilone.Base.{
  ℕ, ◌+◌, ◌-◌, ◌*◌, ◌<◌, ◌≡◌, ◌⊎◌, inl, inr, refl, ap, arith, Bool, true, false, List, [], ◌∷◌,
  ◌++◌, min, Profile, IsU32, All, Bool-cases, Returns-ok,
}
use xdpilone.FloodMt.{
  Sender, loops, reserved, handed, gave_back, left, Completer, looks, chose, reaped, quit, Threads,
  transmit, restore, count_sent, reap, count_completed, Reaches, here, later,
}
use xdpilone.FloodMt.Count.{
  sum, sum-change, sum-part, uncounted, unreported, IsCounted, sent_total, restores,
}

-- What a sender will have sent when it comes back to the head of its loop.
abbrev pub bound_for : Sender → ℕ
bound_for loops = 0
bound_for (reserved n) = n
bound_for (handed n k) = k
bound_for (gave_back k) = k
bound_for left = 0

abbrev pub sender_way : Sender → ℕ
sender_way loops = 1
sender_way (reserved n) = 4
sender_way (handed n k) = 3
sender_way (gave_back k) = 2
sender_way left = 0

abbrev pub completer_way : Completer → ℕ
completer_way looks = 1
completer_way (chose n) = 3
completer_way (reaped k) = 2
completer_way quit = 0

-- Within the loop
abbrev pub sender_busy : Sender → Bool
sender_busy loops = false
sender_busy (reserved n) = true
sender_busy (handed n k) = true
sender_busy (gave_back k) = true
sender_busy left = false

abbrev pub completer_busy : Completer → Bool
completer_busy looks = false
completer_busy (chose n) = true
completer_busy (reaped k) = true
completer_busy quit = false

abbrev pub weight : ℕ → Threads → ℕ
weight total s =
    4 * (total - (s.sent + sum bound_for s.senders))
    + sum sender_way s.senders
    + (4 * (total - (s.completed + sum unreported s.completers)) + sum completer_way s.completers)

-- The first element with a property, or none.
pub find_split {ℓ} :
    {A : Type ℓ} (f : A → Bool) (l : List A)
    → ((xs : List A) × (x : A) × (ys : List A) × (l ≡ xs ++ (x ∷ ys)) × (f x ≡ true))
      ⊎ All (λ x. f x ≡ false) l
find_split f [] = inr tt
find_split f (x ∷ l) = elim (Bool-cases (f x)) [
  | inl has ↦ inl ([], x, l, refl, has)
  | inr lacks ↦ elim (find_split f l) [
    | inl (xs, y, ys, e, has) ↦ inl (x ∷ xs, y, ys, ap (λ r. x ∷ r) e, has)
    | inr rest ↦ inr (lacks, rest)
  ]
]

module _ (p : Profile) {total : ℕ} (fits : IsU32 total) (batch : ℕ) where
  -- A move that comes nearer to the end.
  abbrev pub Nearer : Threads → Type 0
  Nearer s = (t : Threads) × Reaches p total batch s t × (weight total t < weight total s)

  -- A sender that is within its loop goes on.
  pub sender_moves :
      {s : Threads}
      → IsCounted total s
      → (xs : List Sender) (x : Sender) (ys : List Sender) → s.senders ≡ xs ++ (x ∷ ys)
      → sender_busy x ≡ true
      → Nearer s
  sender_moves c xs loops ys e h = absurd (ground (arith, h))
  sender_moves c xs left ys e h = absurd (ground (arith, h))
  sender_moves {s} c xs (reserved n) ys e h = (
    _,
    later here (transmit xs ys n n e (omega arith)),
    omega (
      arith,
      sum-change bound_for xs (reserved n) (handed n n) ys e,
      sum-change sender_way xs (reserved n) (handed n n) ys e,
    ),
  )
  sender_moves {s} c xs (handed n k) ys e h =
      let (next, up, eq) = Returns-ok _ _ (restores p fits c xs ys n k e) in
      (
        _,
        later here (restore xs ys n k next e up),
        omega (
          arith,
          sum-change bound_for xs (handed n k) (gave_back k) ys e,
          sum-change sender_way xs (handed n k) (gave_back k) ys e,
        ),
      )
  sender_moves {s} c xs (gave_back k) ys e h = (
    _,
    later here (count_sent xs ys k e),
    omega (
      arith,
      sum-change bound_for xs (gave_back k) loops ys e,
      sum-change sender_way xs (gave_back k) loops ys e,
      sum-part uncounted xs (gave_back k) ys e,
      sent_total c,
    ),
  )

  -- A completer that is within its loop goes on.
  pub completer_moves :
      {s : Threads}
      → IsCounted total s
      → (xs : List Completer) (x : Completer) (ys : List Completer) → s.completers ≡ xs ++ (x ∷ ys)
      → completer_busy x ≡ true
      → Nearer s
  completer_moves c xs looks ys e h = absurd (ground (arith, h))
  completer_moves c xs quit ys e h = absurd (ground (arith, h))
  completer_moves {s} c xs (chose n) ys e h = (
    _,
    later here (reap xs ys n (min n s.under_way) e (omega arith) (omega arith)),
    omega (
      arith,
      sum-change unreported xs (chose n) (reaped (min n s.under_way)) ys e,
      sum-change completer_way xs (chose n) (reaped (min n s.under_way)) ys e,
    ),
  )
  completer_moves {s} c xs (reaped k) ys e h = (
    _,
    later here (count_completed xs ys k e),
    omega (
      arith,
      sum-change unreported xs (reaped k) looks ys e,
      sum-change completer_way xs (reaped k) looks ys e,
      sum-part unreported xs (reaped k) ys e,
      c.reported,
      sent_total c,
    ),
  )
