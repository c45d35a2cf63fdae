-- ===== src/FloodMt/Ends.antt =====
-- What the counters of examples/flood-mt.rs say while its threads run, and at the end of them all.
use xdpilone.Base.{
  ℕ, ◌+◌, ◌*◌, ◌≤◌, ◌<◌, ◌≡◌, ap, arith, List, [], ◌∷◌, length, Returns, Returns-map, Profile, All,
  IsU32,
}
use xdpilone.FloodMt.{
  left, quit, Threads, share, reserve_share, Reaches, here, later, start_threads,
}
use xdpilone.FloodMt.Count.{
  sum, owed, uncounted, unreported, has_left, has_quit, IsCounted, start-IsCounted, Step-IsCounted,
  sent_reserved, reserve_share-Returns,
}

-- The sums over threads that have all come to the same point.
sum-All :
    {A : Type 0} (f : A → ℕ) (y : A) (xs : List A)
    → All (λ x. x ≡ y) xs
    → sum f xs ≡ length xs * f y
sum-All f y [] h = grind arith
sum-All f y (x ∷ xs) h = grind (arith, ap f h.0, sum-All f y xs h.1)

module _ (p : Profile) {total : ℕ} (fits : IsU32 total) (batch n k : ℕ) where
  pub Reaches-IsCounted :
      {s : Threads} → Reaches p total batch (start_threads n k) s → IsCounted total s
  Reaches-IsCounted here = start-IsCounted total n k
  Reaches-IsCounted (later r t) = Step-IsCounted p fits batch t (Reaches-IsCounted r)

  -- From the start of any number of threads, in every profile, for a total that is a u32, in
  -- whatever order the threads step: the packets counted as completed, those in the kernel's hands
  -- and the completions read and not yet counted are just the packets counted as sent and those
  -- handed over and not yet counted; these are no more than `sent_reserved`; and the next update
  -- of `sent_reserved` does not overflow and stays within the total.
  pub Reaches-counters :
      {s : Threads}
      → Reaches p total batch (start_threads n k) s
      → (s.completed + s.under_way + sum unreported s.completers ≡ s.sent + sum uncounted s.senders)
        × (s.sent + sum uncounted s.senders ≤ s.sent_reserved)
        × Returns (reserve_share p total batch s.sent_reserved) (λ z. z ≤ total)
  Reaches-counters {s} r =
      let c = Reaches-IsCounted r in
      (
        omega (arith, c.reported),
        sent_reserved c,
        Returns-map (λ z. z ≡ s.sent_reserved + share total batch s.sent_reserved) (λ z. z ≤ total)
            (reserve_share p total batch s.sent_reserved)
            (reserve_share-Returns p fits batch s.sent_reserved c.at_most)
            (λ z e. omega (arith, c.at_most)),
      )

  -- From the start of any number of threads, in every profile, for a total that is a u32: when all
  -- threads have left their loops, and there is one, exactly the total of packets is counted as
  -- sent and as completed, and none is in the kernel's hands.
  pub Reaches-totals :
      {s : Threads}
      → Reaches p total batch (start_threads n k) s
      → All (λ x. x ≡ left) s.senders
      → All (λ x. x ≡ quit) s.completers
      → 0 < length s.senders + length s.completers
      → (s.sent ≡ total) × (s.completed ≡ total) × (s.under_way ≡ 0)
  Reaches-totals {s} r hs hc some_thread =
      let c = Reaches-IsCounted r in
      ground (
        arith,
        c.ended,
        c.reported,
        c.reserved_for,
        c.at_most,
        sum-All owed left s.senders hs,
        sum-All uncounted left s.senders hs,
        sum-All has_left left s.senders hs,
        sum-All unreported quit s.completers hc,
        sum-All has_quit quit s.completers hc,
      )
