-- ===== src/User/Read/Stream/Order.antt =====
-- A consumer ring is a queue: what user space reads and releases is what the kernel has put there, in
-- order, nothing lost and nothing twice, whatever the order of the steps.
use mathlib.Core.List.{append_assoc}
use xdpilone.Base.{
  ℕ, ◌≡◌, sym, ap, ◌∙◌, Returns, Returns-map, Returns-at, Profile, List, ◌++◌, false,
}
use xdpilone.Memory.{Memory, Slot}
use xdpilone.User.Read.{start_read, release_read, drop_reader}
use xdpilone.User.Read.Batch.{waiting}
use xdpilone.User.Read.Stream.{
  Puts, Stage, idle, open_reader, spent_reader, drop_spent, queue_of, Stream, Step, Reaches, start,
  read_item, release_items, abandon, put_entries, here, later,
}
use xdpilone.User.Read.Stream.Stages.{
  IsReady, IsOpen, IsSpent, IsOpen-IsSpent, Releases, Puts-IsReady, Puts-IsOpen, Puts-IsSpent,
  waiting-Puts,
}
use xdpilone.User.Read.Stream.Moves.{
  start_read-IsOpen, read-IsOpen, release_read-Releases, drop_reader-IsReady,
}

module _ {A : Type 0} (slot : Slot A) where
  -- What holds at a stage.
  abbrev pub IsAt : Memory → Stage A → Type 0
  IsAt m (idle q) = IsReady slot m q
  IsAt m (open_reader r items) = IsOpen slot m r items
  IsAt m (spent_reader r) = IsSpent slot m r

  -- What the kernel has put is what user space has released and what still waits.
  pub record IsFifo (s : Stream A) : Type 0 where
    pub stage : IsAt s.memory s.stage
    pub order : s.put ≡ s.released ++ waiting slot s.memory (queue_of s.stage)

  -- What user space may do next returns: start a reader for `n` entries, while the kernel goes from
  -- `m` to `m'`; release, or drop the reader. `read` always does.
  abbrev pub Runs : Profile → ℕ → Memory → Memory → Stage A → Type 0
  Runs p n m m' (idle q) = Returns (start_read p m m' n q) (λ _. Unit {0})
  Runs p n m m' (open_reader r items) =
      Returns (release_read p m r) (λ _. Unit {0}) × Returns (drop_reader p r) (λ _. Unit {0})
  Runs p n m m' (spent_reader r) = Returns (drop_reader p r) (λ _. Unit {0})

  module _ (p : Profile) (wraps : p.overflow_checks ≡ false) where
    IsAt-Runs :
        (n : ℕ) (m m' : Memory) (s : Stage A)
        → Puts slot (queue_of s) m m'
        → IsAt m s
        → Runs p n m m' s
    IsAt-Runs n m m' (idle q) k i =
        Returns-map _ _ _ (start_read-IsOpen slot p wraps q n i k) (λ r h. tt)
    IsAt-Runs n m m' (open_reader r items) k o = (
      Returns-map _ _ _ (release_read-Releases slot p wraps r items o) (λ out h. tt),
      Returns-map _ _ _ (drop_reader-IsReady slot p wraps r (IsOpen-IsSpent slot o)) (λ q h. tt),
    )
    IsAt-Runs n m m' (spent_reader r) k o =
        Returns-map _ _ _ (drop_reader-IsReady slot p wraps r o) (λ q h. tt)

    -- What the kernel puts goes to the end of both sides.
    puts-order : (c t l l' new : List A) → l' ≡ l ++ new → c ≡ t ++ l → c ++ new ≡ t ++ l'
    puts-order c t l l' new more order =
        ap (λ x. x ++ new) order ∙ (append_assoc t l new ∙ ap (λ x. t ++ x) (sym more))

    Step-IsFifo : {s t : Stream A} → Step slot p s t → IsFifo s → IsFifo t
    Step-IsFifo (start m m' q c t n r k e) i =
        let (o, more) = Returns-at _ r (start_read-IsOpen slot p wraps q n i.stage k) e in
        record { stage = o; order = puts-order c t _ _ _ more i.order }
    Step-IsFifo (read_item m r items c t x r' e) i =
        let (o, same) = read-IsOpen slot p wraps r r' items x i.stage e in
        record { stage = o; order = i.order ∙ ap (λ q. t ++ waiting slot m q) (sym same) }
    Step-IsFifo (release_items m r items c t r' m' e) i =
        let f : Releases slot m r items m' r' =
          Returns-at _ (r', m') (release_read-Releases slot p wraps r items i.stage) e in
        record {
          stage = f.stage;
          order =
              i.order
              ∙ (ap (λ l. t ++ l) f.in_order
                  ∙ sym (append_assoc t items (waiting slot m' r'.queue)));
        }
    Step-IsFifo (abandon m r items c t q e) i =
        let (ready, same) =
          Returns-at _ q (drop_reader-IsReady slot p wraps r (IsOpen-IsSpent slot i.stage)) e in
        record { stage = ready; order = i.order ∙ ap (λ l. t ++ l) (sym same) }
    Step-IsFifo (drop_spent m r c t q e) i =
        let (ready, same) = Returns-at _ q (drop_reader-IsReady slot p wraps r i.stage) e in
        record { stage = ready; order = i.order ∙ ap (λ l. t ++ l) (sym same) }
    Step-IsFifo (put_entries m (idle q) c t m' k) i = record {
      stage = Puts-IsReady slot k i.stage;
      order = puts-order c t _ _ _ (waiting-Puts slot i.stage.idle.valid k) i.order;
    }
    Step-IsFifo (put_entries m (open_reader r items) c t m' k) i = record {
      stage = Puts-IsOpen slot k i.stage;
      order = puts-order c t _ _ _ (waiting-Puts slot i.stage.valid k) i.order;
    }
    Step-IsFifo (put_entries m (spent_reader r) c t m' k) i = record {
      stage = Puts-IsSpent slot k i.stage;
      order = puts-order c t _ _ _ (waiting-Puts slot i.stage.valid k) i.order;
    }

    Reaches-all : {s t : Stream A} → IsFifo s → Reaches slot p s t → IsFifo t
    Reaches-all i here = i
    Reaches-all i (later r st) = Step-IsFifo st (Reaches-all i r)

    -- In a build without overflow checks, from a stream whose ring is idle and laid out, or has a
    -- reader that has read the first of the entries that wait or has released, and in which what
    -- the kernel has put is what was released followed by what waits: however user space starts
    -- readers, reads from them before they release, releases each at most once and drops them, and
    -- the kernel puts entries between any two of these steps, this goes on to hold, so that what
    -- is released is what the kernel has put, in that order; and, where the kernel goes from the
    -- memory to `m'`, the next start for `n` entries, release before a release, and drop of a
    -- reader return.
    pub Reaches-read_in_order :
        {s t : Stream A} (n : ℕ) (m' : Memory)
        → IsFifo s
        → Reaches slot p s t
        → Puts slot (queue_of t.stage) t.memory m'
        → IsFifo t × Runs p n t.memory m' t.stage
    Reaches-read_in_order {s} {t} n m' i r k =
        let j = Reaches-all i r in (j, IsAt-Runs n t.memory m' t.stage k j.stage)
