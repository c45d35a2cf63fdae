-- ===== src/User/Write/Stream/Order.antt =====
-- A producer ring is a queue: what the kernel takes is what was committed, in order, nothing lost and
-- nothing twice, whatever the order of the steps.
use mathlib.Core.List.{append_assoc}
use xdpilone.Base.{
  ℕ, ◌≡◌, sym, ap, ◌∙◌, Returns, Returns-map, Returns-at, Profile, List, ◌++◌, All, false,
}
use xdpilone.Memory.{Memory, Slot}
use xdpilone.Ring.{RingProd}
use xdpilone.User.Write.{start_write, insert, commit, drop_writer}
use xdpilone.User.Write.Batch.{pending}
use xdpilone.User.Write.Stream.{
  Stage, idle, open_writer, spent_writer, drop_spent, queue_of, Stream, Step, Reaches, start,
  insert_items, commit_items, abandon, take_entries, here, later,
}
use xdpilone.User.Write.Stream.Stages.{
  IsReady, IsOpen, IsSpent, IsOpen-IsSpent, Inserts, Commits, start_write-IsOpen, insert-Inserts,
  commit-Commits, drop_writer-IsReady,
}
use xdpilone.User.Write.Stream.Kernel.{Takes-IsReady, Takes-IsOpen, Takes-IsSpent, pending-Takes}

module _ {A : Type 0} (slot : Slot A) where
  -- What holds at a stage.
  abbrev pub IsAt : Memory → Stage A → Type 0
  IsAt m (idle q) = IsReady slot m q
  IsAt m (open_writer w staged) = IsOpen slot m w staged
  IsAt m (spent_writer w) = IsSpent slot m w

  -- What was committed is what the kernel has taken and what it may still take.
  pub record IsFifo (s : Stream A) : Type 0 where
    pub stage : IsAt s.memory s.stage
    pub order : s.committed ≡ s.taken ++ pending slot s.memory (queue_of s.stage)

  -- What user space may do next returns: start a writer for `n` entries; insert `items`, commit,
  -- or drop the writer.
  abbrev pub Runs : Profile → ℕ → List A → Memory → Stage A → Type 0
  Runs p n items m (idle q) = Returns (start_write p m n q) (λ _. Unit {0})
  Runs p n items m (open_writer w staged) =
      Returns (insert slot p m w items) (λ _. Unit {0})
      × Returns (commit p m w) (λ _. Unit {0})
      × Returns (drop_writer p w) (λ _. Unit {0})
  Runs p n items m (spent_writer w) = Returns (drop_writer p w) (λ _. Unit {0})

  module _ (p : Profile) (wraps : p.overflow_checks ≡ false) where
    IsAt-Runs :
        (n : ℕ) (items : List A)
        → All slot.IsValue items
        → (m : Memory) (s : Stage A) → IsAt m s
        → Runs p n items m s
    IsAt-Runs n items good m (idle q) r =
        Returns-map _ _ _ (start_write-IsOpen slot p wraps q n r) (λ w h. tt)
    IsAt-Runs n items good m (open_writer w staged) o = (
      Returns-map _ _ _ (insert-Inserts slot p wraps w staged items o good) (λ out h. tt),
      Returns-map _ _ _ (commit-Commits slot p wraps w staged o) (λ out h. tt),
      Returns-map _ _ _ (drop_writer-IsReady slot p wraps w (IsOpen-IsSpent slot o)) (λ q h. tt),
    )
    IsAt-Runs n items good m (spent_writer w) o =
        Returns-map _ _ _ (drop_writer-IsReady slot p wraps w o) (λ q h. tt)

    -- What the kernel takes goes from the pending entries to the end of what it has taken.
    takes-order :
        (m m' : Memory) (q : RingProd) (c t l : List A)
        → pending slot m q ≡ l ++ pending slot m' q
        → c ≡ t ++ pending slot m q
        → c ≡ (t ++ l) ++ pending slot m' q
    takes-order m m' q c t l part order =
        order ∙ (ap (λ x. t ++ x) part ∙ sym (append_assoc t l (pending slot m' q)))

    Step-IsFifo : {s t : Stream A} → Step slot p s t → IsFifo s → IsFifo t
    Step-IsFifo (start m q c t n w e) i =
        let (o, same) = Returns-at _ w (start_write-IsOpen slot p wraps q n i.stage) e in
        record { stage = o; order = i.order ∙ ap (λ l. t ++ l) (sym same) }
    Step-IsFifo (insert_items m w staged c t items k rest m' w' good e) i =
        let r : Inserts slot m w staged items k m' w' =
          Returns-at _ (k, rest, m', w') (insert-Inserts slot p wraps w staged items i.stage good)
            e in
        record { stage = r.stage; order = i.order ∙ ap (λ l. t ++ l) (sym r.same_pending) }
    Step-IsFifo (commit_items m w staged c t w' m' e) i =
        let r : Commits slot m w staged m' w' =
          Returns-at _ (w', m') (commit-Commits slot p wraps w staged i.stage) e in
        record {
          stage = r.stage;
          order =
              ap (λ l. l ++ staged) i.order
              ∙ (append_assoc t (pending slot m w.queue) staged ∙ ap (λ l. t ++ l) (sym r.queued));
        }
    Step-IsFifo (abandon m w staged c t q e) i =
        let (r, same) =
          Returns-at _ q (drop_writer-IsReady slot p wraps w (IsOpen-IsSpent slot i.stage)) e in
        record { stage = r; order = i.order ∙ ap (λ l. t ++ l) (sym same) }
    Step-IsFifo (drop_spent m w c t q e) i =
        let (r, same) = Returns-at _ q (drop_writer-IsReady slot p wraps w i.stage) e in
        record { stage = r; order = i.order ∙ ap (λ l. t ++ l) (sym same) }
    Step-IsFifo (take_entries m (idle q) c t m' k) i = record {
      stage = Takes-IsReady slot k i.stage;
      order =
          takes-order m m' q c t _ (pending-Takes slot i.stage.idle.valid k i.stage.laid) i.order;
    }
    Step-IsFifo (take_entries m (open_writer w staged) c t m' k) i = record {
      stage = Takes-IsOpen slot k i.stage;
      order =
          takes-order m m' w.queue c t _ (pending-Takes slot i.stage.valid k i.stage.laid) i.order;
    }
    Step-IsFifo (take_entries m (spent_writer w) c t m' k) i = record {
      stage = Takes-IsSpent slot k i.stage;
      order =
          takes-order m m' w.queue c t _ (pending-Takes slot i.stage.valid k i.stage.laid) i.order;
    }

    Reaches-all : {s t : Stream A} → IsFifo s → Reaches slot p s t → IsFifo t
    Reaches-all i here = i
    Reaches-all i (later r st) = Step-IsFifo st (Reaches-all i r)

    -- In a build without overflow checks, from a stream whose ring is idle and laid out, or has a
    -- writer that is open with what was inserted or has committed, and whose committed items are
    -- those that the kernel has taken followed by those pending: however user space starts
    -- writers, inserts into them before they commit, commits each at most once and drops them, and
    -- the kernel takes entries between any two of these steps, this goes on to hold, so that the
    -- kernel takes what was committed, in that order; and the next start for `n` entries,
    -- insertion of the values `items` and commit before a commit, and drop of the writer return.
    pub Reaches-taken_in_order :
        {s t : Stream A} (n : ℕ) (items : List A)
        → All slot.IsValue items
        → IsFifo s
        → Reaches slot p s t
        → IsFifo t × Runs p n items t.memory t.stage
    Reaches-taken_in_order {s} {t} n items good i r =
        let j = Reaches-all i r in (j, IsAt-Runs n items good t.memory t.stage j.stage)
