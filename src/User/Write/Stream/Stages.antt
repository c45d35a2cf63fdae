-- ===== src/User/Write/Stream/Stages.antt =====
-- What holds at the stages of a writer, and that the operations of xsk/user.rs lead from one to the
-- next: they return, whatever is done at a stage.
use mathlib.Core.List.{append_assoc, append-nil}
use xdpilone.Base.{
  ℕ, ◌+◌, ◌≤◌, ◌≡◌, refl, sym, ap, ap₂, subst, ◌∙◌, arith, Returns, Returns-map, Profile, List, [],
  ◌++◌, length, length-append, length-take, take-min, append_inj, take, All, wrapping_add,
  wrapping_sub, IsU32, IsPow2-le, false,
}
use native.Mathlib.Decide.{dec_lt}
use xdpilone.Memory.{Memory, Slot}
use xdpilone.Ring.{RingProd, SameRing}
use xdpilone.Ring.Entries.{
  entries, entries-append, entries-same, entries_agree, length-entries, IsLaidOut, IsLaidOut-same,
}
use xdpilone.Ring.Prod.Inv.{IsProd, IsIdle, given, in_flight}
use xdpilone.User.Write.{Writer, start_write, insert, insert_loop, commit, drop_writer}
use xdpilone.User.Write.Fill.{Filled, insert_loop-Filled}
use xdpilone.User.Write.Batch.{
  pending, Started, start_write_lem, Committed, commit_lem, insert_no_room,
}
use xdpilone.User.Write.Send.{Dropped, drop_writer_lem}

module _ {A : Type 0} (slot : Slot A) where
  -- A ring between two writers.
  pub record IsReady (m : Memory) (q : RingProd) : Type 0 where
    pub idle : IsIdle m q
    pub laid : IsLaidOut slot q.inner

  -- A writer into which `staged` has been inserted, behind what the kernel has.
  pub record IsOpen (m : Memory) (w : Writer) (staged : List A) : Type 0 where
    pub valid : IsProd m w.queue
    pub laid : IsLaidOut slot w.queue.inner
    pub left : w.idx.remain + length staged ≡ w.idx.buffers
    pub reserved : in_flight m w.queue ≡ given m w.queue + w.idx.buffers
    pub base : 1 ≤ w.idx.buffers → w.idx.base ≡ wrapping_add (m w.queue.producer) (length staged)
    pub base_fits : IsU32 w.idx.base
    pub contents : entries slot w.queue.inner m (m w.queue.producer) (length staged) ≡ staged

  -- The entries that are pending do not depend on the cached heads.
  same_queue_pending :
      (q q' : RingProd) (m : Memory)
      → SameRing q.inner q'.inner
      → pending slot m q' ≡ pending slot m q
  same_queue_pending q q' m same =
      entries-same slot same m (m q'.consumer) (given m q')
      ∙ ap₂ (entries slot q.inner m) (ap m same.consumer)
          (ap₂ (λ a b. wrapping_sub (m a) (m b)) same.producer same.consumer)

  -- What an insertion into an open writer leaves.
  pub record Inserts (m : Memory) (w : Writer) (staged items : List A) (k : ℕ) (m' : Memory)
      (w' : Writer) : Type 0 where
    pub stage : IsOpen m' w' (staged ++ take k items)
    pub queue : w'.queue ≡ w.queue
    pub same_pending : pending slot m' w'.queue ≡ pending slot m w.queue

  -- A writer of which nothing is known but what is reserved.
  pub record IsSpent (m : Memory) (w : Writer) : Type 0 where
    pub valid : IsProd m w.queue
    pub laid : IsLaidOut slot w.queue.inner
    pub reserved : in_flight m w.queue ≡ given m w.queue + w.idx.buffers

  pub IsOpen-IsSpent : {m : Memory} {w : Writer} {staged : List A} → IsOpen m w staged → IsSpent m w
  IsOpen-IsSpent o = record { valid = o.valid; laid = o.laid; reserved = o.reserved }

  -- What a commit leaves.
  pub record Commits (m : Memory) (w : Writer) (staged : List A) (m' : Memory) (w' : Writer)
      : Type 0 where
    pub stage : IsSpent m' w'
    pub queued : pending slot m' w'.queue ≡ pending slot m w.queue ++ staged

  -- The entries from the consumer on are those that are pending and those that are staged.
  two_parts :
      (q : RingProd) (m : Memory) (n : ℕ)
      → IsU32 (m q.consumer)
      → IsU32 (m q.producer)
      → entries slot q.inner m (m q.consumer) (given m q + n)
        ≡ pending slot m q ++ entries slot q.inner m (m q.producer) n
  two_parts q m n c_fits p_fits =
      entries-append slot q.inner m (m q.consumer) (given m q) n c_fits
      ∙ ap (λ c. pending slot m q ++ entries slot q.inner m c n) (omega arith)

  module _ (p : Profile) (wraps : p.overflow_checks ≡ false) {m : Memory} where
    start-IsOpen :
        (q : RingProd) (n : ℕ) (w : Writer)
        → IsReady m q
        → Started m n q w
        → IsOpen m w [] × (pending slot m w.queue ≡ pending slot m q)
    start-IsOpen q n w r s = (
      record {
        valid = s.valid;
        laid = IsLaidOut-same slot s.same r.laid;
        left = omega (arith, s.all_left);
        reserved = ground (arith, IsPow2-le r.idle.valid.pow);
        base = λ h. ground (arith, s.first h);
        base_fits = s.base_fits;
        contents = refl;
      },
      same_queue_pending q w.queue m s.same,
    )

    -- `transmit` and `fill` of a ring between two writers return a writer in which nothing is staged.
    pub start_write-IsOpen :
        (q : RingProd) (n : ℕ)
        → IsReady m q
        → Returns
            (start_write p m n q)
            (λ w. IsOpen m w [] × (pending slot m w.queue ≡ pending slot m q))
    start_write-IsOpen q n r =
        Returns-map (Started m n q) _ (start_write p m n q) (start_write_lem p wraps n r.idle)
          (λ w. start-IsOpen q n w r)

    module _ (w : Writer) (staged items : List A) (k : ℕ) (rest : List A) (m' : Memory)
        (w' : Writer) (o : IsOpen m w staged)
        (f : Filled slot
          (m w.queue.consumer)
          (given m w.queue + length staged)
          0
          m
          w
          items
          (k, rest, m', w')) where
      same_producer : m' w.queue.producer ≡ m w.queue.producer
      same_producer = f.outside w.queue.producer o.laid.producer_outside

      same_consumer : m' w.queue.consumer ≡ m w.queue.consumer
      same_consumer = f.outside w.queue.consumer o.laid.consumer_outside

      same_given : given m' w.queue ≡ given m w.queue
      same_given = ap₂ wrapping_sub same_producer same_consumer

      taken : take w.idx.remain items ≡ take k items
      taken = sym (ap (λ n. take n items) (omega (arith, f.count)) ∙ take-min w.idx.remain items)

      -- What stands in the ring after the insertion, from the consumer on.
      ring_after :
          pending slot m' w.queue
            ++ entries slot w.queue.inner m' (m' w.queue.producer) (length staged + k)
          ≡ pending slot m w.queue ++ (staged ++ take k items)
      ring_after =
          sym (
            two_parts w.queue m' (length staged + k) (rw same_consumer o.valid.consumer_fits)
              (rw same_producer o.valid.producer_fits))
          ∙ (ap₂ (entries slot w.queue.inner m') same_consumer (omega (arith, same_given, f.count))
              ∙ (f.contents
                  ∙ (ap₂ ◌++◌
                        (two_parts w.queue m (length staged) o.valid.consumer_fits
                            o.valid.producer_fits
                          ∙ ap (λ l. pending slot m w.queue ++ l) o.contents)
                        taken
                      ∙ append_assoc (pending slot m w.queue) staged (take k items))))

      parts :
          (pending slot m' w.queue ≡ pending slot m w.queue)
          × (entries slot w.queue.inner m' (m' w.queue.producer) (length staged + k)
              ≡ staged ++ take k items)
      parts =
          append_inj (pending slot m' w.queue) (pending slot m w.queue)
            (length-entries slot w.queue.inner m' (m' w.queue.consumer) (given m' w.queue)
              ∙ (same_given
                  ∙ sym
                      (length-entries slot w.queue.inner m (m w.queue.consumer) (given m w.queue))))
            ring_after

      now_staged : length (staged ++ take k items) ≡ length staged + k
      now_staged = omega (arith, length-append staged (take k items), length-take k items, f.count)

      valid_after : IsProd m' w.queue
      valid_after = ground (arith, same_producer, same_consumer, o.valid)

      Inserts-Filled : 1 ≤ w.idx.buffers → Inserts m w staged items k m' w'
      Inserts-Filled some_room = record {
        stage = record {
          valid = rw f.queue valid_after;
          laid = rw f.queue o.laid;
          left = omega (arith, now_staged, f.count, f.remain, f.buffers, o.left);
          reserved =
              rw f.queue (ground (arith, same_producer, same_consumer, o.reserved, f.buffers));
          base = λ h. rw f.queue (
              omega (
                arith, f.base, now_staged, same_producer, f.count, o.valid.producer_fits,
                o.valid.consumer_fits,
              ));
          base_fits = omega (arith, f.base);
          contents = rw (f.queue, now_staged) parts.1;
        };
        queue = f.queue;
        same_pending = ap (pending slot m') f.queue ∙ parts.0;
      }

    -- No place is left, so nothing is inserted.
    Inserts-none :
        (w : Writer) (staged items : List A) → IsOpen m w staged → Inserts m w staged items 0 m w
    Inserts-none w staged items o = record {
      stage = rw (append-nil staged) o;
      queue = refl;
      same_pending = refl;
    }

    insert-Filled :
        (w : Writer) (staged items : List A)
        → IsOpen m w staged
        → All slot.IsValue items
        → 1 ≤ w.idx.buffers
        → Returns
            (insert_loop slot p 0 m w items)
            (Filled slot (m w.queue.consumer) (given m w.queue + length staged) 0 m w items)
    insert-Filled w staged items o good some_room =
        let at_base : wrapping_add (m w.queue.consumer) (given m w.queue + length staged)
            ≡ w.idx.base =
          omega (arith, o.base some_room, o.valid.producer_fits, o.valid.consumer_fits) in
        subst
          (λ b.
            let w' : Writer = record {
              idx = record { base = b; buffers = w.idx.buffers; remain = w.idx.remain };
              queue = w.queue;
            } in
            Returns (insert_loop slot p 0 m w' items)
              (Filled slot (m w.queue.consumer) (given m w.queue + length staged) 0 m w' items))
          at_base
          (insert_loop-Filled slot p w.queue o.laid (m w.queue.consumer) o.valid.consumer_fits
            w.idx.buffers items (given m w.queue + length staged) 0 m w.idx.remain
            (omega (arith, o.left, o.reserved, o.valid.view, IsPow2-le o.valid.pow))
            (omega (arith, o.left, o.reserved, o.valid.view)) good)

    -- Any insertion into an open writer returns: it puts items behind those that are staged.
    pub insert-Inserts :
        (w : Writer) (staged items : List A)
        → IsOpen m w staged
        → All slot.IsValue items
        → Returns (insert slot p m w items) (λ (k, rest, m', w'). Inserts m w staged items k m' w')
    unfolding insert
    insert-Inserts w staged items o good = elim (dec_lt 0 w.idx.buffers) [
      | yes some_room ↦
          Returns-map _ _ _ (insert-Filled w staged items o good some_room)
            (λ (k, rest, m', w') f. Inserts-Filled w staged items k rest m' w' o f some_room)
      | no none_left ↦
          rw (insert_no_room slot p m w items (omega (arith, o.left)))
            (Inserts-none w staged items o)
    ]

    -- The drop of a writer leaves the entries that are pending.
    pub drop_writer-IsReady :
        (w : Writer)
        → IsSpent m w
        → Returns (drop_writer p w) (λ q. IsReady m q × (pending slot m q ≡ pending slot m w.queue))
    drop_writer-IsReady w o =
        Returns-map (Dropped m w) _ (drop_writer p w)
          (drop_writer_lem p m w wraps o.valid (omega (arith, o.reserved)))
          λ q d. (
            record {
              idle = record {
                valid = d.valid;
                settled = ground (arith, o.reserved, d.returned, d.same, IsPow2-le d.valid.pow);
              };
              laid = IsLaidOut-same slot d.same o.laid;
            },
            same_queue_pending w.queue q m d.same,
          )

    -- What the shared heads say after the commit.
    module _ (w w1 : Writer) (staged : List A) (m1 : Memory) (o : IsOpen m w staged)
        (c : Committed m w w1 m1) where
      consumer_stays : m1 w.queue.consumer ≡ m w.queue.consumer
      consumer_stays = c.frame w.queue.consumer (λ e. o.valid.heads_apart (sym e))

      given_after : given m1 w.queue ≡ given m w.queue + length staged
      given_after =
          ground (arith, c.head, consumer_stays, o.left, o.reserved, IsPow2-le o.valid.pow)

      committed-IsProd : IsProd m1 w.queue
      committed-IsProd =
          ground
            (arith, c.head, consumer_stays, given_after, o.left, o.reserved, IsPow2-le o.valid.pow)

      in_flight_after : in_flight m1 w.queue ≡ given m w.queue + w.idx.buffers
      in_flight_after = ap (wrapping_sub w.queue.cached_producer) consumer_stays ∙ o.reserved

      pending_after : pending slot m1 w.queue ≡ pending slot m w.queue ++ staged
      pending_after =
          ap₂ (entries slot w.queue.inner m1) consumer_stays given_after
          ∙ (entries_agree slot w.queue.inner o.laid.pow o.laid.masked m m1 w.queue.producer
                o.laid.producer_outside c.frame (m w.queue.consumer)
                (given m w.queue + length staged)
              ∙ (two_parts w.queue m (length staged) o.valid.consumer_fits o.valid.producer_fits
                  ∙ ap (λ l. pending slot m w.queue ++ l) o.contents))

      Commits-Committed : Commits m w staged m1 w1
      Commits-Committed = record {
        stage = record {
          valid = rw c.queue committed-IsProd;
          laid = rw c.queue o.laid;
          reserved = rw c.queue (omega (arith, in_flight_after, given_after, c.buffers, o.left));
        };
        queued = rw c.queue pending_after;
      }

    -- `commit` hands the staged entries to the kernel.
    pub commit-Commits :
        (w : Writer) (staged : List A)
        → IsOpen m w staged
        → Returns (commit p m w) (λ (w', m'). Commits m w staged m' w')
    commit-Commits w staged o =
        Returns-map (λ (w1, m1). Committed m w w1 m1) (λ (w1, m1). Commits m w staged m1 w1)
          (commit p m w)
          (commit_lem p m w wraps (omega (arith, o.left))
            (omega (arith, o.reserved, o.valid.view, IsPow2-le o.valid.pow)) o.base_fits
            o.valid.producer_fits)
          λ (w1, m1) c. Commits-Committed w w1 staged m1 o c
