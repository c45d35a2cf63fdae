-- ===== src/User/Read/Stream/Stages.antt =====
-- What holds at the stages of a reader, and that the operations of xsk/user.rs lead from one to the
-- next, while the kernel puts entries into the ring.
use xdpilone.Base.{
  ℕ, ◌+◌, ◌-◌, ◌≤◌, ◌≡◌, sym, ap, ap₂, ◌∙◌, arith, List, ◌++◌, length, append_inj, wrapping_add,
  wrapping_sub, IsU32, IsPow2-le,
}
use xdpilone.Memory.{Memory, Slot}
use xdpilone.Ring.{RingCons, SameRing}
use xdpilone.Ring.Entries.{entries, entries-append, entries-same, length-entries, IsLaidOut}
use xdpilone.Ring.Cons.Inv.{IsCons, IsIdle, Fills, Fills-IsCons, produced, peeked}
use xdpilone.User.Read.{Reader}
use xdpilone.User.Read.Batch.{waiting}
use xdpilone.User.Read.Stream.{Puts, added}

module _ {A : Type 0} (slot : Slot A) where
  -- A ring between two readers.
  pub record IsReady (m : Memory) (q : RingCons) : Type 0 where
    pub idle : IsIdle m q
    pub laid : IsLaidOut slot q.inner

  -- A reader from which `items` have been read, the first ones of those that wait.
  pub record IsOpen (m : Memory) (r : Reader) (items : List A) : Type 0 where
    pub valid : IsCons m r.queue
    pub laid : IsLaidOut slot r.queue.inner
    pub left : r.idx.remain + length items ≡ r.idx.buffers
    pub reserved : peeked m r.queue ≡ r.idx.buffers
    pub base : 1 ≤ r.idx.buffers → r.idx.base ≡ wrapping_add (m r.queue.consumer) (length items)
    pub base_fits : IsU32 r.idx.base
    pub contents : entries slot r.queue.inner m (m r.queue.consumer) (length items) ≡ items

  -- A reader of which nothing is known but what is reserved.
  pub record IsSpent (m : Memory) (r : Reader) : Type 0 where
    pub valid : IsCons m r.queue
    pub laid : IsLaidOut slot r.queue.inner
    pub reserved : peeked m r.queue ≡ r.idx.buffers

  pub IsOpen-IsSpent : {m : Memory} {r : Reader} {items : List A} → IsOpen m r items → IsSpent m r
  IsOpen-IsSpent o = record { valid = o.valid; laid = o.laid; reserved = o.reserved }

  -- What a release leaves.
  pub record Releases (m : Memory) (r : Reader) (items : List A) (m' : Memory) (r' : Reader)
      : Type 0 where
    pub stage : IsSpent m' r'
    pub in_order : waiting slot m r.queue ≡ items ++ waiting slot m' r'.queue

  -- The entries that wait do not depend on the cached heads.
  pub same_queue_waiting :
      (q q' : RingCons) (m : Memory)
      → SameRing q.inner q'.inner
      → waiting slot m q' ≡ waiting slot m q
  same_queue_waiting q q' m same =
      entries-same slot same m (m q'.consumer) (produced m q')
      ∙ ap₂ (entries slot q.inner m) (ap m same.consumer)
          (ap₂ (λ a b. wrapping_sub (m a) (m b)) same.producer same.consumer)

  -- The entries that wait are the first `n` and the rest.
  pub first_and_rest :
      (q : RingCons) (m : Memory) (n : ℕ)
      → IsU32 (m q.consumer)
      → n ≤ produced m q
      → waiting slot m q
        ≡ entries slot q.inner m (m q.consumer) n
          ++ entries slot q.inner m (wrapping_add (m q.consumer) n) (produced m q - n)
  first_and_rest q m n fits le =
      ap (entries slot q.inner m (m q.consumer)) (omega arith)
      ∙ entries-append slot q.inner m (m q.consumer) n (produced m q - n) fits

  module _ {q : RingCons} {m m' : Memory} (v : IsCons m q) (k : Puts slot q m m') where
    pub Puts-Fills : Fills q m m'
    Puts-Fills = record {
      filled = k.count;
      room = k.room;
      moved = k.moved;
      same_consumer = k.consumer;
    }

    now_produced : produced m' q ≡ produced m q + k.count
    now_produced = ground (arith, k.room, k.moved, k.consumer, IsPow2-le v.pow)

    pub waiting-Puts : waiting slot m' q ≡ waiting slot m q ++ added slot q m m' k.count
    waiting-Puts =
        ap₂ (entries slot q.inner m') k.consumer now_produced
        ∙ (entries-append slot q.inner m' (m q.consumer) (produced m q) k.count v.consumer_fits
            ∙ ap₂ ◌++◌ k.kept (
                ap (λ c. entries slot q.inner m' c k.count)
                  (omega (arith, v.producer_fits, v.consumer_fits))))

    -- So do the first of those that wait.
    kept-first :
        (n : ℕ)
        → n ≤ produced m q
        → entries slot q.inner m' (m q.consumer) n ≡ entries slot q.inner m (m q.consumer) n
    kept-first n le =
        (append_inj (entries slot q.inner m' (m q.consumer) n)
          (entries slot q.inner m (m q.consumer) n)
          (length-entries slot q.inner m' (m q.consumer) n
            ∙ sym (length-entries slot q.inner m (m q.consumer) n))
          (sym (
              ap (entries slot q.inner m' (m q.consumer)) {x = produced m q}
                {y = n + (produced m q - n)} (omega arith)
              ∙ entries-append slot q.inner m' (m q.consumer) n (produced m q - n) v.consumer_fits)
            ∙ (k.kept ∙ first_and_rest q m n v.consumer_fits le))).0

  pub Puts-IsReady : {q : RingCons} {m m' : Memory} → Puts slot q m m' → IsReady m q → IsReady m' q
  Puts-IsReady k r = record {
    idle = record {
      valid = Fills-IsCons r.idle.valid (Puts-Fills r.idle.valid k);
      settled = r.idle.settled ∙ sym k.consumer;
    };
    laid = r.laid;
  }

  pub Puts-IsSpent :
      {r : Reader} {m m' : Memory} → Puts slot r.queue m m' → IsSpent m r → IsSpent m' r
  Puts-IsSpent {r} k o = record {
    valid = Fills-IsCons o.valid (Puts-Fills o.valid k);
    laid = o.laid;
    reserved = ap (wrapping_sub r.queue.cached_consumer) k.consumer ∙ o.reserved;
  }

  pub Puts-IsOpen :
      {r : Reader} {items : List A} {m m' : Memory}
      → Puts slot r.queue m m'
      → IsOpen m r items
      → IsOpen m' r items
  Puts-IsOpen {r} {items} {m} {m'} k o = record {
    valid = Fills-IsCons o.valid (Puts-Fills o.valid k);
    laid = o.laid;
    left = o.left;
    reserved = (Puts-IsSpent k (IsOpen-IsSpent o)).reserved;
    base = λ h. o.base h ∙ ap (λ c. wrapping_add c (length items)) (sym k.consumer);
    base_fits = o.base_fits;
    contents =
        ap (λ c. entries slot r.queue.inner m' c (length items)) k.consumer
        ∙ (kept-first o.valid k (length items) (omega (arith, o.left, o.reserved, o.valid.between))
            ∙ o.contents);
  }
