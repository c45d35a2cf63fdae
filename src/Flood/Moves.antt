-- ===== src/Flood/Moves.antt =====
-- The kernel's moves and the batches of the loop of examples/flood.rs keep the two rings good.
use xdpilone.Base.{
  ℕ, ◌+◌, ◌-◌, ◌≤◌, ◌≡◌, ◌≢◌, inl, inr, sym, ap, ap₂, ◌∙◌, arith, List, take, length, length-append,
  length-take, wrapping_add, wrapping_sub, IsPow2-le,
}
use xdpilone.Memory.{Memory, u64_slot}
use xdpilone.Xdp.{XdpDesc, desc_slot}
use xdpilone.Ring.{RingProd, RingCons, SameRing-trans}
use xdpilone.Ring.Entries.{IsInside, length-entries, IsOneOf-IsInside, IsLaidOut-same}
use xdpilone.Ring.Prod.Inv as Prod
use xdpilone.Ring.Cons.Inv as Cons
use xdpilone.Ring.Prod.Inv.{given}
use xdpilone.Ring.Cons.Inv.{produced, Fills, Fills-IsCons}
use xdpilone.User.Write.Send.{Sent}
use xdpilone.User.Write.Batch.{pending}
use xdpilone.User.Read.Receive.{Received}
use xdpilone.User.Read.Batch.{waiting}
use xdpilone.Flood.Promise.{IsApart, Heads, Moves, IsGood}

-- Whether a ring is idle depends on its two heads only.
Prod-IsIdle_same :
    {m m' : Memory} {q : RingProd}
    → Prod.IsIdle m q
    → m' q.producer ≡ m q.producer
    → m' q.consumer ≡ m q.consumer
    → Prod.IsIdle m' q
Prod-IsIdle_same i e f = ground (arith, i)

Cons-IsIdle_same :
    {m m' : Memory} {c : RingCons}
    → Cons.IsIdle m c
    → m' c.producer ≡ m c.producer
    → m' c.consumer ≡ m c.consumer
    → Cons.IsIdle m' c
Cons-IsIdle_same i e f = ground (arith, i)

module _ {tx : RingProd} {cq : RingCons} (a : IsApart tx cq) where
  module _ {m : Memory} {q : RingProd} {c : RingCons} {n : ℕ} (g : IsGood tx cq m q c n) where
    pub IsGood-given : given m q ≡ given m tx
    IsGood-given = ap₂ (λ x y. wrapping_sub (m x) (m y)) g.tx_same.producer g.tx_same.consumer

    pub IsGood-produced : produced m c ≡ produced m cq
    IsGood-produced = ap₂ (λ x y. wrapping_sub (m x) (m y)) g.cq_same.producer g.cq_same.consumer

    pub IsGood-Heads : Heads tx cq m n
    IsGood-Heads =
        ground
          (arith, IsGood-given, IsGood-produced, g.tx_idle.valid.view, g.tx_idle.valid.committed)

    pub IsGood-Fills : {m' : Memory} → Fills cq m m' → Fills c m m'
    IsGood-Fills f = record {
      filled = f.filled;
      room = ground (arith, f.room, IsGood-produced, g.cq_same.size);
      moved = ground (arith, f.moved, g.cq_same.producer);
      same_consumer = ground (arith, f.same_consumer, g.cq_same.consumer);
    }

    Moves-IsIdle : {m' : Memory} → Moves tx cq n m m' → Prod.IsIdle m' q
    Moves-IsIdle {m'} k =
        ground (arith, consumer, producer, taken, g.tx_idle, IsPow2-le g.tx_idle.valid.pow)
      where
        consumer : m' q.consumer ≡ wrapping_add (m q.consumer) k.taken
        consumer = ground (arith, k.consumer, g.tx_same.consumer)

        producer : m' q.producer ≡ m q.producer
        producer = ground (arith, k.producer, g.tx_same.producer)

        taken : k.taken ≤ given m q
        taken = omega (arith, k.at_most, IsGood-given)

    pub Moves-IsGood : {m' : Memory} → Moves tx cq n m m' → IsGood tx cq m' q c n
    Moves-IsGood {m'} k = record {
      tx_idle = Moves-IsIdle k;
      cq_idle = record {
        valid = Fills-IsCons g.cq_idle.valid (IsGood-Fills k.fills);
        settled = g.cq_idle.settled ∙ sym (IsGood-Fills k.fills).same_consumer;
      };
      tx_same = g.tx_same;
      cq_same = g.cq_same;
      under_way = k.honest;
    }

    -- What a batch leaves that has sent `sent` packets.
    module _ (limit sent : ℕ) (bufs : List XdpDesc) (m' : Memory) (q' : RingProd)
        (s : Sent desc_slot m q limit bufs sent m' q') where
      head_stays : (h : ℕ) → h ≢ tx.producer → ¬ IsInside desc_slot tx.inner h → m' h ≡ m h
      head_stays h apart outside = elim (s.frame h) [
        | inl e ↦ absurd (apart (e ∙ g.tx_same.producer))
        | inr (inl written) ↦ absurd (
            outside (
              rw (← g.tx_same.ring, ← g.tx_same.size)
                (IsOneOf-IsInside desc_slot q.inner (IsLaidOut-same desc_slot g.tx_same a.tx_laid)
                  (m q.producer) sent h written)))
        | inr (inr same) ↦ same
      ]

      cq_producer : m' cq.producer ≡ m cq.producer
      cq_producer = head_stays cq.producer a.cq_producer_apart a.cq_producer_outside

      cq_consumer : m' cq.consumer ≡ m cq.consumer
      cq_consumer = head_stays cq.consumer a.cq_consumer_apart a.cq_consumer_outside

      pub sent_given : given m' tx ≡ given m tx + sent
      sent_given = omega (
        arith,
        ap length s.queued,
        length-append (pending desc_slot m q) (take sent bufs),
        length-take sent bufs,
        s.at_most,
        length-entries desc_slot q'.inner m' (m' q'.consumer) (given m' q'),
        length-entries desc_slot q.inner m (m q.consumer) (given m q),
        IsGood-given,
        again,
      )
        where
          again : given m' q' ≡ given m' tx
          again =
              ap₂ (λ x y. wrapping_sub (m' x) (m' y)) (s.same.producer ∙ g.tx_same.producer)
                (s.same.consumer ∙ g.tx_same.consumer)

      pub Sent-IsGood : IsGood tx cq m' q' c (n + sent)
      Sent-IsGood = record {
        tx_idle = s.idle;
        cq_idle =
            Cons-IsIdle_same g.cq_idle (rw g.cq_same.producer cq_producer)
              (rw g.cq_same.consumer cq_consumer);
        tx_same = SameRing-trans g.tx_same s.same;
        cq_same = g.cq_same;
        under_way =
            omega (arith, sent_given, g.under_way, ap₂ wrapping_sub cq_producer cq_consumer);
      }

  -- What a batch of reads leaves that has reaped the packets `items`; the kernel has moved from `m` to
  -- `m'` while they were counted.
  module _ {m m' m'' : Memory} {q : RingProd} {c c' : RingCons} {n limit k : ℕ} {items : List ℕ}
      (g : IsGood tx cq m' q c n) (r : Received u64_slot m m' c limit k items m'' c') where
    word_stays : (h : ℕ) → h ≢ cq.consumer → m'' h ≡ m' h
    word_stays h apart = elim (r.frame h) [
      | inl e ↦ absurd (apart (e ∙ g.cq_same.consumer))
      | inr same ↦ same
    ]

    tx_producer : m'' tx.producer ≡ m' tx.producer
    tx_producer = word_stays tx.producer a.tx_producer_apart

    tx_consumer : m'' tx.consumer ≡ m' tx.consumer
    tx_consumer = word_stays tx.consumer a.tx_consumer_apart

    reaped : length items + produced m'' cq ≡ produced m' cq
    reaped = omega (
      arith,
      ap length r.in_order,
      length-append items (waiting u64_slot m'' c'),
      length-entries u64_slot c'.inner m'' (m'' c'.consumer) (produced m'' c'),
      length-entries u64_slot c.inner m' (m' c.consumer) (produced m' c),
      IsGood-produced g,
      again,
    )
      where
        again : produced m'' c' ≡ produced m'' cq
        again =
            ap₂ (λ x y. wrapping_sub (m'' x) (m'' y)) (r.same.producer ∙ g.cq_same.producer)
              (r.same.consumer ∙ g.cq_same.consumer)

    pub Received-IsGood : IsGood tx cq m'' q c' (n - length items)
    Received-IsGood = record {
      tx_idle =
          Prod-IsIdle_same g.tx_idle (rw g.tx_same.producer tx_producer)
            (rw g.tx_same.consumer tx_consumer);
      cq_idle = r.idle;
      tx_same = g.tx_same;
      cq_same = SameRing-trans g.cq_same r.same;
      under_way = omega (arith, reaped, g.under_way, ap₂ wrapping_sub tx_producer tx_consumer);
    }
