-- ===== src/Flood/Samples.antt =====
-- A kernel for the tests of examples/flood.rs: it works in every other round, and only when woken.
use xdpilone.Base.{
  ℕ, ◌-◌, ◌<◌, ◌≡◌, inl, inr, refl, arith, Bool, true, false, not, ◌&&◌, ◌||◌, if◌then◌else◌,
  wrapping_add, min, Bool-cases, IsPow2-le, IsPow2-pos,
}
use xdpilone.Memory.{Memory, store32}
use xdpilone.Ring.{RingProd, RingCons}
use xdpilone.Ring.Prod.Inv.{given}
use xdpilone.Ring.Cons.Inv.{produced}
use xdpilone.Flood.{Kernel, needs_wakeup}
use xdpilone.Flood.Promise.{Heads, Moves, IsApart, IsSeparate, IsKernel}

abbrev pub rank : Bool → ℕ
rank e = if e then 1 else 0

module _ (tx : RingProd) (cq : RingCons) where
  -- All entries are taken, and as many packets reported as there are places.
  abbrev pub act : ℕ → Memory → Memory
  act n m =
      store32 (store32 m tx.consumer (m tx.producer)) cq.producer
        (wrapping_add (m cq.consumer) (min n cq.size))

  abbrev pub worker : Kernel Bool
  worker = record {
    before = λ e n m. m;
    after = λ e n wakes m. if e || (needs_wakeup m tx && not wakes) then m else act n m;
    between = λ e n m. m;
    next = λ e n wakes m. not e;
  }

  module _ (a : IsApart tx cq) (s : IsSeparate tx cq) where
    rests : (n : ℕ) (m : Memory) → Heads tx cq m n → Moves tx cq n m m
    rests n m h = record {
      taken = 0;
      at_most = omega arith;
      consumer = omega (arith, h.tx_consumer_fits);
      producer = refl;
      fills = record {
        filled = 0;
        room = omega (arith, h.cq_room);
        moved = omega (arith, h.cq_producer_fits);
        same_consumer = refl;
      };
      honest = h.under_way;
    }

    act-tx_consumer : (n : ℕ) (m : Memory) → act n m tx.consumer ≡ m tx.producer
    act-tx_consumer n m = ground (arith, s.tx_consumer_cq_producer)

    act-tx_producer : (n : ℕ) (m : Memory) → act n m tx.producer ≡ m tx.producer
    act-tx_producer n m = ground (arith, s.tx_heads, a.cq_producer_apart)

    act-cq_consumer : (n : ℕ) (m : Memory) → act n m cq.consumer ≡ m cq.consumer
    act-cq_consumer n m = ground (arith, s.cq_heads, a.tx_consumer_apart)

    act-cq_producer :
        (n : ℕ) (m : Memory) → act n m cq.producer ≡ wrapping_add (m cq.consumer) (min n cq.size)
    act-cq_producer n m = ground arith

    acts : (n : ℕ) (m : Memory) → Heads tx cq m n → Moves tx cq n m (act n m)
    acts n m h = record {
      taken = given m tx;
      at_most = omega arith;
      consumer = omega (arith, act-tx_consumer n m, h.tx_consumer_fits, h.tx_producer_fits);
      producer = act-tx_producer n m;
      fills = record {
        filled = min n cq.size - produced m cq;
        room = omega (arith, h.cq_room);
        moved = omega (
          arith,
          act-cq_producer n m,
          h.cq_room,
          h.under_way,
          h.cq_producer_fits,
          h.cq_consumer_fits,
          IsPow2-le a.cq_laid.pow,
        );
        same_consumer = act-cq_consumer n m;
      };
      honest = omega (
        arith,
        act-tx_consumer n m,
        act-tx_producer n m,
        act-cq_consumer n m,
        act-cq_producer n m,
        h.cq_consumer_fits,
        h.tx_producer_fits,
        IsPow2-le a.cq_laid.pow,
      );
    }

    after-Moves :
        (e : Bool) (n : ℕ) (wakes : Bool) (m : Memory)
        → Heads tx cq m n
        → Moves tx cq n m (worker.after e n wakes m)
    after-Moves e n wakes m h = elim (Bool-cases (e || (needs_wakeup m tx && not wakes))) [
      | inl rest ↦ rw rest (rests n m h)
      | inr work ↦ rw work (acts n m h)
    ]

    acts-fills : (n : ℕ) (m : Memory) → Heads tx cq m n → 0 < n → 0 < produced (act n m) cq
    acts-fills n m h some_left = omega (
      arith,
      act-cq_consumer n m,
      act-cq_producer n m,
      h.cq_consumer_fits,
      IsPow2-le a.cq_laid.pow,
      IsPow2-pos a.cq_laid.pow,
    )

    worker-live :
        (e : Bool) (n : ℕ) (m : Memory)
        → Heads tx cq m n
        → 0 < n
        → produced (worker.after e n (needs_wakeup m tx) m) cq ≡ 0
        → rank (worker.next e n (needs_wakeup m tx) m) < rank e
    worker-live true n m h left none_done = omega arith
    worker-live false n m h left none_done = elim (Bool-cases (needs_wakeup m tx)) [
      | inl on ↦ absurd (ground (arith, on, acts-fills n m h left, none_done))
      | inr off ↦ absurd (ground (arith, off, acts-fills n m h left, none_done))
    ]

    pub worker-IsKernel : IsKernel tx cq worker rank 2
    worker-IsKernel = record {
      before = λ e n m h. rests n m h;
      after = after-Moves;
      between = λ e n m h. rests n m h;
      bounded = λ e. ground arith;
      live = worker-live;
    }
