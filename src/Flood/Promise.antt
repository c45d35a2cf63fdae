-- ===== src/Flood/Promise.antt =====
-- What the loop of examples/flood.rs relies on: what the kernel may do to the transmit and the
-- completion ring, and that it goes on working.
use xdpilone.Base.{ℕ, ◌+◌, ◌≤◌, ◌<◌, ◌≡◌, ◌≢◌, Bool, wrapping_add, IsU32}
use xdpilone.Memory.{Memory}
use xdpilone.Xdp.{desc_slot}
use xdpilone.Memory.{u64_slot}
use xdpilone.Ring.{RingProd, RingCons, SameRing}
use xdpilone.Ring.Entries.{IsInside, IsLaidOut}
use xdpilone.Ring.Prod.Inv as Prod
use xdpilone.Ring.Cons.Inv as Cons
use xdpilone.Ring.Prod.Inv.{given}
use xdpilone.Ring.Cons.Inv.{produced, Fills}
use xdpilone.Flood.{Kernel, needs_wakeup}

module _ (tx : RingProd) (cq : RingCons) where
  -- The two rings are laid out as `new` does, and apart from one another.
  pub record IsApart : Type 0 where
    pub tx_laid : IsLaidOut desc_slot tx.inner
    pub cq_laid : IsLaidOut u64_slot cq.inner
    pub cq_producer_apart : cq.producer ≢ tx.producer
    pub cq_consumer_apart : cq.consumer ≢ tx.producer
    pub cq_producer_outside : ¬ IsInside desc_slot tx.inner cq.producer
    pub cq_consumer_outside : ¬ IsInside desc_slot tx.inner cq.consumer
    pub tx_producer_apart : tx.producer ≢ cq.consumer
    pub tx_consumer_apart : tx.consumer ≢ cq.consumer

  -- The heads are four words.
  pub record IsSeparate : Type 0 where
    pub tx_heads : tx.producer ≢ tx.consumer
    pub cq_heads : cq.producer ≢ cq.consumer
    pub tx_consumer_cq_producer : tx.consumer ≢ cq.producer

  -- The four heads say that no more than `n` packets are under way: waiting to be sent, or completed
  -- and not yet reaped. The others are with the network card.
  pub record Heads (m : Memory) (n : ℕ) : Type 0 where
    pub tx_producer_fits : IsU32 (m tx.producer)
    pub tx_consumer_fits : IsU32 (m tx.consumer)
    pub cq_producer_fits : IsU32 (m cq.producer)
    pub cq_consumer_fits : IsU32 (m cq.consumer)
    pub tx_room : given m tx ≤ tx.size
    pub cq_room : produced m cq ≤ cq.size
    pub under_way : given m tx + produced m cq ≤ n

  -- The kernel takes entries to be sent, and reports packets as completed, where there is room and
  -- no more than are under way.
  pub record Moves (n : ℕ) (m m' : Memory) : Type 0 where
    pub taken : ℕ
    pub at_most : taken ≤ given m tx
    pub consumer : m' tx.consumer ≡ wrapping_add (m tx.consumer) taken
    pub producer : m' tx.producer ≡ m tx.producer
    pub fills : Fills cq m m'
    pub honest : given m' tx + produced m' cq ≤ n

  -- A kernel that only moves so, and reports a packet of those under way within `bound` rounds, where
  -- it is woken whenever it asks for it: `rank` counts them down.
  pub record IsKernel {E : Type 0} (k : Kernel E) (rank : E → ℕ) (bound : ℕ) : Type 0 where
    pub before : (e : E) (n : ℕ) (m : Memory) → Heads m n → Moves n m (k.before e n m)
    pub after :
        (e : E) (n : ℕ) (wakes : Bool) (m : Memory) → Heads m n → Moves n m (k.after e n wakes m)
    pub between : (e : E) (n : ℕ) (m : Memory) → Heads m n → Moves n m (k.between e n m)
    pub bounded : (e : E) → rank e < bound
    pub live :
        (e : E) (n : ℕ) (m : Memory)
        → Heads m n
        → 0 < n
        → produced (k.after e n (needs_wakeup m tx) m) cq ≡ 0
        → rank (k.next e n (needs_wakeup m tx) m) < rank e

  -- The rings of the loop, which differ from `tx` and `cq` in their cached heads at most, are idle.
  pub record IsGood (m : Memory) (q : RingProd) (c : RingCons) (n : ℕ) : Type 0 where
    pub tx_idle : Prod.IsIdle m q
    pub cq_idle : Cons.IsIdle m c
    pub tx_same : SameRing tx.inner q.inner
    pub cq_same : SameRing cq.inner c.inner
    pub under_way : given m tx + produced m cq ≤ n
