-- ===== src/Flood/Connect/Rings.antt =====
-- The rings that `main` of examples/flood.rs has opened, as its loop asks for them.
use xdpilone.Base.{ℕ, refl, arith}
use xdpilone.Memory.{u64_slot}
use xdpilone.Xdp.{desc_slot}
use xdpilone.Sys.{Libc}
use xdpilone.Sys.Works.{Works}
use xdpilone.Ring.New.{Mapped-IsLaidOut, Mapped-prod-IsIdle, Mapped-cons-IsIdle}
use xdpilone.Umem.Devices.{DeviceQueue}
use xdpilone.Umem.Bind.{RingTx}
use xdpilone.Flood.{start_loop}
use xdpilone.Flood.Promise.{IsSeparate, IsApart}
use xdpilone.Flood.Round.{IsLoop}
use xdpilone.Flood.Connect.Opened.{Opened}

module _ {W : Type 0} {libc : Libc W} (v : Works libc) where
  -- The two rings of the loop lie apart.
  pub Opened-IsApart :
      (count : ℕ) (device : DeviceQueue) (tx : RingTx) (w : W)
      → Opened v count device tx w
      → IsApart tx.ring device.fcq.cons
  Opened-IsApart count device tx w o =
      let n = o.tx_empty.mapped in
      let order = o.tx_empty.ordered in
      record {
        tx_laid = Mapped-IsLaidOut order desc_slot tx.ring.inner n;
        cq_laid =
            Mapped-IsLaidOut o.device_ready.cons.ordered u64_slot device.fcq.cons.inner
              o.device_ready.cons.mapped;
        cq_producer_apart =
            λ e. omega (arith, e, o.producer_apart, n.producer, order.producer_below);
        cq_consumer_apart =
            λ e. omega (arith, e, o.consumer_apart, n.producer, order.producer_below);
        cq_producer_outside = λ i. omega (arith, i, o.producer_apart, n.ring, n.size);
        cq_consumer_outside = λ i. omega (arith, i, o.consumer_apart, n.ring, n.size);
        tx_producer_apart =
            λ e. omega (arith, e, o.consumer_apart, n.producer, order.producer_below);
        tx_consumer_apart =
            λ e. omega (arith, e, o.consumer_apart, n.consumer, order.consumer_below);
      }

  pub Opened-IsSeparate :
      (count : ℕ) (device : DeviceQueue) (tx : RingTx) (w : W)
      → Opened v count device tx w
      → IsSeparate tx.ring device.fcq.cons
  Opened-IsSeparate count device tx w o =
      let t = o.tx_empty in
      let c = o.device_ready.cons in
      record {
        tx_heads =
            λ e. t.ordered.heads_apart (omega (arith, e, t.mapped.producer, t.mapped.consumer));
        cq_heads =
            λ e. c.ordered.heads_apart (omega (arith, e, c.mapped.producer, c.mapped.consumer));
        tx_consumer_cq_producer =
            λ e. omega (arith, e, o.producer_apart, t.mapped.consumer, t.ordered.consumer_below);
      }

  -- The loop begins with empty rings.
  pub Opened-IsLoop :
      {E : Type 0} (e : E) (total : ℕ) (count : ℕ) (device : DeviceQueue) (tx : RingTx) (w : W)
      → Opened v count device tx w
      → IsLoop tx.ring device.fcq.cons total (start_loop e (libc.memory w) tx.ring device.fcq.cons)
  Opened-IsLoop e total count device tx w o =
      let t = o.tx_empty.fresh in
      let c = o.device_ready.cons.fresh in
      record {
        good = record {
          tx_idle =
              Mapped-prod-IsIdle o.tx_empty.ordered tx.ring o.tx_empty.mapped
                (omega (arith, t.producer_zero)) (omega (arith, t.producer_zero, t.consumer_zero));
          cq_idle =
              Mapped-cons-IsIdle o.device_ready.cons.ordered device.fcq.cons
                o.device_ready.cons.mapped (omega (arith, c.producer_zero))
                (omega (arith, c.consumer_zero)) (omega (arith, c.producer_zero, c.consumer_zero));
          tx_same = record {
            size = refl;
            mask = refl;
            producer = refl;
            consumer = refl;
            ring = refl;
            flags = refl;
          };
          cq_same = record {
            size = refl;
            mask = refl;
            producer = refl;
            consumer = refl;
            ring = refl;
            flags = refl;
          };
          under_way =
              omega (arith, t.producer_zero, t.consumer_zero, c.producer_zero, c.consumer_zero);
        };
        completed_sent = omega arith;
        sent_total = omega arith;
      }
