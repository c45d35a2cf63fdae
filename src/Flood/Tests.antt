-- ===== src/Flood/Tests.antt =====
-- The loop of examples/flood.rs beside a kernel that works in every other round, and only when woken.
use xdpilone.Base.{
  ℕ, ◌+◌, ◌≡◌, inl, refl, arith, Bool, true, ◌==◌, if◌then◌else◌, some, ok, release_profile,
}
use xdpilone.Memory.{Memory}
use xdpilone.Xdp.{XdpDesc}
use xdpilone.Ring.{XskRing, RingProd, RingCons}
use xdpilone.Flood.{Loop, flood, start_loop}
use xdpilone.Flood.Promise.{IsApart, IsSeparate}
use xdpilone.Flood.Samples.{worker, worker-IsKernel}
use xdpilone.Flood.Round.{IsLoop}
use xdpilone.Flood.Finish.{flood-Returns}
use xdpilone.Samples.{four-IsPow2}

abbrev ring_from : ℕ → ℕ → XskRing
ring_from start head = record {
  cached_producer = head;
  cached_consumer = head;
  mask = 3;
  size = 4;
  producer = start;
  consumer = start + 64;
  ring = start + 128;
  flags = start + 68;
}

-- A producer's cached consumer is the size ahead.
abbrev tx : RingProd
tx = record {
  inner = record (ring_from 0 5) { cached_consumer = 9 };
  mmap_addr = record { start = 0; len = 192 };
}

abbrev cq : RingCons
cq = record { inner = ring_from 1000 7; mmap_addr = record { start = 1000; len = 160 } }

abbrev first_memory : Memory
first_memory a = if a == 0 then 5 else (if a == 64 then 5 else 7)

rings-IsApart : IsApart tx cq
rings-IsApart = record {
  tx_laid = record {
    pow = four-IsPow2;
    masked = omega arith;
    producer_outside = inl (omega arith);
    consumer_outside = inl (omega arith);
  };
  cq_laid = record {
    pow = four-IsPow2;
    masked = omega arith;
    producer_outside = inl (omega arith);
    consumer_outside = inl (omega arith);
  };
  cq_producer_apart = omega arith;
  cq_consumer_apart = omega arith;
  cq_producer_outside = omega arith;
  cq_consumer_outside = omega arith;
  tx_producer_apart = omega arith;
  tx_consumer_apart = omega arith;
}

rings-IsSeparate : IsSeparate tx cq
rings-IsSeparate = record {
  tx_heads = omega arith;
  cq_heads = omega arith;
  tx_consumer_cq_producer = omega arith;
}

abbrev desc : XdpDesc
desc = record { addr = 4096; len = 42; options = 0 }

abbrev first : Loop Bool
first = start_loop true first_memory tx cq

first-IsLoop : IsLoop tx cq 10 first
first-IsLoop = record {
  good = record {
    tx_idle = record {
      valid = record {
        pow = four-IsPow2;
        masked = omega arith;
        heads_apart = omega arith;
        cached_producer_fits = omega arith;
        cached_consumer_fits = omega arith;
        producer_fits = omega arith;
        consumer_fits = omega arith;
        view = omega arith;
        committed = omega arith;
      };
      settled = omega arith;
    };
    cq_idle = record {
      valid = record {
        pow = four-IsPow2;
        masked = omega arith;
        heads_apart = omega arith;
        cached_producer_fits = omega arith;
        cached_consumer_fits = omega arith;
        producer_fits = omega arith;
        consumer_fits = omega arith;
        bounded = omega arith;
        between = omega arith;
        view = omega arith;
      };
      settled = omega arith;
    };
    tx_same = record {
      size = refl;
      mask = refl;
      producer = refl;
      consumer = refl;
      ring = refl;
      flags = refl;
    };
    cq_same = record {
      size = refl;
      mask = refl;
      producer = refl;
      consumer = refl;
      ring = refl;
      flags = refl;
    };
    under_way = omega arith;
  };
  completed_sent = omega arith;
  sent_total = omega arith;
}

-- Ten packets, three at a time.
flood-Returns_example :
    (s' : Loop Bool) × (flood (worker tx cq) release_profile 3 10 desc 42 first ≡ ok (some s'))
    × (s'.sent ≡ 10)
    × (s'.completed ≡ 10)
    × IsLoop tx cq 10 s'
flood-Returns_example =
    flood-Returns rings-IsApart (worker-IsKernel tx cq rings-IsApart rings-IsSeparate)
      release_profile refl 3 10 (omega arith) (omega arith) desc (omega arith) 42 first first-IsLoop
      (omega arith)
