-- ===== src/Samples.antt =====
-- Concrete rings, memories and systems for the tests; the rings have four entries and heads about to
-- wrap.
use xdpilone.Base.{none, ℕ, ◌-◌, List, [], ◌∷◌, ◌^◌, inl, arith, IsPow2, ◌==◌, if◌then◌else◌}
use xdpilone.Memory.{Memory, u64_slot}
use xdpilone.Sys.{pos, Libc}
use xdpilone.Xdp.{XdpDesc, XdpRingOffsets, desc_slot}
use xdpilone.Ring.{XskRing, RingProd, RingCons, Slice}
use xdpilone.Ring.Entries.{IsLaidOut}
use xdpilone.Ring.Prod.Inv as Prod
use xdpilone.Ring.Cons.Inv as Cons

abbrev pub offsets : XdpRingOffsets
offsets = record { producer = 0; consumer = 64; desc = 128; flags = 68 }

abbrev pub map_area : Slice
map_area = record { start = 0; len = 192 }

-- The heads are at 0 and 64, and every other word is 7.
abbrev pub with_heads : ℕ → ℕ → Memory
with_heads producer consumer a = if a == 0 then producer else (if a == 64 then consumer else 7)

-- One entry is in the kernel's hands, at the last but one position before the wrap.
abbrev pub memory : Memory
memory = with_heads (2 ^ 32 - 1) (2 ^ 32 - 2)

abbrev pub ring_at : ℕ → ℕ → XskRing
ring_at cached_producer cached_consumer = record {
  cached_producer = cached_producer;
  cached_consumer = cached_consumer;
  mask = 3;
  size = 4;
  producer = 0;
  consumer = 64;
  ring = 128;
  flags = 68;
}

abbrev pub tx : RingProd
tx = record { inner = ring_at (2 ^ 32 - 1) 2; mmap_addr = map_area }

abbrev pub rx : RingCons
rx = record { inner = ring_at (2 ^ 32 - 1) (2 ^ 32 - 2); mmap_addr = map_area }

-- The kernel has put two more entries into `rx`.
abbrev pub memory_later : Memory
memory_later = with_heads 1 (2 ^ 32 - 2)

abbrev pub four-IsPow2 : IsPow2 4
four-IsPow2 = record { exponent = 2; small = omega arith; value = omega arith }

pub tx-IsProd : Prod.IsProd memory tx
tx-IsProd = record {
  pow = four-IsPow2;
  masked = omega arith;
  heads_apart = omega arith;
  cached_producer_fits = omega arith;
  cached_consumer_fits = omega arith;
  producer_fits = omega arith;
  consumer_fits = omega arith;
  view = omega arith;
  committed = omega arith;
}

pub tx-IsIdle : Prod.IsIdle memory tx
tx-IsIdle = record { valid = tx-IsProd; settled = omega arith }

pub rx-IsCons : Cons.IsCons memory rx
rx-IsCons = record {
  pow = four-IsPow2;
  masked = omega arith;
  heads_apart = omega arith;
  cached_producer_fits = omega arith;
  cached_consumer_fits = omega arith;
  producer_fits = omega arith;
  consumer_fits = omega arith;
  bounded = omega arith;
  between = omega arith;
  view = omega arith;
}

pub rx-IsIdle : Cons.IsIdle memory rx
rx-IsIdle = record { valid = rx-IsCons; settled = omega arith }

pub rx-Fills : Cons.Fills rx memory memory_later
rx-Fills = record {
  filled = 2;
  room = omega arith;
  moved = omega arith;
  same_consumer = omega arith;
}

pub tx-IsLaidOut : IsLaidOut desc_slot tx.inner
tx-IsLaidOut = record {
  pow = four-IsPow2;
  masked = omega arith;
  producer_outside = inl (omega arith);
  consumer_outside = inl (omega arith);
}

pub rx-IsLaidOut : IsLaidOut u64_slot rx.inner
rx-IsLaidOut = record {
  pow = four-IsPow2;
  masked = omega arith;
  producer_outside = inl (omega arith);
  consumer_outside = inl (omega arith);
}

abbrev pub descs : List XdpDesc
descs =
    record { addr = 4096; len = 60; options = 0 }
    ∷ record { addr = 8192; len = 1500; options = 0 }
    ∷ []

-- A system of one interface, `lo` with index 1.
abbrev pub lo : List ℕ
lo = 108 ∷ 111 ∷ 0 ∷ []

abbrev pub libc : Libc (Unit {0})
libc = record {
  einval = 22;
  enoprotoopt = 92;
  af_xdp = 44;
  sock_raw = 3;
  sol_socket = 1;
  ifnamsiz = 16;
  msg_dontwait = 64;
  page_size = λ w. 4096;
  memory = λ w a. 0;
  errno = λ w. pos 19;
  socket = λ domain kind protocol w. (pos 3, w);
  close = λ fd w. w;
  setsockopt = λ fd level name value size w. (pos 0, w);
  getsockopt = λ fd level name buffer size w. (pos 0, buffer, size, w);
  mmap = λ len fd offset w. (none, w);
  munmap = λ a len w. w;
  poll = λ fd events time w. (pos 0, w);
  sendto = λ fd flags w. (pos 0, w);
  bind = λ fd addr size w. (pos 0, w);
  if_nametoindex = λ name w. (1, w);
  if_indextoname = λ index buffer w. (index == 1, lo, w);
}
