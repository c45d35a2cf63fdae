-- ===== src/Ring.antt =====
-- xsk/ring.rs and the structs of xsk.rs that it works on: one end of a ring that is shared with the
-- kernel. A pointer is an address; the kernel's heads, the flags and the entries are in `Memory`.
pub mod Entries
pub mod Prod
pub mod Cons
pub mod New
pub mod Map
pub mod Overflow
mod Tests
use xdpilone.Base.{
  ℕ, ◌+◌, ◌*◌, ◌≡◌, ◌∙◌, Outcome, ok, ◌>>=◌, ◌>>◌, Profile, sub_u32, debug_assert, is_power_of_two,
  bit_and,
}
use xdpilone.Memory.{Memory}
use xdpilone.Xdp.{XdpRingOffsets}

-- `struct BufIdx(pub u32)`: a position on the circle of 2 ^ 32, not yet masked.
abbrev pub BufIdx : Type 0
BufIdx = ℕ

-- `NonNull<[u8]>`: an address and a length.
pub record Slice : Type 0 where
  pub start : ℕ
  pub len : ℕ

-- `ptr_len`
abbrev pub ptr_len : Slice → ℕ
ptr_len s = s.len

-- `struct XskRing`
pub record XskRing : Type 0 where
  pub cached_producer : ℕ
  pub cached_consumer : ℕ
  pub mask : ℕ
  pub size : ℕ
  pub producer : ℕ
  pub consumer : ℕ
  pub ring : ℕ
  pub flags : ℕ

-- `r'` is `r` but for the two cached heads.
pub record SameRing (r r' : XskRing) : Type 0 where
  pub size : r'.size ≡ r.size
  pub mask : r'.mask ≡ r.mask
  pub producer : r'.producer ≡ r.producer
  pub consumer : r'.consumer ≡ r.consumer
  pub ring : r'.ring ≡ r.ring
  pub flags : r'.flags ≡ r.flags

pub SameRing-trans : {r s t : XskRing} → SameRing r s → SameRing s t → SameRing r t
SameRing-trans a b = record {
  size = b.size ∙ a.size;
  mask = b.mask ∙ a.mask;
  producer = b.producer ∙ a.producer;
  consumer = b.consumer ∙ a.consumer;
  ring = b.ring ∙ a.ring;
  flags = b.flags ∙ a.flags;
}

-- `struct RingProd`
pub record RingProd : Type 0 where
  pub inner : XskRing
  pub open inner use *
  pub mmap_addr : Slice

-- `struct RingCons`
pub record RingCons : Type 0 where
  pub inner : XskRing
  pub open inner use *
  pub mmap_addr : Slice

-- `XskRing::new`
unfoldable pub new : Profile → Memory → ℕ → XdpRingOffsets → ℕ → Outcome XskRing
new p m tx_map off count = do
  debug_assert p (is_power_of_two count)
  let producer = tx_map + off.producer
  let consumer = tx_map + off.consumer
  mask ← sub_u32 p count 1
  ok (record {
    cached_producer = m producer;
    cached_consumer = m consumer;
    mask = mask;
    size = count;
    producer = producer;
    consumer = consumer;
    ring = tx_map + off.desc;
    flags = tx_map + off.flags;
  })

-- The address of an entry of `bytes` bytes: the pointer arithmetic of `fill_addr`, `tx_desc`,
-- `comp_addr` and `rx_desc`, which mask the index.
abbrev pub entry_addr : ℕ → XskRing → BufIdx → ℕ
entry_addr bytes r idx = r.ring + bytes * bit_and idx r.mask
