-- ===== src/Xdp.antt =====
-- xdp.rs: the structs of the kernel interface that the rings use. Sizes and offsets are those of
-- `#[repr(C)]`.
use xdpilone.Base.{ℕ, ◌+◌, ◌≤◌, ◌<◌, ◌≡◌, ◌⊎◌, arith, IsU32, IsU64}
use xdpilone.Memory.{Memory, Slot, store32, load64, store64}

-- `struct XdpDesc`
pub record XdpDesc : Type 0 where
  pub addr : ℕ
  pub len : ℕ
  pub options : ℕ

-- The fields fit their types.
pub record IsDesc (d : XdpDesc) : Type 0 where
  pub addr_fits : IsU64 d.addr
  pub len_fits : IsU32 d.len
  pub options_fits : IsU32 d.options

-- `struct XdpRingOffsets`
pub record XdpRingOffsets : Type 0 where
  pub producer : ℕ
  pub consumer : ℕ
  pub desc : ℕ
  pub flags : ℕ

pub load_desc : Memory → ℕ → XdpDesc
load_desc m a = record { addr = load64 m a; len = m (a + 8); options = m (a + 12) }

pub store_desc : Memory → ℕ → XdpDesc → Memory
store_desc m a d = store32 (store32 (store64 m a d.addr) (a + 8) d.len) (a + 12) d.options

pub load_desc-store_desc :
    (m : Memory) (a : ℕ) (d : XdpDesc) → IsDesc d → load_desc (store_desc m a d) a ≡ d
unfolding load_desc store_desc load64 store64
load_desc-store_desc m a d h = ground arith

pub store_desc-apart :
    (m : Memory) (a : ℕ) (d : XdpDesc) (b : ℕ) → (b < a) ⊎ (a + 16 ≤ b) → store_desc m a d b ≡ m b
unfolding store_desc store64
store_desc-apart m a d b h = ground arith

pub load_desc_ext :
    (m m' : Memory) (a : ℕ)
    → ((b : ℕ) → a ≤ b → b < a + 16 → m b ≡ m' b)
    → load_desc m a ≡ load_desc m' a
unfolding load_desc load64
load_desc_ext m m' a h = ground (
  arith,
  h a (omega arith) (omega arith),
  h (a + 4) (omega arith) (omega arith),
  h (a + 8) (omega arith) (omega arith),
  h (a + 12) (omega arith) (omega arith),
)

-- The entries of receive and transmit rings.
abbrev pub desc_slot : Slot XdpDesc
desc_slot = record {
  bytes = 16;
  load = load_desc;
  store = store_desc;
  IsValue = IsDesc;
  load-store = load_desc-store_desc;
  store-apart = store_desc-apart;
  load_ext = load_desc_ext;
}
