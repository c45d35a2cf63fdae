-- ===== src/Memory.antt =====
-- The memory that a ring shares with the kernel, as the 32-bit words at 4-aligned byte addresses:
-- what `AtomicU32::load` and `store`, and reads and writes through the pointers of xsk/ring.rs
-- touch. A `u64` is two words, the low one first.
use xdpilone.Base.{
  ℕ, ◌+◌, ◌*◌, ◌/◌, ◌%◌, ◌^◌, ◌≤◌, ◌<◌, ◌≡◌, ◌⊎◌, inl, inr, ◌==◌, if◌then◌else◌, arith, IsU64,
}

abbrev pub Memory : Type 0
Memory = ℕ → ℕ

-- An atomic store of a `u32`, and a plain write of one.
abbrev pub store32 : Memory → ℕ → ℕ → Memory
store32 m a v b = if a == b then v else m b

unfoldable pub load64 : Memory → ℕ → ℕ
load64 m a = m a + 2 ^ 32 * m (a + 4)

unfoldable pub store64 : Memory → ℕ → ℕ → Memory
store64 m a v = store32 (store32 m a (v % 2 ^ 32)) (a + 4) (v / 2 ^ 32)

-- What the rings need of the type of their entries: its size in bytes, its representation in
-- memory, and which values are represented.
pub record Slot (A : Type 0) : Type 1 where
  pub bytes : ℕ
  pub load : Memory → ℕ → A
  pub store : Memory → ℕ → A → Memory
  pub IsValue : A → Type 0
  pub load-store : (m : Memory) (a : ℕ) (v : A) → IsValue v → load (store m a v) a ≡ v
  pub store-apart :
      (m : Memory) (a : ℕ) (v : A) (b : ℕ) → (b < a) ⊎ (a + bytes ≤ b) → store m a v b ≡ m b
  pub load_ext :
      (m m' : Memory) (a : ℕ)
      → ((b : ℕ) → a ≤ b → b < a + bytes → m b ≡ m' b)
      → load m a ≡ load m' a

-- A read of an entry is not changed by a write of another that does not overlap it.
pub load-store_apart :
    {A : Type 0} (slot : Slot A) (m : Memory) (a : ℕ) (v : A) (b : ℕ)
    → (b + slot.bytes ≤ a) ⊎ (a + slot.bytes ≤ b)
    → slot.load (slot.store m a v) b ≡ slot.load m b
load-store_apart slot m a v b apart =
    slot.load_ext (slot.store m a v) m b λ c lo hi. slot.store-apart m a v c (beyond apart c lo hi)
  where
    beyond :
        (b + slot.bytes ≤ a) ⊎ (a + slot.bytes ≤ b)
        → (c : ℕ) → b ≤ c
        → c < b + slot.bytes
        → (c < a) ⊎ (a + slot.bytes ≤ c)
    beyond (inl h) c lo hi = inl (omega arith)
    beyond (inr h) c lo hi = inr (omega arith)

pub load64-store64 : (m : Memory) (a v : ℕ) → IsU64 v → load64 (store64 m a v) a ≡ v
unfolding load64 store64
load64-store64 m a v h = ground arith

pub store64-apart : (m : Memory) (a v b : ℕ) → (b < a) ⊎ (a + 8 ≤ b) → store64 m a v b ≡ m b
unfolding store64
store64-apart m a v b h = ground arith

pub load64_ext :
    (m m' : Memory) (a : ℕ) → ((b : ℕ) → a ≤ b → b < a + 8 → m b ≡ m' b) → load64 m a ≡ load64 m' a
unfolding load64
load64_ext m m' a h =
    omega (arith, h a (omega arith) (omega arith), h (a + 4) (omega arith) (omega arith))

-- The entries of fill and completion rings: `u64` offsets into the Umem.
abbrev pub u64_slot : Slot ℕ
u64_slot = record {
  bytes = 8;
  load = load64;
  store = store64;
  IsValue = IsU64;
  load-store = load64-store64;
  store-apart = store64-apart;
  load_ext = load64_ext;
}
