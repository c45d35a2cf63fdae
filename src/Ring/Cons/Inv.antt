-- ===== src/Ring/Cons/Inv.antt =====
-- What holds of a consumer ring and the memory behind it between the operations of xsk/ring.rs,
-- while the kernel goes on filling it.
use xdpilone.Base.{
  ℕ, ◌+◌, ◌-◌, ◌≤◌, ◌<◌, ◌≡◌, ◌≢◌, ◌⊎◌, false, arith, Returns, Profile, min, wrapping_add,
  wrapping_sub, IsU32, IsPow2, IsPow2-le,
}
use xdpilone.Memory.{Memory}
use xdpilone.Ring.{BufIdx, RingCons, SameRing}
use xdpilone.Ring.Cons.{count_available, peek, cancel, release}

-- The entries that the kernel has produced and user space has not released.
abbrev pub produced : Memory → RingCons → ℕ
produced m r = wrapping_sub (m r.producer) (m r.consumer)

-- The entries that user space has peeked at and not yet released.
abbrev pub peeked : Memory → RingCons → ℕ
peeked m r = wrapping_sub r.cached_consumer (m r.consumer)

-- The entries that user space has not yet peeked at.
abbrev pub unread : Memory → RingCons → ℕ
unread m r = wrapping_sub (m r.producer) r.cached_consumer

-- `bounded`: the kernel overwrites no entry that is not released. `between`: user space has peeked
-- at no entry that was not produced. `view`: what the cached producer says is there, is there.
pub record IsCons (m : Memory) (r : RingCons) : Type 0 where
  pub pow : IsPow2 r.size
  pub masked : r.mask ≡ r.size - 1
  pub heads_apart : r.producer ≢ r.consumer
  pub cached_producer_fits : IsU32 r.cached_producer
  pub cached_consumer_fits : IsU32 r.cached_consumer
  pub producer_fits : IsU32 (m r.producer)
  pub consumer_fits : IsU32 (m r.consumer)
  pub bounded : produced m r ≤ r.size
  pub between : peeked m r ≤ produced m r
  pub view : wrapping_sub r.cached_producer r.cached_consumer ≤ unread m r

-- Nothing is peeked at that is not released.
pub record IsIdle (m : Memory) (q : RingCons) : Type 0 where
  pub valid : IsCons m q
  pub settled : q.cached_consumer ≡ m q.consumer

-- The kernel produces `filled` entries, and no more than there is room for.
pub record Fills (r : RingCons) (m m' : Memory) : Type 0 where
  pub filled : ℕ
  pub room : produced m r + filled ≤ r.size
  pub moved : m' r.producer ≡ wrapping_add (m r.producer) filled
  pub same_consumer : m' r.consumer ≡ m r.consumer

-- What `count_available` promises of the count `available` and the ring `r'` that it leaves.
-- `acquired`: the acquire load has covered every entry that is counted.
pub record CountedAvailable (m m' : Memory) (expected : ℕ) (r : RingCons) (available : ℕ)
    (r' : RingCons) : Type 0 where
  pub sound : available ≤ unread m r
  pub exact : (expected ≤ available) ⊎ (available ≡ unread m r)
  pub acquired : available ≤ wrapping_sub r'.cached_producer r'.cached_consumer
  pub same : SameRing r.inner r'.inner
  pub same_map : r'.mmap_addr ≡ r.mmap_addr
  pub same_consumer : r'.cached_consumer ≡ r.cached_consumer
  pub valid : IsCons m' r'

-- Nothing is peeked at.
pub record Refused (m : Memory) (start : ℕ) (idx : BufIdx) (r : RingCons) (n : ℕ) (idx' : BufIdx)
    (r' : RingCons) : Type 0 where
  pub too_few : unread m r < start
  pub none_taken : n ≡ 0
  pub same_idx : idx' ≡ idx
  pub same_consumer : r'.cached_consumer ≡ r.cached_consumer

-- The `n` entries from `idx'` on are peeked at.
pub record Granted (m : Memory) (start end : ℕ) (r : RingCons) (n : ℕ) (idx' : BufIdx)
    (r' : RingCons) : Type 0 where
  pub enough : start ≤ unread m r
  pub at_least : min start end ≤ n
  pub at_most : n ≤ end
  pub present : n ≤ unread m r
  pub first : idx' ≡ r.cached_consumer
  pub moved : r'.cached_consumer ≡ wrapping_add r.cached_consumer n

-- What `peek` promises.
pub record Peeked (m m' : Memory) (start end : ℕ) (idx : BufIdx) (r : RingCons) (n : ℕ)
    (idx' : BufIdx) (r' : RingCons) : Type 0 where
  pub outcome : Refused m start idx r n idx' r' ⊎ Granted m start end r n idx' r'
  pub same : SameRing r.inner r'.inner
  pub same_map : r'.mmap_addr ≡ r.mmap_addr
  pub valid : IsCons m' r'

module _ {m : Memory} {r : RingCons} (v : IsCons m r) where
  -- From a valid ring, a move of the kernel that fills no more than is free keeps the ring valid.
  pub Fills-IsCons : {m' : Memory} → Fills r m m' → IsCons m' r
  Fills-IsCons f = ground (arith, IsPow2-le v.pow)

  module _ {m' : Memory} (f : Fills r m m') where
    -- From a valid ring, while the kernel fills it between the loads, `count_available` does what
    -- `CountedAvailable` says: it counts only entries that were there at the relaxed load and that the
    -- acquire load covers, all of them where the count stays below `expected`; the ring stays valid.
    pub count_available_lem :
        (expected : ℕ)
        → let (available, r') = count_available m m' expected r in
          CountedAvailable m m' expected r available r'
    unfolding count_available
    count_available_lem expected = ground (arith, IsPow2-le v.pow)

    -- From a valid ring, in a build without overflow checks, while the kernel fills it between the
    -- loads, `peek` returns, and does what `Peeked` says: it takes nothing exactly where fewer than
    -- `start` entries are unread, otherwise at least `start` (or `end`) and at most `end` of them, from
    -- the cached head on; the ring stays valid.
    pub peek_lem :
        (p : Profile)
        → p.overflow_checks ≡ false
        → (start end : ℕ) (idx : BufIdx)
        → Returns
            (peek p m m' start end idx r)
            λ (n, idx', r'). Peeked m m' start end idx r n idx' r'
    unfolding peek count_available
    peek_lem p wraps start end idx = ground (arith, IsPow2-le v.pow)

  -- From a valid ring, in a build without overflow checks, `cancel` of no more than was peeked at
  -- returns, keeps the ring valid, and takes back just so many entries.
  pub cancel-IsCons :
      (p : Profile)
      → p.overflow_checks ≡ false
      → (nb : ℕ) → nb ≤ peeked m r
      → Returns (cancel p nb r) λ r'.
        IsCons m r'
        × (peeked m r' + nb ≡ peeked m r)
        × SameRing r.inner r'.inner
        × (r'.mmap_addr ≡ r.mmap_addr)
  unfolding cancel
  cancel-IsCons p wraps nb h = ground (arith, IsPow2-le v.pow)

  -- From a valid ring, `release` of no more than was peeked at keeps the ring valid, gives back just
  -- so many entries, and none that is unread.
  pub release-IsCons :
      (nb : ℕ)
      → nb ≤ peeked m r
      → IsCons (release m nb r) r
        × (peeked (release m nb r) r + nb ≡ peeked m r)
        × (unread (release m nb r) r ≡ unread m r)
  unfolding release
  release-IsCons nb h = ground (arith, IsPow2-le v.pow)
