-- ===== src/Ring/Prod/Inv.antt =====
-- What holds of a producer ring and the memory behind it between the operations of xsk/ring.rs.
use xdpilone.Base.{
  ℕ, ◌+◌, ◌-◌, ◌≤◌, ◌<◌, ◌≡◌, ◌≢◌, ◌⊎◌, false, arith, Returns, Profile, min, wrapping_add,
  wrapping_sub, IsU32, IsPow2, IsPow2-le,
}
use xdpilone.Memory.{Memory}
use xdpilone.Ring.{BufIdx, RingProd, SameRing}
use xdpilone.Ring.Prod.{count_free, reserve, cancel, submit}

-- The entries that user space has reserved and the kernel has not yet consumed.
abbrev pub in_flight : Memory → RingProd → ℕ
in_flight m r = wrapping_sub r.cached_producer (m r.consumer)

-- The entries that the kernel has been given and has not yet consumed.
abbrev pub given : Memory → RingProd → ℕ
given m r = wrapping_sub (m r.producer) (m r.consumer)

-- `view`: what the cached consumer says is free, is free. `committed`: the kernel has been given no
-- entry that was not reserved.
pub record IsProd (m : Memory) (r : RingProd) : Type 0 where
  pub pow : IsPow2 r.size
  pub masked : r.mask ≡ r.size - 1
  pub heads_apart : r.producer ≢ r.consumer
  pub cached_producer_fits : IsU32 r.cached_producer
  pub cached_consumer_fits : IsU32 r.cached_consumer
  pub producer_fits : IsU32 (m r.producer)
  pub consumer_fits : IsU32 (m r.consumer)
  pub view : wrapping_sub r.cached_consumer r.cached_producer + in_flight m r ≤ r.size
  pub committed : given m r ≤ in_flight m r

-- No reservation is open: user space has handed over all that it reserved.
pub record IsIdle (m : Memory) (q : RingProd) : Type 0 where
  pub valid : IsProd m q
  pub settled : q.cached_producer ≡ m q.producer

-- What `count_free` promises of the count `free` and the ring `r'` that it leaves.
pub record CountedFree (m : Memory) (minimum : ℕ) (r : RingProd) (free : ℕ) (r' : RingProd)
    : Type 0 where
  pub sound : free + in_flight m r ≤ r.size
  pub exact : (minimum ≤ free) ⊎ (free + in_flight m r ≡ r.size)
  pub same : SameRing r.inner r'.inner
  pub same_map : r'.mmap_addr ≡ r.mmap_addr
  pub same_producer : r'.cached_producer ≡ r.cached_producer
  pub known : wrapping_sub r'.cached_consumer r'.cached_producer ≡ free
  pub valid : IsProd m r'

-- Nothing is reserved.
pub record Refused (m : Memory) (start : ℕ) (idx : BufIdx) (r : RingProd) (n : ℕ) (idx' : BufIdx)
    (r' : RingProd) : Type 0 where
  pub too_few : r.size < in_flight m r + start
  pub none_taken : n ≡ 0
  pub same_idx : idx' ≡ idx
  pub same_producer : r'.cached_producer ≡ r.cached_producer

-- The `n` entries from `idx'` on are reserved.
pub record Granted (m : Memory) (start end : ℕ) (r : RingProd) (n : ℕ) (idx' : BufIdx)
    (r' : RingProd) : Type 0 where
  pub enough : in_flight m r + start ≤ r.size
  pub at_least : min start end ≤ n
  pub at_most : n ≤ end
  pub fits : in_flight m r + n ≤ r.size
  pub first : idx' ≡ r.cached_producer
  pub moved : r'.cached_producer ≡ wrapping_add r.cached_producer n

-- What `reserve` promises.
pub record Reserved (m : Memory) (start end : ℕ) (idx : BufIdx) (r : RingProd) (n : ℕ)
    (idx' : BufIdx) (r' : RingProd) : Type 0 where
  pub outcome : Refused m start idx r n idx' r' ⊎ Granted m start end r n idx' r'
  pub same : SameRing r.inner r'.inner
  pub same_map : r'.mmap_addr ≡ r.mmap_addr
  pub valid : IsProd m r'

module _ {m : Memory} {r : RingProd} (v : IsProd m r) where
  module _ (p : Profile) (wraps : p.overflow_checks ≡ false) where
    -- From a valid ring, in a build without overflow checks, `count_free` returns, and does what
    -- `CountedFree` says: it never counts an entry that is in flight, it counts every free one where
    -- the count stays below `minimum`, and it keeps the ring valid.
    pub count_free_lem :
        (minimum : ℕ)
        → Returns (count_free p m minimum r) (λ (free, r'). CountedFree m minimum r free r')
    unfolding count_free
    count_free_lem minimum = ground (arith, IsPow2-le v.pow)

    -- From a valid ring, in a build without overflow checks, `reserve` returns, and does what
    -- `Reserved` says: it takes nothing exactly where fewer than `start` entries are free, otherwise
    -- at least `start` (or `end`) and at most `end` free entries, from the cached head on; the ring
    -- stays valid.
    pub reserve_lem :
        (start end : ℕ) (idx : BufIdx)
        → Returns
            (reserve p m start end idx r)
            λ (n, idx', r'). Reserved m start end idx r n idx' r'
    unfolding reserve count_free
    reserve_lem start end idx = ground (arith, IsPow2-le v.pow)

    -- From a valid ring, in a build without overflow checks, `cancel` of no more than is reserved and
    -- not yet handed over returns, keeps the ring valid, and takes back just so many entries.
    pub cancel-IsProd :
        (nb : ℕ)
        → given m r + nb ≤ in_flight m r
        → Returns (cancel p nb r) λ r'.
          IsProd m r'
          × (in_flight m r' + nb ≡ in_flight m r)
          × SameRing r.inner r'.inner
          × (r'.mmap_addr ≡ r.mmap_addr)
    unfolding cancel
    cancel-IsProd nb h = ground (arith, IsPow2-le v.pow)

  -- From a valid ring, `submit` of no more than is reserved and not yet handed over keeps the ring
  -- valid, and hands over just so many entries.
  pub submit-IsProd :
      (nb : ℕ)
      → given m r + nb ≤ in_flight m r
      → IsProd (submit m nb r) r × (given (submit m nb r) r ≡ given m r + nb)
  unfolding submit
  submit-IsProd nb h = ground (arith, IsPow2-le v.pow)
