-- ===== src/Ring/New.antt =====
-- `XskRing::new` of xsk/ring.rs: what a ring that has just been mapped is worth.
use xdpilone.Base.{
  ℕ, ◌+◌, ◌-◌, ◌^◌, ◌≤◌, ◌<◌, ◌≡◌, ◌≢◌, inl, arith, panic, Returns, Profile, true, false, IsU32,
  IsPow2, IsPow2-pos, IsPow2-le, is_power_of_two, is_power_of_two-IsPow2, refl, ◌∙◌, ◌>>=◌,
  Returns->>=, Returns-map, wrapping_sub,
}
use xdpilone.Memory.{Memory, Slot}
use xdpilone.Xdp.{XdpRingOffsets}
use xdpilone.Ring.{XskRing, RingProd, RingCons, Slice, new}
use xdpilone.Ring.Entries.{IsLaidOut}
use xdpilone.Ring.Prod.{reserve, count_free}
use xdpilone.Ring.Prod.Inv.{given, in_flight}
use xdpilone.Ring.Prod.Inv as Prod
use xdpilone.Ring.Cons.Inv.{produced}
use xdpilone.Ring.Cons.Inv as Cons

-- What `new` makes of the offsets, whatever the profile.
pub record Mapped (m : Memory) (map : ℕ) (off : XdpRingOffsets) (count : ℕ) (r : XskRing)
    : Type 0 where
  pub pow : IsPow2 r.size
  pub mask : r.mask ≡ r.size - 1
  pub size : r.size ≡ count
  pub producer : r.producer ≡ map + off.producer
  pub consumer : r.consumer ≡ map + off.consumer
  pub ring : r.ring ≡ map + off.desc
  pub flags : r.flags ≡ map + off.flags
  pub cached_producer : r.cached_producer ≡ m r.producer
  pub cached_consumer : r.cached_consumer ≡ m r.consumer

-- For a count that is a power of two, `new` returns, in every profile, a ring as `Mapped` says: the
-- pointers are at the given offsets, the mask fits the size, and the cached heads are the shared ones.
pub new-Mapped :
    (p : Profile) (m : Memory) (map : ℕ) (off : XdpRingOffsets) (count : ℕ)
    → is_power_of_two count ≡ true
    → Returns (new p m map off count) (Mapped m map off count)
unfolding new
new-Mapped p m map off count e =
    ground (arith, is_power_of_two-IsPow2 count e, IsPow2-pos (is_power_of_two-IsPow2 count e))

-- With debug assertions, `new` panics for a count that is no power of two.
pub new_panics :
    (p : Profile) (m : Memory) (map : ℕ) (off : XdpRingOffsets) (count : ℕ)
    → p.debug_assertions ≡ true
    → is_power_of_two count ≡ false
    → new p m map off count ≡ panic
unfolding new
new_panics p m map off count d e = ground arith

-- The kernel puts both heads below the entries.
pub record IsOrdered (off : XdpRingOffsets) : Type 0 where
  pub producer_below : off.producer < off.desc
  pub consumer_below : off.consumer < off.desc
  pub heads_apart : off.producer ≢ off.consumer

module _ {m : Memory} {map count : ℕ} {off : XdpRingOffsets} (ordered : IsOrdered off) where
  pub Mapped-IsLaidOut :
      {A : Type 0} (slot : Slot A) (r : XskRing) → Mapped m map off count r → IsLaidOut slot r
  Mapped-IsLaidOut slot r n = record {
    pow = n.pow;
    masked = n.mask;
    producer_outside = inl (omega (arith, n.producer, n.ring, ordered.producer_below));
    consumer_outside = inl (omega (arith, n.consumer, n.ring, ordered.consumer_below));
  }

  Mapped-heads_apart : (r : XskRing) → Mapped m map off count r → r.producer ≢ r.consumer
  Mapped-heads_apart r n e = ordered.heads_apart (omega (arith, n.producer, n.consumer))

  pub Mapped-prod-IsIdle :
      (q : RingProd)
      → Mapped m map off count q.inner
      → IsU32 (m q.producer)
      → m q.consumer ≡ m q.producer
      → Prod.IsIdle m q
  Mapped-prod-IsIdle q n fits equal = ground (arith, IsPow2-le n.pow, Mapped-heads_apart q.inner n)

  pub Mapped-cons-IsIdle :
      (q : RingCons)
      → Mapped m map off count q.inner
      → IsU32 (m q.producer)
      → IsU32 (m q.consumer)
      → produced m q ≤ count
      → Cons.IsIdle m q
  Mapped-cons-IsIdle q n p_fits c_fits bounded =
      ground (arith, IsPow2-le n.pow, Mapped-heads_apart q.inner n)

module _ (p : Profile) (m : Memory) (map : ℕ) (off : XdpRingOffsets) (count : ℕ)
    (pow : is_power_of_two count ≡ true) (s : Slice) where
  -- For a count that is a power of two, and offsets that put both heads below the entries and
  -- apart from one another, in every profile: where both heads hold the same u32, `new` returns,
  -- with the pointers at the offsets and the mask one below the size, and as a producer ring this
  -- is valid and idle.
  pub new_as_prod-IsIdle :
      IsOrdered off
      → IsU32 (m (map + off.producer))
      → m (map + off.consumer) ≡ m (map + off.producer)
      → Returns
          (new p m map off count)
          λ r. Prod.IsIdle m (record { inner = r; mmap_addr = s }) × Mapped m map off count r
  new_as_prod-IsIdle ordered fits equal =
      Returns-map (Mapped m map off count) _ (new p m map off count)
        (new-Mapped p m map off count pow)
        λ r n. (
          Mapped-prod-IsIdle ordered (record { inner = r; mmap_addr = s }) n (rw n.producer fits)
              (rw (n.producer, n.consumer) equal),
          n,
        )

  -- For a count that is a power of two, and offsets that put both heads below the entries and
  -- apart from one another, in every profile: where the heads hold u32s that are no more than the
  -- count apart, whatever the kernel has put between them, `new` returns, with the pointers at the
  -- offsets and the mask one below the size, and as a consumer ring this is valid and idle.
  pub new_as_cons-IsIdle :
      IsOrdered off
      → IsU32 (m (map + off.producer))
      → IsU32 (m (map + off.consumer))
      → wrapping_sub (m (map + off.producer)) (m (map + off.consumer)) ≤ count
      → Returns
          (new p m map off count)
          λ r. Cons.IsIdle m (record { inner = r; mmap_addr = s }) × Mapped m map off count r
  new_as_cons-IsIdle ordered p_fits c_fits bounded =
      Returns-map (Mapped m map off count) _ (new p m map off count)
        (new-Mapped p m map off count pow)
        λ r n. (
          Mapped-cons-IsIdle ordered (record { inner = r; mmap_addr = s }) n (rw n.producer p_fits)
              (rw n.consumer c_fits) (rw (n.producer, n.consumer) bounded),
          n,
        )

Mapped-over_grants :
    {m : Memory} {map count : ℕ} {off : XdpRingOffsets} (p : Profile) (q : RingProd) (max : ℕ)
    → p.overflow_checks ≡ false
    → Mapped m map off count q.inner
    → IsU32 (m q.producer)
    → IsU32 (m q.consumer)
    → 1 ≤ given m q
    → given m q ≤ q.size
    → 1 ≤ max
    → max ≤ q.size
    → given m q + max < 2 ^ 32
    → Returns (reserve p m 1 max 0 q) λ (n, idx, q'). (n ≡ max) × (in_flight m q' ≡ given m q + max)
unfolding reserve count_free
Mapped-over_grants p q max wraps n p_fits c_fits some_given fits one_up le small =
    ground (arith, IsPow2-le n.pow)

module _ (p : Profile) (m : Memory) (map : ℕ) (off : XdpRingOffsets) (count : ℕ)
    (pow : is_power_of_two count ≡ true) (s : Slice) where
  -- The entries that the kernel holds, by the heads at the given offsets
  abbrev pub held : ℕ
  held = wrapping_sub (m (map + off.producer)) (m (map + off.consumer))

  -- For a count that is a power of two, in a build without overflow checks, where by the u32 heads
  -- at the given offsets the kernel holds entries of a producer ring, one up to the count: `new`
  -- and the first reservation of at most `max` entries (one up to the count, and below 2 ^ 32 with
  -- those held) return; it takes `max` entries, free or not, and in flight are then the entries
  -- held and `max` more.
  pub remap_over_grants :
      (max : ℕ)
      → p.overflow_checks ≡ false
      → IsU32 (m (map + off.producer))
      → IsU32 (m (map + off.consumer))
      → 1 ≤ held
      → held ≤ count
      → 1 ≤ max
      → max ≤ count
      → held + max < 2 ^ 32
      → Returns
          (do r ← new p m map off count; reserve p m 1 max 0 (record { inner = r; mmap_addr = s }))
          (λ (n, idx, q). (n ≡ max) × (in_flight m q ≡ held + max))
  remap_over_grants max wraps p_fits c_fits some_held fits one_up le small =
      Returns->>= (Mapped m map off count) (λ (n, idx, q). (n ≡ max) × (in_flight m q ≡ held + max))
        (new p m map off count) _ (new-Mapped p m map off count pow)
        λ r n.
          let q : RingProd = record { inner = r; mmap_addr = s } in
          Returns-map (λ (k, idx, q'). (k ≡ max) × (in_flight m q' ≡ given m q + max))
            (λ (k, idx, q'). (k ≡ max) × (in_flight m q' ≡ held + max)) (reserve p m 1 max 0 q)
            (Mapped-over_grants p q max wraps n (rw n.producer p_fits) (rw n.consumer c_fits)
              (rw (n.producer, n.consumer) some_held) (rw (n.producer, n.consumer, n.size) fits)
              one_up (omega (arith, n.size)) (rw (n.producer, n.consumer) small))
            λ (k, idx, q') (e, e'). (e, e' ∙ rw (n.producer, n.consumer) refl)
