-- ===== src/Ring/Tests.antt =====
-- Tests of the ring operations, and the theorems about them at concrete rings.
use xdpilone.Base.{
  ◌+◌, ◌-◌, ◌^◌, ◌≡◌, refl, arith, ok, panic, ◌>>=◌, true, is_power_of_two, Returns,
  release_profile, debug_profile,
}
use xdpilone.Ring.{SameRing, RingProd, RingCons, new}
use xdpilone.Ring.Prod
use xdpilone.Ring.Cons
use xdpilone.Ring.Prod.Inv as ProdInv
use xdpilone.Ring.Cons.Inv as ConsInv
use xdpilone.Ring.New.{Mapped, new_as_prod-IsIdle, new_as_cons-IsIdle, remap_over_grants}
use xdpilone.Ring.Overflow.{reserve_panics}
use xdpilone.Samples.{
  offsets, map_area, with_heads, memory, memory_later, ring_at, tx, rx, four-IsPow2, tx-IsProd,
  rx-IsCons, rx-Fills,
}

-- Three of four entries are free; the positions wrap.
reserve_wraps :
    Prod.reserve release_profile memory 1 3 0 tx
    ≡ ok (3, 2 ^ 32 - 1, record tx { inner = ring_at 2 2 })
unfolding Prod.reserve Prod.count_free
reserve_wraps = refl

peek_wraps :
    Cons.peek release_profile memory memory_later 1 3 0 rx
    ≡ ok (1, 2 ^ 32 - 2, record rx { inner = ring_at (2 ^ 32 - 1) (2 ^ 32 - 1) })
unfolding Cons.peek Cons.count_available
peek_wraps = refl

reserve_lem_example :
    Returns
      (Prod.reserve release_profile memory 1 8 0 tx)
      λ (n, idx', r'). ProdInv.Reserved memory 1 8 0 tx n idx' r'
reserve_lem_example = ProdInv.reserve_lem tx-IsProd release_profile refl 1 8 0

-- Two entries are reserved behind the one that the kernel has.
abbrev reserved : RingProd
reserved = record tx { inner = ring_at 1 2 }

reserved-IsProd : ProdInv.IsProd memory reserved
reserved-IsProd = record {
  pow = four-IsPow2;
  masked = omega arith;
  heads_apart = omega arith;
  cached_producer_fits = omega arith;
  cached_consumer_fits = omega arith;
  producer_fits = omega arith;
  consumer_fits = omega arith;
  view = omega arith;
  committed = omega arith;
}

cancel-IsProd_example : Returns (Prod.cancel release_profile 1 reserved) λ r'.
    ProdInv.IsProd memory r'
    × (ProdInv.in_flight memory r' + 1 ≡ ProdInv.in_flight memory reserved)
    × SameRing reserved.inner r'.inner
    × (r'.mmap_addr ≡ reserved.mmap_addr)
cancel-IsProd_example = ProdInv.cancel-IsProd reserved-IsProd release_profile refl 1 (omega arith)

submit-IsProd_example :
    ProdInv.IsProd (Prod.submit memory 2 reserved) reserved
    × (ProdInv.given (Prod.submit memory 2 reserved) reserved ≡ ProdInv.given memory reserved + 2)
submit-IsProd_example = ProdInv.submit-IsProd reserved-IsProd 2 (omega arith)

peek_lem_example :
    Returns
      (Cons.peek release_profile memory memory_later 1 8 0 rx)
      λ (n, idx', r'). ConsInv.Peeked memory memory_later 1 8 0 rx n idx' r'
peek_lem_example = ConsInv.peek_lem rx-IsCons rx-Fills release_profile refl 1 8 0

-- Two entries are peeked at.
abbrev in_hand : RingCons
in_hand = record rx { inner = ring_at 1 0 }

in_hand-IsCons : ConsInv.IsCons memory_later in_hand
in_hand-IsCons = record {
  pow = four-IsPow2;
  masked = omega arith;
  heads_apart = omega arith;
  cached_producer_fits = omega arith;
  cached_consumer_fits = omega arith;
  producer_fits = omega arith;
  consumer_fits = omega arith;
  bounded = omega arith;
  between = omega arith;
  view = omega arith;
}

release-IsCons_example :
    ConsInv.IsCons (Cons.release memory_later 1 in_hand) in_hand
    × (ConsInv.peeked (Cons.release memory_later 1 in_hand) in_hand + 1
        ≡ ConsInv.peeked memory_later in_hand)
    × (ConsInv.unread (Cons.release memory_later 1 in_hand) in_hand
        ≡ ConsInv.unread memory_later in_hand)
release-IsCons_example = ConsInv.release-IsCons in_hand-IsCons 1 (omega arith)

four_pow : is_power_of_two 4 ≡ true
unfolding is_power_of_two
four_pow = refl

new_as_prod-IsIdle_example : Returns (new release_profile (with_heads 5 5) 0 offsets 4) λ r.
    ProdInv.IsIdle (with_heads 5 5) (record { inner = r; mmap_addr = map_area })
    × Mapped (with_heads 5 5) 0 offsets 4 r
new_as_prod-IsIdle_example =
    new_as_prod-IsIdle release_profile (with_heads 5 5) 0 offsets 4 four_pow map_area (omega arith)
      (omega arith) refl

new_as_cons-IsIdle_example : Returns (new release_profile (with_heads 7 5) 0 offsets 4) λ r.
    ConsInv.IsIdle (with_heads 7 5) (record { inner = r; mmap_addr = map_area })
    × Mapped (with_heads 7 5) 0 offsets 4 r
new_as_cons-IsIdle_example =
    new_as_cons-IsIdle release_profile (with_heads 7 5) 0 offsets 4 four_pow map_area (omega arith)
      (omega arith) (omega arith) (omega arith)

-- Two of four entries are in the kernel's hands, and all four are granted again.
remap_over_grants_example :
    Returns
      (do
        r ← new release_profile (with_heads 7 5) 0 offsets 4
        Prod.reserve release_profile
            (with_heads 7 5)
            1
            4
            0
            (record { inner = r; mmap_addr = map_area }))
      λ (n, idx, q). (n ≡ 4) × (ProdInv.in_flight (with_heads 7 5) q ≡ 2 + 4)
remap_over_grants_example =
    remap_over_grants release_profile (with_heads 7 5) 0 offsets 4 four_pow map_area 4 refl
      (omega arith) (omega arith) (omega arith) (omega arith) (omega arith) (omega arith)
      (omega arith)

Fills-IsCons_example : ConsInv.IsCons memory_later rx
Fills-IsCons_example = ConsInv.Fills-IsCons rx-IsCons rx-Fills

reserve_panics_example : Prod.reserve debug_profile memory 4 4 0 tx ≡ panic
reserve_panics_example =
    reserve_panics debug_profile memory 4 4 0 tx refl (omega arith) (omega arith)
