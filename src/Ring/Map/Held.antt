-- ===== src/Ring/Map/Held.antt =====
-- The mappings behind the rings: a ring that is mapped adds one, a failed call none, and the drop of
-- a ring gives its own back.
use xdpilone.Base.{
  ℕ, ◌*◌, ◌<◌, ◌≡◌, refl, subst, false, Profile, Returns, arith, not, ◌==◌, assert, Option, none,
  some,
}
use xdpilone.Memory.{Memory}
use xdpilone.Xdp.{XdpRingOffsets}
use xdpilone.Sys.{Libc, add_u64, Ends, Ends-and_then, compute-Ends}
use xdpilone.Sys.Mappings.{Mappings, SameHeld, Adds}
use xdpilone.Iface.{SocketMmapOffsets}
use xdpilone.Ring.{Slice, new}
use xdpilone.Ring.Map.{
  mapped_at, map_ring, fill, comp, xdp_umem_pgoff_fill_ring, xdp_umem_pgoff_completion_ring,
}

new-Returns :
    (p : Profile) (m : Memory) (a : ℕ) (off : XdpRingOffsets) (count : ℕ)
    → p.overflow_checks ≡ false
    → p.debug_assertions ≡ false
    → Returns (new p m a off count) (λ _. Unit {0})
unfolding new
new-Returns p m a off count hc hd = ground arith

pub add_u64-Returns :
    (p : Profile) (a b : ℕ) → p.overflow_checks ≡ false → Returns (add_u64 p a b) (λ _. Unit {0})
add_u64-Returns p a b hc = ground arith

assert-Returns : (a : ℕ) → 0 < a → Returns (assert (not (a == 0))) (λ _. Unit {0})
assert-Returns a h = ground arith

module _ {W : Type 0} {libc : Libc W} (v : Mappings libc) (p : Profile)
    (hc : p.overflow_checks ≡ false) (hd : p.debug_assertions ≡ false) where
  mapped_at-Ends :
      (len fd offset : ℕ) (w : W) (o : Option ℕ × W)
      → libc.mmap len fd offset w ≡ o
      → Ends
          (mapped_at libc p o)
          (λ a w'. (0 < a) × Adds v w (record { start = a; len = len }) w')
          (λ _ w'. SameHeld v w w')
  mapped_at-Ends len fd offset w (none, w') h = v.mmap_none len fd offset w w' h
  mapped_at-Ends len fd offset w (some a, w') h = v.mmap_some len fd offset w w' a h

  pub map_ring-Ends :
      (fd : ℕ) (off : XdpRingOffsets) (count sz offset : ℕ) (w : W)
      → Ends
          (map_ring libc p fd off count sz offset w)
          (λ r w'. Adds v w r.1 w')
          (λ _ w'. SameHeld v w w')
  unfolding map_ring
  map_ring-Ends fd off count sz offset w =
      Ends-and_then (λ _ w1. w1 ≡ w) _ _ _ _
        (compute-Ends (λ w1. w1 ≡ w) _ _ w (add_u64-Returns p off.desc (count * sz) hc) refl)
        λ len w1 e1.
          Ends-and_then (λ a w2. (0 < a) × Adds v w (record { start = a; len = len }) w2) _ _ _ _
            (subst
              (λ w0.
                Ends (mapped_at libc p (libc.mmap len fd offset w1))
                  (λ a w2. (0 < a) × Adds v w0 (record { start = a; len = len }) w2)
                  (λ _ w2. SameHeld v w0 w2))
              e1 (mapped_at-Ends len fd offset w1 (libc.mmap len fd offset w1) refl))
            λ a w2 (positive, adds).
              let s : Slice = record { start = a; len = len } in
              Ends-and_then (λ _ w3. Adds v w s w3) _ _ _ _
                (compute-Ends (Adds v w s) _ _ w2 (assert-Returns a positive) adds)
                λ _ w3 adds3.
                  Ends-and_then (λ _ w4. Adds v w s w4) _ _ _ _
                    (compute-Ends (Adds v w s) _ _ w3
                      (new-Returns p (libc.memory w3) a off count hc hd) adds3)
                    λ ring w4 adds4. adds4

  pub fill-Ends :
      (fd : ℕ) (off : SocketMmapOffsets) (count : ℕ) (w : W)
      → Ends
          (fill libc p fd off count w)
          (λ r w'. Adds v w r.mmap_addr w')
          (λ _ w'. SameHeld v w w')
  unfolding fill
  fill-Ends fd off count w =
      Ends-and_then (λ r w'. Adds v w r.1 w') _ _ _ _
        (map_ring-Ends fd off.inner.fr count 8 xdp_umem_pgoff_fill_ring w) λ r w' adds. adds

  pub comp-Ends :
      (fd : ℕ) (off : SocketMmapOffsets) (count : ℕ) (w : W)
      → Ends
          (comp libc p fd off count w)
          (λ r w'. Adds v w r.mmap_addr w')
          (λ _ w'. SameHeld v w w')
  unfolding comp
  comp-Ends fd off count w =
      Ends-and_then (λ r w'. Adds v w r.1 w') _ _ _ _
        (map_ring-Ends fd off.inner.cr count 8 xdp_umem_pgoff_completion_ring w) λ r w' adds. adds
