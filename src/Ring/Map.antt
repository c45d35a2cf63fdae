-- ===== src/Ring/Map.antt =====
-- `XskRing::map` of xsk/ring.rs, what is built on it, and the drops that unmap.
pub mod Held
pub mod Fresh
use xdpilone.Base.{ℕ, ◌+◌, ◌*◌, ◌^◌, ◌==◌, not, Outcome, Profile, assert, none, some, Option}
use xdpilone.Xdp.{XdpRingOffsets}
use xdpilone.Sys.{Ran, ◌>>=◌, ◌>>◌, done, compute, add_u64, Libc, fail, returned, failed, panicked}
use xdpilone.Iface.{SocketMmapOffsets}
use xdpilone.Ring.{XskRing, RingProd, RingCons, Slice, new}

-- `XDP_PGOFF_RX_RING` and so on
abbrev pub xdp_pgoff_rx_ring : ℕ
xdp_pgoff_rx_ring = 0

abbrev pub xdp_pgoff_tx_ring : ℕ
xdp_pgoff_tx_ring = 2147483648

abbrev pub xdp_umem_pgoff_fill_ring : ℕ
xdp_umem_pgoff_fill_ring = 4294967296

abbrev pub xdp_umem_pgoff_completion_ring : ℕ
xdp_umem_pgoff_completion_ring = 6442450944

module _ {W : Type 0} (libc : Libc W) (p : Profile) where
  -- What `mmap` returns, and `MAP_FAILED`.
  abbrev pub mapped_at : Option ℕ × W → Ran W ℕ
  mapped_at (none, w) = fail libc w
  mapped_at (some a, w) = returned a w

  -- `XskRing::map`. The product of two numbers of 32 bits at most fits a `u64`, and on a target of
  -- 64 bits `as usize` keeps the sum.
  unfoldable pub map_ring : ℕ → XdpRingOffsets → ℕ → ℕ → ℕ → W → Ran W (XskRing × Slice)
  map_ring fd off count sz offset = do
    len ← compute (add_u64 p off.desc (count * sz))
    mmap ← (λ w. mapped_at (libc.mmap len fd offset w))
    compute (assert (not (mmap == 0)))
    ring ← (λ w. compute (new p (libc.memory w) mmap off count) w)
    done (ring, record { start = mmap; len = len })

  abbrev map_prod : ℕ → XdpRingOffsets → ℕ → ℕ → ℕ → W → Ran W RingProd
  map_prod fd off count sz offset = do
    (inner, mmap_addr) ← map_ring fd off count sz offset
    done (record { inner = inner; mmap_addr = mmap_addr })

  abbrev map_cons : ℕ → XdpRingOffsets → ℕ → ℕ → ℕ → W → Ran W RingCons
  map_cons fd off count sz offset = do
    (inner, mmap_addr) ← map_ring fd off count sz offset
    done (record { inner = inner; mmap_addr = mmap_addr })

  -- `RingProd::fill`
  unfoldable pub fill : ℕ → SocketMmapOffsets → ℕ → W → Ran W RingProd
  fill fd off count = map_prod fd off.inner.fr count 8 xdp_umem_pgoff_fill_ring

  -- `RingProd::tx`
  unfoldable pub tx : ℕ → SocketMmapOffsets → ℕ → W → Ran W RingProd
  tx fd off count = map_prod fd off.inner.tx count 16 xdp_pgoff_tx_ring

  -- `RingCons::comp`
  unfoldable pub comp : ℕ → SocketMmapOffsets → ℕ → W → Ran W RingCons
  comp fd off count = map_cons fd off.inner.cr count 8 xdp_umem_pgoff_completion_ring

  -- `RingCons::rx`
  unfoldable pub rx : ℕ → SocketMmapOffsets → ℕ → W → Ran W RingCons
  rx fd off count = map_cons fd off.inner.rx count 16 xdp_pgoff_rx_ring

module _ {W : Type 0} (libc : Libc W) where
  -- `Drop for RingProd`
  unfoldable pub drop_prod : RingProd → W → W
  drop_prod r = libc.munmap r.mmap_addr.start r.mmap_addr.len

  -- `Drop for RingCons`
  unfoldable pub drop_cons : RingCons → W → W
  drop_cons r = libc.munmap r.mmap_addr.start r.mmap_addr.len
