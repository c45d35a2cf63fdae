-- ===== src/Umem/Devices.antt =====
-- The set of taken device queues of a Umem (`ControlSet` and its implementation in xsk/umem.rs), and
-- the calls that make and drop a `DeviceQueue`.
pub mod Control
pub mod Live
pub mod Tests
pub mod Exclusive
pub mod Concurrent
pub mod Claim
pub mod Ready
pub mod Registry
use xdpilone.Base.{ℕ, Bool, true, false, ◌==◌, List, [], ◌∷◌, Profile, if◌then◌else◌}
use xdpilone.Sys.{
  pos, Errno, Ran, returned, failed, panicked, ◌>>=◌, ◌>>◌, done, Libc, Buffer, sol_xdp, check,
}
use xdpilone.Iface.{SocketMmapOffsets, set_from_fd}
use xdpilone.Iface.Info.{IfCtx, IfInfo}
use xdpilone.Ring.{RingProd, RingCons}
use xdpilone.Ring.Map.{fill, comp, drop_prod, drop_cons}
pub use xdpilone.Socket.{Socket}
use xdpilone.Umem.{UmemConfig, Umem}
use xdpilone.Umem.Devices.Control.{insert, remove}

-- `struct DeviceRings`
pub record DeviceRings : Type 0 where
  pub prod : RingProd
  pub cons : RingCons
  pub map : SocketMmapOffsets

-- `struct DeviceQueue`
pub record DeviceQueue : Type 0 where
  pub fcq : DeviceRings
  pub socket : Socket
  pub devices : ℕ

-- The world, and the set behind every `DeviceControl`: clones of one share its set.
pub record Host (W : Type 0) : Type 0 where
  pub world : W
  pub sets : ℕ → List IfCtx

-- The sets with that of `d` replaced.
abbrev pub set_at : (ℕ → List IfCtx) → ℕ → List IfCtx → ℕ → List IfCtx
set_at sets d l e = if e == d then l else sets e

-- `XDP_UMEM_FILL_RING` and `XDP_UMEM_COMPLETION_RING`
abbrev pub xdp_umem_fill_ring : ℕ
xdp_umem_fill_ring = 5

abbrev pub xdp_umem_completion_ring : ℕ
xdp_umem_completion_ring = 6

module _ {W : Type 0} (libc : Libc W) where
  -- A `setsockopt` of SOL_XDP with a `u32`, and its check.
  abbrev pub set_u32 : ℕ → ℕ → ℕ → W → Ran W (Unit {0})
  set_u32 fd name value w =
      let (err, w') = libc.setsockopt fd sol_xdp name (value ∷ []) 4 w in check libc err w'

  -- `Umem::configure_cq`
  unfoldable pub configure_cq : ℕ → UmemConfig → W → Ran W (Unit {0})
  configure_cq fd config = do
    set_u32 fd xdp_umem_completion_ring config.complete_size
    set_u32 fd xdp_umem_fill_ring config.fill_size

  -- The end of the scope of `prod`, which a failure behind it drops.
  abbrev pub or_unmap : {A : Type 0} → RingProd → Ran W A → Ran W A
  or_unmap prod (returned a w) = returned a w
  or_unmap prod (failed e w) = failed e (drop_prod libc prod w)
  or_unmap prod panicked = panicked

module _ {W : Type 0} (libc : Libc W) (p : Profile) (init : Buffer) where
  -- The part of `Umem::fq_cq` behind the insertion.
  unfoldable pub build_device : Umem → Socket → W → Ran W DeviceQueue
  build_device umem interface = do
    configure_cq libc interface.fd umem.config
    map ← set_from_fd libc p init interface.fd
    prod ← fill libc p interface.fd map umem.config.fill_size
    cons ← (λ w. or_unmap libc prod (comp libc p interface.fd map umem.config.complete_size w))
    done (record {
      fcq = record { prod = prod; cons = cons; map = map };
      socket = interface;
      devices = umem.devices;
    })

  -- The end of the scope of `_tmp_device`, which is forgotten only on success.
  abbrev pub or_remove :
      Umem → IfCtx → (ℕ → List IfCtx) → Ran W DeviceQueue → Ran (Host W) DeviceQueue
  or_remove umem ctx sets (returned device w) = returned device (record { world = w; sets = sets })
  or_remove umem ctx sets (failed e w) =
      failed e
        (record { world = w; sets = set_at sets umem.devices (remove ctx (sets umem.devices)) })
  or_remove umem ctx sets panicked = panicked

  -- What follows the insertion, for its result.
  abbrev pub claim_with : Umem → Socket → Host W → Bool × List IfCtx → Ran (Host W) DeviceQueue
  claim_with umem interface h (true, l) =
      or_remove umem interface.info.ctx (set_at h.sets umem.devices l)
        (build_device umem interface h.world)
  claim_with umem interface h (false, l) =
      failed (record { raw = pos libc.einval }) (record h { sets = set_at h.sets umem.devices l })

  -- `Umem::fq_cq`
  unfoldable pub fq_cq : Umem → Socket → Host W → Ran (Host W) DeviceQueue
  fq_cq umem interface h =
      claim_with umem interface h (insert interface.info.ctx (h.sets umem.devices))

module _ {W : Type 0} (libc : Libc W) where
  -- The drop of a `DeviceQueue`: its own, and then those of its rings.
  unfoldable pub drop_device : DeviceQueue → Host W → Host W
  drop_device device h = record {
    world = drop_cons libc device.fcq.cons (drop_prod libc device.fcq.prod h.world);
    sets = set_at h.sets device.devices (remove device.socket.info.ctx (h.sets device.devices));
  }
