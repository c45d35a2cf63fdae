-- ===== src/Flood/Connect.antt =====
-- What examples/flood.rs does up to its loop: the umem, the socket, its four rings, the binding, and the
-- packet in its frame. Every error is unwrapped.
pub mod Ready
pub mod Samples
mod Tests
pub mod Opened
pub mod Rings
pub mod Packet
pub mod Up
pub mod Main
use xdpilone.Base.{ℕ, ◌^◌, List, Option, none, some, Outcome, Profile}
use xdpilone.Xdp.{XdpDesc}
use xdpilone.Sys.{Ran, returned, failed, panicked, ◌>>=◌, ◌>>◌, done, compute, Buffer, Libc}
use xdpilone.Iface.Info.{IfCtx}
use xdpilone.Ring.{Slice, RingProd, RingCons}
use xdpilone.Socket.{Socket, with_shared}
use xdpilone.Umem.{Umem, UmemChunk, default_config}
use xdpilone.Umem.Create.{new_umem}
use xdpilone.Umem.Devices.{DeviceQueue, Host, fq_cq}
use xdpilone.Umem.Bind.{SocketConfig, User, RingRx, RingTx, rx_tx, map_rx, map_tx, bind_umem}
use xdpilone.Flood.{Kernel, Loop, start_loop, flood}
use xdpilone.Flood.Setup.{Args, unwrap_or, ifinfo, packet}

-- `unwrap` of a result
abbrev pub unwrap : {W A : Type 0} → Ran W A → Ran W A
unwrap (returned a w) = returned a w
unwrap (failed e w) = panicked
unwrap panicked = panicked

-- A call that changes the world only
abbrev pub on_world : {W A : Type 0} → (ℕ → List IfCtx) → Ran W A → Ran (Host W) A
on_world sets (returned a w) = returned a (record { world = w; sets = sets })
on_world sets (failed e w) = failed e (record { world = w; sets = sets })
on_world sets panicked = panicked

-- A call of the library on the world of a host, unwrapped
abbrev pub call : {W A : Type 0} → (W → Ran W A) → Host W → Ran (Host W) A
call f h = unwrap (on_world h.sets (f h.world))

-- `XDP_BIND_NEED_WAKEUP` of `SocketConfig`
abbrev pub xdp_bind_need_wakeup : ℕ
xdp_bind_need_wakeup = 8

-- The configuration that `main` writes out.
abbrev pub flood_config : SocketConfig
flood_config = record { rx_size = none; tx_size = some (2 ^ 14); bind_flags = xdp_bind_need_wakeup }

-- `assert!(rxtx.map_rx().is_err())`
abbrev pub assert_err : {W A : Type 0} → Ran W A → Ran W (Unit {0})
assert_err (returned a w) = panicked
assert_err (failed e w) = returned tt w
assert_err panicked = panicked

-- What `main` holds when the connection is up.
pub record Connection : Type 0 where
  pub umem : Umem
  pub device : DeviceQueue
  pub user : User
  pub tx : RingTx
  pub desc : XdpDesc

module _ {W : Type 0} (libc : Libc W) (p : Profile) (init : Buffer) where
  -- The part of `main` from `ifinfo` to `fq_cq`
  unfoldable pub open_device : Args → Umem → Host W → Ran (Host W) (Socket × DeviceQueue)
  open_device args umem = do
    info ← call (ifinfo libc args)
    sock ← call (with_shared libc info umem.fd)
    device ← (λ h. unwrap (fq_cq libc p init umem sock h))
    done (sock, device)

  -- The part of `main` from `rx_tx` to `bind`
  unfoldable pub open_tx : Umem → Socket → Host W → Ran (Host W) (User × RingTx)
  open_tx umem sock = do
    rxtx ← call (rx_tx libc p init sock flood_config)
    call (λ w. assert_err (map_rx libc p rxtx w))
    tx ← call (map_tx libc p rxtx)
    call (bind_umem libc umem rxtx)
    done (rxtx, tx)

  -- `main` up to "Connection up!"; `bytes` are those of the umem's memory.
  unfoldable pub connect :
      ℕ → Slice → (UmemChunk → List ℕ) → Args → Host W → Ran (Host W) Connection
  connect devices area bytes args = do
    umem ← (λ h. unwrap (new_umem libc p devices default_config area h))
    (sock, device) ← open_device args umem
    (user, tx) ← open_tx umem sock
    (desc, buffer) ← compute (packet p umem 1 bytes args)
    done (record { umem = umem; device = device; user = user; tx = tx; desc = desc })

  module _ {E : Type 0} (kernel : RingProd → RingCons → Kernel E) (e : E) where
    -- `main`, for at most `fuel` rounds of its loop; `kernel` is the one that works on the two rings,
    -- `e` its state when the rings are up.
    unfoldable pub main :
        ℕ → Slice → (UmemChunk → List ℕ) → Args → ℕ → Host W → Ran (Host W) (Option (Loop E))
    main devices area bytes args fuel = do
      c ← connect devices area bytes args
      let tx = c.tx.ring
      let cq = c.device.fcq.cons
      (λ h.
          compute
            (flood (kernel tx cq) p (unwrap_or (2 ^ 10) args.batch) (unwrap_or (2 ^ 20) args.total)
              c.desc fuel (start_loop e (libc.memory h.world) tx cq))
            h)
