-- ===== src/FloodMt/Connect.antt =====
-- What examples/flood-mt.rs does up to its threads: the umem, a socket for each thread with its transmit
-- ring, a device queue for each interface, the bindings, and the packet. Every error is unwrapped.
pub mod Rounds
mod Tests
pub mod Ready
pub mod Bound
pub mod Mapped
pub mod Names
pub mod Up
use xdpilone.Base.{
  ℕ, zero, suc, ◌^◌, ◌==◌, List, [], ◌∷◌, ◌++◌, length, Option, none, some, Profile, if◌then◌else◌,
}
use xdpilone.Xdp.{XdpDesc}
use xdpilone.Sys.{Ran, panicked, ◌>>=◌, ◌>>◌, done, compute, Buffer, Libc}
use xdpilone.Iface.Info.{IfInfo}
use xdpilone.Ring.{Slice}
use xdpilone.Socket.{Socket, with_shared, new_socket}
use xdpilone.Umem.{Umem, UmemChunk, default_config}
use xdpilone.Umem.Create.{new_umem}
use xdpilone.Umem.Devices.{DeviceQueue, Host, fq_cq}
use xdpilone.Umem.Bind.{SocketConfig, User, RingTx, rx_tx, map_rx, map_tx, bind_umem, bind_device}
use xdpilone.Flood.Setup.{unwrap_or, packet}
use xdpilone.Flood.Connect.{unwrap, call, assert_err}
use xdpilone.FloodMt.Setup.{MtArgs, args_for, ifinfos}

-- `rxtx_config`
abbrev pub mt_config : SocketConfig
mt_config = record { rx_size = none; tx_size = some (2 ^ 12); bind_flags = 0 }

-- `core::iter::repeat(l.iter().enumerate()).flatten().take(n)` of the list `x ∷ xs`, of which `rest`
-- is left in this turn, from the place `i` on.
abbrev pub around_from : {A : Type 0} → A → List A → List A → ℕ → ℕ → List (ℕ × A)
around_from x xs rest i zero = []
around_from x xs [] i (suc n) = (0, x) ∷ around_from x xs xs 1 n
around_from x xs (y ∷ ys) i (suc n) = (i, y) ∷ around_from x xs ys (suc i) n

abbrev pub around : {A : Type 0} → A → List A → ℕ → List (ℕ × A)
around x xs n = around_from x xs [] 0 n

-- What `main` holds when the connection is up.
pub record MtConnection : Type 0 where
  pub umem : Umem
  pub devices : List DeviceQueue
  pub to_binds : List User
  pub tx_queues : List RingTx
  pub desc : XdpDesc

-- The interfaces, if there are any
abbrev pub or_empty : Option (List IfInfo) → List IfInfo
or_empty none = []
or_empty (some infos) = infos

module _ {W : Type 0} (libc : Libc W) (p : Profile) (init : Buffer) where
  -- `if idx == 0` with the two ways to a socket
  abbrev pub socket_for : Umem → ℕ → IfInfo → Host W → Ran (Host W) Socket
  socket_for umem idx info =
      if idx == 0 then call (with_shared libc info umem.fd) else call (new_socket libc info)

  -- `if idx == dev_idx`: the devices that it pushes
  abbrev pub device_for : Umem → ℕ → ℕ → Socket → Host W → Ran (Host W) (List DeviceQueue)
  device_for umem idx dev_idx sock =
      if idx == dev_idx
      then (do device ← (λ h. unwrap (fq_cq libc p init umem sock h)); done (device ∷ []))
      else done []

  -- The loop that creates the sockets, from `idx` on
  abbrev pub create_all :
      Umem → ℕ → List (ℕ × IfInfo) → Host W → Ran (Host W) (List DeviceQueue × List User)
  create_all umem idx [] = done ([], [])
  create_all umem idx ((dev_idx, info) ∷ infos) = do
    sock ← socket_for umem idx info
    pushed ← device_for umem idx dev_idx sock
    rxtx ← call (rx_tx libc p init sock mt_config)
    (devices, to_binds) ← create_all umem (suc idx) infos
    done (pushed ++ devices, rxtx ∷ to_binds)

  -- The loop that binds them, from `idx` on: `zip` ends with the shorter list.
  abbrev pub bind_all :
      Umem → ℕ → List (ℕ × DeviceQueue) → List User → Host W → Ran (Host W) (Unit {0})
  bind_all umem idx [] to_binds = done tt
  bind_all umem idx (queue ∷ queues) [] = done tt
  bind_all umem idx ((dev_idx, queue) ∷ queues) (rxtx ∷ to_binds) = do
    (if idx == dev_idx then call (bind_umem libc umem rxtx) else call (bind_device libc queue rxtx))
    bind_all umem (suc idx) queues to_binds

  -- The loop that maps the transmit rings
  abbrev pub map_all : List User → Host W → Ran (Host W) (List RingTx)
  map_all [] = done []
  map_all (rxtx ∷ to_binds) = do
    tx ← call (map_tx libc p rxtx)
    call (λ w. assert_err (map_rx libc p rxtx w))
    tx_queues ← map_all to_binds
    done (tx ∷ tx_queues)

  -- The devices around and around, for `n` sockets. Without a device the source would look for one
  -- forever; the loop before has pushed one for the first socket.
  abbrev pub queues_for : List DeviceQueue → ℕ → List (ℕ × DeviceQueue)
  queues_for [] n = []
  queues_for (x ∷ xs) n = around x xs n

  -- What follows `ifinfo`: nothing without interfaces, for which the process has exited.
  abbrev pub connect_over :
      Umem
      → (UmemChunk → List ℕ)
      → MtArgs
      → List IfInfo
      → Host W
      → Ran (Host W) (Option MtConnection)
  connect_over umem bytes args [] = done none
  connect_over umem bytes args (info ∷ infos) = do
    (devices, to_binds) ← create_all umem 0 (around info infos (unwrap_or 1 args.threads))
    bind_all umem 0 (queues_for devices (length to_binds)) to_binds
    tx_queues ← map_all to_binds
    (desc, buffer) ← compute (packet p umem 0 bytes (args_for args []))
    done (
        some (record {
          umem = umem;
          devices = devices;
          to_binds = to_binds;
          tx_queues = tx_queues;
          desc = desc;
        }))

  -- `main` up to "Connection up!"; `bytes` are those of the umem's memory, and `none` that the process
  -- has exited.
  unfoldable pub mt_connect :
      ℕ → Slice → (UmemChunk → List ℕ) → MtArgs → Host W → Ran (Host W) (Option MtConnection)
  mt_connect devices area bytes args = do
    umem ← (λ h. unwrap (new_umem libc p devices default_config area h))
    infos ← call (ifinfos libc args)
    connect_over umem bytes args (or_empty infos)
