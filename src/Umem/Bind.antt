-- ===== src/Umem/Bind.antt =====
-- The receive and transmit rings of a socket in xsk/umem.rs: their sizes, the address that a socket is
-- bound to, and the rings' mapping.
pub mod Rings
pub mod Ready
mod Tests
use xdpilone.Base.{
  ℕ, ◌==◌, ◌^◌, ◌%◌, bit_or, List, [], ◌∷◌, Option, none, some, Profile, if◌then◌else◌,
}
use xdpilone.Sys.{ℤ, neg, Ran, returned, failed, panicked, ◌>>=◌, ◌>>◌, done, Libc, Buffer, check}
use xdpilone.Iface.{SocketMmapOffsets, set_from_fd}
use xdpilone.Iface.Info.{IfCtx, IfInfo}
use xdpilone.Socket.{Socket}
use xdpilone.Ring.{RingProd, RingCons}
use xdpilone.Ring.Map.{tx, rx}
use xdpilone.Umem.{Umem}
use xdpilone.Umem.Devices.{DeviceQueue, set_u32}

-- `struct SocketConfig`; a size that is given is not 0.
pub record SocketConfig : Type 0 where
  pub rx_size : Option ℕ
  pub tx_size : Option ℕ
  pub bind_flags : ℕ

-- `struct User`
pub record User : Type 0 where
  pub socket : Socket
  pub config : SocketConfig
  pub map : SocketMmapOffsets

-- `struct RingRx` and `struct RingTx`
pub record RingRx : Type 0 where
  pub ring : RingCons
  pub fd : ℕ

pub record RingTx : Type 0 where
  pub ring : RingProd
  pub fd : ℕ

-- `XDP_RX_RING`, `XDP_TX_RING` and `XDP_BIND_SHARED_UMEM`
abbrev pub xdp_rx_ring : ℕ
xdp_rx_ring = 2

abbrev pub xdp_tx_ring : ℕ
xdp_tx_ring = 3

abbrev pub xdp_bind_shared_umem : ℕ
xdp_bind_shared_umem = 1

-- `struct SockAddrXdp`
pub record SockAddrXdp : Type 0 where
  pub family : ℕ
  pub flags : ℕ
  pub ifindex : ℕ
  pub queue_id : ℕ
  pub shared_umem_fd : ℕ

-- The address that `bind_at` passes.
unfoldable pub address_of : ℕ → User → ℕ → SockAddrXdp
address_of af_xdp interface umem_sock =
    let ctx = interface.socket.info.ctx in
    let sxdp : SockAddrXdp = record {
      family = af_xdp % 2 ^ 16;
      flags = interface.config.bind_flags;
      ifindex = ctx.ifindex;
      queue_id = ctx.queue_id;
      shared_umem_fd = 0;
    } in
    if interface.socket.fd == umem_sock
    then sxdp
    else record sxdp { flags = bit_or sxdp.flags xdp_bind_shared_umem; shared_umem_fd = umem_sock }

module _ {W : Type 0} (libc : Libc W) where
  -- `Umem::bind_at`
  unfoldable pub bind_at : User → ℕ → W → Ran W (Unit {0})
  bind_at interface umem_sock w =
      let a = address_of libc.af_xdp interface umem_sock in
      let o =
        libc.bind interface.socket.fd
          (a.family ∷ a.flags ∷ a.ifindex ∷ a.queue_id ∷ a.shared_umem_fd ∷ []) 16 w in
      check libc o.0 o.1

  -- `Umem::bind`
  abbrev pub bind_umem : Umem → User → W → Ran W (Unit {0})
  bind_umem umem interface = bind_at interface umem.fd

  -- `DeviceQueue::bind`
  abbrev pub bind_device : DeviceQueue → User → W → Ran W (Unit {0})
  bind_device device interface = bind_at interface device.socket.fd

  -- `if let Some(num) = size` with the call in it
  abbrev pub set_size : ℕ → ℕ → Option ℕ → W → Ran W (Unit {0})
  set_size fd name none w = returned tt w
  set_size fd name (some num) w = set_u32 libc fd name num w

  -- `Umem::configure_rt`
  unfoldable pub configure_rt : ℕ → SocketConfig → W → Ran W (Unit {0})
  configure_rt fd config = do
    set_size fd xdp_rx_ring config.rx_size
    set_size fd xdp_tx_ring config.tx_size

  -- `config.rx_size.ok_or(Errno(-libc::EINVAL))?`
  abbrev pub ok_or_einval : Option ℕ → W → Ran W ℕ
  ok_or_einval none w = failed (record { raw = neg libc.einval }) w
  ok_or_einval (some size) w = returned size w

  -- `Umem::rx_tx`
  unfoldable pub rx_tx : Profile → Buffer → Socket → SocketConfig → W → Ran W User
  rx_tx p init interface config = do
    configure_rt interface.fd config
    map ← set_from_fd libc p init interface.fd
    done (record { socket = interface; config = config; map = map })

  -- `User::map_rx`
  unfoldable pub map_rx : Profile → User → W → Ran W RingRx
  map_rx p user = do
    rx_size ← ok_or_einval user.config.rx_size
    ring ← rx libc p user.socket.fd user.map rx_size
    done (record { ring = ring; fd = user.socket.fd })

  -- `User::map_tx`
  unfoldable pub map_tx : Profile → User → W → Ran W RingTx
  map_tx p user = do
    tx_size ← ok_or_einval user.config.tx_size
    ring ← tx libc p user.socket.fd user.map tx_size
    done (record { ring = ring; fd = user.socket.fd })
