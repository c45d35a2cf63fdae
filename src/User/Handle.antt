-- ===== src/User/Handle.antt =====
-- What `DeviceQueue`, `RingRx` and `RingTx` of xsk/user.rs offer beside their readers and writers: the
-- counts, the descriptors and the calls that wake the kernel.
use xdpilone.Base.{ℕ, Bool, not, ◌==◌, bit_and}
use xdpilone.Memory.{Memory}
use xdpilone.Sys.{Libc}
use xdpilone.Ring.Prod as Prod
use xdpilone.Ring.Cons as Cons
use xdpilone.Umem.Devices.{DeviceQueue}
use xdpilone.Umem.Bind.{User, RingRx, RingTx}

-- `RingTx::XDP_RING_NEED_WAKEUP`
abbrev pub xdp_ring_need_wakeup : ℕ
xdp_ring_need_wakeup = 1

-- `available` of `DeviceQueue`
abbrev pub available : Memory → DeviceQueue → ℕ
available m device = Cons.count_pending m device.fcq.cons

-- `pending` of `DeviceQueue`
abbrev pub pending : Memory → DeviceQueue → ℕ
pending m device = Prod.count_pending m device.fcq.prod

-- `available` of `RingRx`
abbrev pub rx_available : Memory → RingRx → ℕ
rx_available m r = Cons.count_pending m r.ring

-- `pending` of `RingTx`
abbrev pub tx_pending : Memory → RingTx → ℕ
tx_pending m t = Prod.count_pending m t.ring

-- `as_raw_fd` of the four types
abbrev pub device_fd : DeviceQueue → ℕ
device_fd device = device.socket.fd

abbrev pub rx_fd : RingRx → ℕ
rx_fd r = r.fd

abbrev pub tx_fd : RingTx → ℕ
tx_fd t = t.fd

abbrev pub user_fd : User → ℕ
user_fd user = user.socket.fd

-- `needs_wakeup` of `DeviceQueue`
unfoldable pub needs_wakeup : Memory → DeviceQueue → Bool
needs_wakeup m device = not (bit_and (Prod.check_flags m device.fcq.prod) xdp_ring_need_wakeup == 0)

-- `needs_wakeup` of `RingTx`
unfoldable pub tx_needs_wakeup : Memory → RingTx → Bool
tx_needs_wakeup m t = not (bit_and (Prod.check_flags m t.ring) xdp_ring_need_wakeup == 0)

module _ {W : Type 0} (libc : Libc W) where
  -- `wake` of `DeviceQueue`: a poll without events and without waiting, whose result is ignored.
  unfoldable pub wake : DeviceQueue → W → W
  wake device w = (libc.poll device.socket.fd 0 0 w).1

  -- `wake` of `RingTx`: a message without data, whose result is ignored.
  unfoldable pub tx_wake : RingTx → W → W
  tx_wake t w = (libc.sendto t.fd libc.msg_dontwait w).1
