-- ===== src/Iface/Statistics.antt =====
-- The statistics of a socket: `XdpStatistics` and `XdpStatisticsV2` of xdp.rs, as xsk/iface.rs asks
-- for them.
use xdpilone.Base.{ℕ}
use xdpilone.Sys.{ℤ, Ran, ◌>>◌, done, Libc, Buffer, sol_xdp, check}
use xdpilone.Socket.{Socket}

-- `XDP_STATISTICS`
abbrev pub xdp_statistics : ℕ
xdp_statistics = 7

-- `struct XdpStatistics`
pub record XdpStatistics : Type 0 where
  pub rx_dropped : ℕ
  pub rx_invalid_descs : ℕ
  pub tx_invalid_descs : ℕ

-- `struct XdpStatisticsV2`
pub record XdpStatisticsV2 : Type 0 where
  pub rx_dropped : ℕ
  pub rx_invalid_descs : ℕ
  pub tx_invalid_descs : ℕ
  pub rx_ring_full : ℕ
  pub rx_fill_ring_empty_descs : ℕ
  pub tx_ring_empty_descs : ℕ

-- The structs in a buffer of 64-bit words
abbrev pub v1_at : Buffer → XdpStatistics
v1_at b = record { rx_dropped = b 0; rx_invalid_descs = b 1; tx_invalid_descs = b 2 }

abbrev pub v2_at : Buffer → XdpStatisticsV2
v2_at b = record {
  rx_dropped = b 0;
  rx_invalid_descs = b 1;
  tx_invalid_descs = b 2;
  rx_ring_full = b 3;
  rx_fill_ring_empty_descs = b 4;
  tx_ring_empty_descs = b 5;
}

module _ {W : Type 0} (libc : Libc W) where
  -- The call of both `set_from_fd`, for a struct of `size` bytes that `new` has zeroed.
  abbrev pub ask_statistics : ℕ → ℕ → W → ℤ × Buffer × ℕ × W
  ask_statistics size sock w = libc.getsockopt sock sol_xdp xdp_statistics (λ i. 0) size w

  -- `XdpStatistics::new`
  unfoldable pub new_v1 : ℕ → W → Ran W XdpStatistics
  new_v1 sock w = let o = ask_statistics 24 sock w in (do check libc o.0; done (v1_at o.1)) o.3

  -- `XdpStatisticsV2::new`
  unfoldable pub new_v2 : ℕ → W → Ran W XdpStatisticsV2
  new_v2 sock w = let o = ask_statistics 48 sock w in (do check libc o.0; done (v2_at o.1)) o.3

  -- `statistics` and `statistics_v2` of `DeviceQueue` and of `User`, for their sockets
  abbrev pub statistics : Socket → W → Ran W XdpStatistics
  statistics socket = new_v1 socket.fd

  abbrev pub statistics_v2 : Socket → W → Ran W XdpStatisticsV2
  statistics_v2 socket = new_v2 socket.fd
