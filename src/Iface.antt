-- ===== src/Iface.antt =====
-- xsk/iface.rs, and the structs of xdp.rs and xsk.rs that it fills: what is known of an interface,
-- and the offsets of a socket's rings, which old kernels report without the flags.
pub mod Info
pub mod Statistics
pub mod Offsets
use xdpilone.Base.{ℕ, ◌+◌, ◌*◌, ◌==◌, Outcome, ok, Profile, Option, none, some, if◌then◌else◌, List}
use xdpilone.Xdp.{XdpRingOffsets}
use xdpilone.Sys.{
  ℤ, pos, negsuc, neg, Errno, Ran, returned, failed, panicked, ◌>>=◌, ◌>>◌, done, compute, add_u64,
  Buffer, Libc, sol_xdp, fail, check,
}

-- `struct XdpRingOffsetsV1`
pub record XdpRingOffsetsV1 : Type 0 where
  pub producer : ℕ
  pub consumer : ℕ
  pub desc : ℕ

-- `struct XdpMmapOffsets`
pub record XdpMmapOffsets : Type 0 where
  pub rx : XdpRingOffsets
  pub tx : XdpRingOffsets
  pub fr : XdpRingOffsets
  pub cr : XdpRingOffsets

-- `struct XdpMmapOffsetsV1`
pub record XdpMmapOffsetsV1 : Type 0 where
  pub rx : XdpRingOffsetsV1
  pub tx : XdpRingOffsetsV1
  pub fr : XdpRingOffsetsV1
  pub cr : XdpRingOffsetsV1

-- `struct SocketMmapOffsets`
pub record SocketMmapOffsets : Type 0 where
  pub inner : XdpMmapOffsets

-- `Default` of the offsets
abbrev pub no_offsets : XdpRingOffsets
no_offsets = record { producer = 0; consumer = 0; desc = 0; flags = 0 }

abbrev pub default_offsets : SocketMmapOffsets
default_offsets = record {
  inner = record { rx = no_offsets; tx = no_offsets; fr = no_offsets; cr = no_offsets };
}

-- The fields `v1` and `latest` of `union Offsets`: what the words of the buffer say.
abbrev pub ring_v1_at : Buffer → ℕ → XdpRingOffsetsV1
ring_v1_at b i = record { producer = b i; consumer = b (i + 1); desc = b (i + 2) }

abbrev pub ring_at : Buffer → ℕ → XdpRingOffsets
ring_at b i = record { producer = b i; consumer = b (i + 1); desc = b (i + 2); flags = b (i + 3) }

abbrev pub v1_of : Buffer → XdpMmapOffsetsV1
v1_of b = record {
  rx = ring_v1_at b 0;
  tx = ring_v1_at b 3;
  fr = ring_v1_at b 6;
  cr = ring_v1_at b 9;
}

abbrev pub latest_of : Buffer → XdpMmapOffsets
latest_of b = record { rx = ring_at b 0; tx = ring_at b 4; fr = ring_at b 8; cr = ring_at b 12 }

-- `OPT_V1` and `OPT_LATEST`, the sizes of the two structs in bytes
abbrev pub opt_v1 : ℕ
opt_v1 = 96

abbrev pub opt_latest : ℕ
opt_latest = 128

-- `XDP_MMAP_OFFSETS` of `Umem`
abbrev pub xdp_mmap_offsets : ℕ
xdp_mmap_offsets = 1

module _ {W : Type 0} (libc : Libc W) (p : Profile) where
  -- `fixup_v1`
  abbrev pub fixup_v1 : XdpRingOffsetsV1 → W → Ran W XdpRingOffsets
  fixup_v1 v1 = do
    flags ← compute (add_u64 p v1.consumer 4)
    done (record { producer = v1.producer; consumer = v1.consumer; desc = v1.desc; flags = flags })

  -- The arm `OPT_V1` of the match
  unfoldable pub fixup_all : XdpMmapOffsetsV1 → W → Ran W SocketMmapOffsets
  fixup_all v1 = do
    rx ← fixup_v1 v1.rx
    tx ← fixup_v1 v1.tx
    fr ← fixup_v1 v1.fr
    cr ← fixup_v1 v1.cr
    done (record { inner = record { rx = rx; tx = tx; fr = fr; cr = cr } })

  -- `match optlen`
  unfoldable pub read_offsets : Buffer → ℕ → W → Ran W SocketMmapOffsets
  unfolding fixup_all
  read_offsets b optlen w =
      if optlen == opt_v1
      then fixup_all (v1_of b) w
      else (if optlen == opt_latest
          then returned (record { inner = latest_of b }) w
          else failed (record { raw = neg libc.einval }) w)

  -- What follows the call, for its result.
  abbrev pub offsets_reply : ℤ × Buffer × ℕ × W → Ran W SocketMmapOffsets
  offsets_reply (err, b, optlen, w) = (do check libc err; read_offsets b optlen) w

  -- `SocketMmapOffsets::set_from_fd`: the value that `self` holds afterwards, where the call
  -- succeeds; on every failure `self` is as it was. `init` is what the union's bytes happen to be.
  unfoldable pub set_from_fd : Buffer → ℕ → W → Ran W SocketMmapOffsets
  unfolding read_offsets
  set_from_fd init sock w =
      offsets_reply (libc.getsockopt sock sol_xdp xdp_mmap_offsets init opt_latest w)
