-- ===== src/Flood/Connect/Packet.antt =====
-- The descriptor of the packet of examples/flood.rs, for a umem with the default configuration.
use xdpilone.Base.{
  ℕ, ◌+◌, ◌*◌, ◌^◌, ◌≤◌, ◌≡◌, Profile, List, length, Returns, Returns-map, max, arith, IsU32,
}
use xdpilone.Xdp.{XdpDesc, IsDesc}
use xdpilone.Sys.{Libc}
use xdpilone.Ring.{Slice}
use xdpilone.Umem.{Umem, UmemChunk, default_config}
use xdpilone.Umem.Frames.{IsUmem, chunk_at}
use xdpilone.Umem.Create.Checked.{IsArea, umem_at}
use xdpilone.Flood.Setup.{Args, arp, unwrap_or, packet, Prepared, packet_lem}

abbrev pub IsPacket : Args → ℕ → XdpDesc → Type 0
IsPacket args offset d =
    IsDesc d × (d.addr ≡ offset) × (d.len ≡ max (length arp) (unwrap_or 0 args.length_of))

module _ {W : Type 0} (libc : Libc W) (p : Profile) (devices : ℕ) (area : Slice)
    (bytes : UmemChunk → List ℕ) (args : Args) where
  umem_at-IsUmem :
      (w : W) (fd : ℕ)
      → IsArea libc default_config area w
      → IsUmem (umem_at libc p devices default_config area fd)
  umem_at-IsUmem w fd i = record {
    frame_pos = omega arith;
    frame_fits = omega arith;
    area_pos = i.area_pos;
    area_fits = i.area_fits;
  }

  pub packet-Returns :
      (idx : ℕ) (w : W) (umem : Umem)
      → IsArea libc default_config area w
      → 2 ^ 12 * idx + 2 ^ 12 ≤ area.len
      → ((chunk : UmemChunk) → length (bytes chunk) ≡ chunk.addr.len)
      → IsU32 (unwrap_or 0 args.length_of)
      → IsU32 idx
      → umem ≡ umem_at libc p devices default_config area umem.fd
      → Returns (packet p umem idx bytes args) (λ (d, b). IsPacket args (2 ^ 12 * idx) d)
  packet-Returns idx w umem is has filled asked fits at =
      let u = umem_at libc p devices default_config area umem.fd in
      rw at (
        Returns-map
          (λ (d, b).
            Prepared (2 ^ 12 * idx) (unwrap_or 0 args.length_of) (bytes (chunk_at u idx)) d b)
          (λ (d, b). IsPacket args (2 ^ 12 * idx) d) _
          (packet_lem p (umem_at-IsUmem w umem.fd is) idx bytes args fits has (omega arith)
            (filled (chunk_at u idx)) asked)
          λ (d, b) pr. (
            record {
              addr_fits = omega (arith, pr.addr);
              len_fits = omega (arith, pr.len, asked);
              options_fits = omega (arith, pr.options);
            },
            pr.addr,
            pr.len,
          ))
