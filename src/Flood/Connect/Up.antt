-- ===== src/Flood/Connect/Up.antt =====
-- The connection of examples/flood.rs comes up on a system where every call succeeds.
use xdpilone.Base.{
  ℕ, ◌^◌, ◌≤◌, ◌<◌, ◌≡◌, refl, sym, subst, false, Profile, List, [], length, max, is_power_of_two,
  arith, IsU32,
}
use xdpilone.Xdp.{IsDesc}
use xdpilone.Sys.{Libc, Buffer}
use xdpilone.Sys.Works.{Works, Answers, Carries, Succeeds, Succeeds-and_then, compute-Succeeds}
use xdpilone.Ring.{Slice}
use xdpilone.Umem.{UmemChunk, default_config}
use xdpilone.Umem.Create.{new_umem}
use xdpilone.Umem.Create.Checked.{IsArea, IsChecked, umem_at}
use xdpilone.Umem.Devices.Claim.{set_at-at}
use xdpilone.Umem.Devices.{Host, set_at}
use xdpilone.Umem.Devices.Ready.{Reports, IsSized}
use xdpilone.Flood.Setup.{Args, arp, has_nul, unwrap_or}
use xdpilone.Flood.Connect.Packet.{IsPacket, packet-Returns}
use xdpilone.Flood.Connect.{Connection, connect}
use xdpilone.Flood.Connect.Ready.{new_umem-Succeeds}
use xdpilone.Flood.Connect.Opened.{Opened, unwrap-Succeeds, open_device-Succeeds, open_tx-Succeeds}

pub default_config-IsSized : IsSized default_config
unfolding is_power_of_two
default_config-IsSized = record {
  fill_pow = refl;
  complete_pow = refl;
  fill_small = omega arith;
  complete_small = omega arith;
}

-- What `main` is run with: an area that can hold two frames, and options that fit.
pub record IsRun {W : Type 0} (libc : Libc W) (area : Slice) (bytes : UmemChunk → List ℕ)
    (args : Args) (w : W) : Type 0 where
  pub is_area : IsArea libc default_config area w
  pub checked : IsChecked libc default_config area w
  pub two_frames : 2 ^ 13 ≤ area.len
  pub filled : (chunk : UmemChunk) → length (bytes chunk) ≡ chunk.addr.len
  pub clean : has_nul args.ifname ≡ false
  pub name_fits : length args.ifname < libc.ifnamsiz
  pub length_fits : IsU32 (unwrap_or 0 args.length_of)

-- The connection is up: empty rings that lie apart, and the descriptor of a packet in frame 1.
pub record IsUp {W : Type 0} {libc : Libc W} (v : Works libc) (args : Args) (c : Connection)
    (h : Host W) : Type 0 where
  pub opened : Opened v (2 ^ 14) c.device c.tx h.world
  pub desc_fits : IsDesc c.desc
  pub addr : c.desc.addr ≡ 2 ^ 12
  pub len : c.desc.len ≡ max (length arp) (unwrap_or 0 args.length_of)

module _ {W : Type 0} {libc : Libc W} (v : Works libc) (a : Answers libc v) (r : Reports libc v)
    (p : Profile) (init : Buffer) (devices : ℕ) (area : Slice) (bytes : UmemChunk → List ℕ)
    (args : Args) where
  -- On a system on which every call succeeds, as `Answers` says, and reports the offsets of the
  -- rings as `Reports` says, for an area that begins with a page and can hold two frames, a name
  -- that fits and a length that is a u32, in every profile: the calls of flood.rs up to its loop
  -- neither fail nor panic; they leave an empty fill, completion and transmit ring as mapped, with
  -- the heads of the completion ring outside of the transmit ring, and the descriptor of a packet
  -- in the frame at 4096.
  pub connect-Succeeds :
      (h : Host W)
      → IsRun libc area bytes args h.world
      → Succeeds (connect libc p init devices area bytes args h) (IsUp v args)
  unfolding connect
  connect-Succeeds h i =
      Succeeds-and_then
        (λ u h1.
          ((u ≡ umem_at libc p devices default_config area u.fd) × Carries v h.world h1.world)
          × (h1.sets ≡ set_at h.sets devices []))
        _ _ _
        (unwrap-Succeeds (new_umem libc p devices default_config area h) _
          (new_umem-Succeeds v a p devices default_config area h i.is_area i.checked))
        λ umem h1 ((at, c1), s1).
          Succeeds-and_then _ _ _ _
            (open_device-Succeeds v a r p init args umem h1 i.clean i.name_fits
              (subst (λ u. IsSized u.config) (sym at) default_config-IsSized)
              (subst (λ u. h1.sets u.devices ≡ []) (sym at) (rw s1 (set_at-at h.sets devices []))))
            λ (sock, device) h2 (fd, same, ready).
              Succeeds-and_then _ _ _ _ (open_tx-Succeeds v a r p init device umem sock h2 ready)
                λ (user, tx) h3 opened.
                  Succeeds-and_then (λ (d, b) h4. IsPacket args (2 ^ 12) d × (h4 ≡ h3)) _ _ _
                    (compute-Succeeds (λ (d, b). IsPacket args (2 ^ 12) d)
                      (λ (d, b) h4. IsPacket args (2 ^ 12) d × (h4 ≡ h3)) _ h3
                      (packet-Returns libc p devices area bytes args 1 h.world umem i.is_area
                        i.two_frames i.filled i.length_fits (omega arith) at)
                      λ (d, b) pr. (pr, refl))
                    λ (d, b) h4 ((fits, addr, len), e). record {
                      opened = subst (λ g. Opened v (2 ^ 14) device tx g.world) (sym e) opened;
                      desc_fits = fits;
                      addr = addr;
                      len = len;
                    }
