-- ===== src/Iface/Offsets/Tests.antt =====
-- A kernel that writes the offsets without the flags.
use xdpilone.Base.{◌≡◌, refl, inr, arith, debug_profile}
use xdpilone.Xdp.{XdpRingOffsets}
use xdpilone.Sys.{pos, Libc, returned, Buffer}
use xdpilone.Iface.{XdpMmapOffsets, set_from_fd}
use xdpilone.Iface.Offsets.{words, v1_words, set_from_fd_lem}
use xdpilone.Samples.{libc}

abbrev one_ring : XdpRingOffsets
one_ring = record { producer = 0; consumer = 64; desc = 128; flags = 68 }

abbrev offsets : XdpMmapOffsets
offsets = record {
  rx = one_ring;
  tx = one_ring;
  fr = one_ring;
  cr = record { producer = 0; consumer = 128; desc = 320; flags = 132 };
}

abbrev blank : Buffer
blank i = 0

abbrev old_libc : Libc (Unit {0})
old_libc = record libc {
  getsockopt = λ fd level name buffer size w. (pos 0, words (v1_words offsets) blank, 96, w);
}

set_from_fd_lem_example :
    set_from_fd old_libc debug_profile blank 3 tt ≡ returned (record { inner = offsets }) tt
set_from_fd_lem_example =
    set_from_fd_lem old_libc debug_profile blank 3 offsets blank tt tt (
      inr (record { rx = omega arith; tx = omega arith; fr = omega arith; cr = omega arith }, refl))
