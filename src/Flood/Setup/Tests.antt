-- ===== src/Flood/Setup/Tests.antt =====
-- The options `--packet-length 60 --queue-id 2 lo`, at a packet area of a mebibyte.
use xdpilone.Base.{ℕ, ◌*◌, ◌^◌, refl, arith, List, [], ◌∷◌, none, some, Returns, debug_profile}
use xdpilone.Sys.{Ends}
use xdpilone.Umem.{Umem, UmemChunk, default_config}
use xdpilone.Flood.{repeat}
use xdpilone.Flood.Finish.{length-repeat}
use xdpilone.Flood.Setup.{Args, packet, Prepared, packet_lem, ifinfo, Chosen, ifinfo_lem}
use xdpilone.Samples.{libc}

abbrev args : Args
args = record {
  ifname = 108 ∷ 111 ∷ [];
  queue_id = some 2;
  batch = none;
  total = none;
  length_of = some 60;
}

abbrev umem : Umem
umem = record {
  umem_area = record { start = 8192; len = 2 ^ 20 };
  config = default_config;
  fd = 3;
  devices = 0;
}

abbrev blank : UmemChunk → List ℕ
blank chunk = repeat 4096 0

packet_lem_example :
    Returns
      (packet debug_profile umem 1 blank args)
      λ (d, b). Prepared (4096 * 1) 60 (repeat 4096 0) d b
packet_lem_example =
    packet_lem debug_profile {u = umem} (omega arith) 1 blank args (omega arith) (omega arith)
      (omega arith) (length-repeat {A = ℕ} 4096 0) (omega arith)

ifinfo_lem_example :
    Ends
      (ifinfo libc args tt)
      (λ info w'. Chosen libc (some 2) (108 ∷ 111 ∷ 0 ∷ []) tt info w')
      (λ e w'. Unit {0})
ifinfo_lem_example = ifinfo_lem libc args tt refl
