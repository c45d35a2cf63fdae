-- ===== src/Flood/Connect/Tests.antt =====
-- The program of examples/flood.rs on a system that maps one new area behind the other, beside a kernel
-- that works in every other round, and only when woken.
use xdpilone.Base.{◌≡◌, refl, arith, Bool, true, [], ◌∷◌, some, release_profile}
use xdpilone.Sys.Works.{Succeeds}
use xdpilone.Flood.{Loop}
use xdpilone.Flood.Samples.{worker, rank, worker-IsKernel}
use xdpilone.Flood.Setup.{Args}
use xdpilone.Flood.Connect.{connect, main}
use xdpilone.Flood.Connect.Ready.{length-zeros}
use xdpilone.Flood.Connect.Up.{IsRun, IsUp, connect-Succeeds}
use xdpilone.Flood.Connect.Main.{main-Succeeds}
use xdpilone.Flood.Connect.Samples.{libc, view, libc-Answers, libc-Reports, area, host, bytes}

-- `eth0`, and six packets of 64 bytes, four at a time.
abbrev args : Args
args = record {
  ifname = 101 ∷ 116 ∷ 104 ∷ 48 ∷ [];
  queue_id = some 1;
  batch = some 4;
  total = some 6;
  length_of = some 64;
}

host-IsRun : IsRun libc area bytes args host.world
host-IsRun = record {
  is_area = record {
    frame_fits = omega arith;
    area_pos = omega arith;
    area_fits = omega arith;
    page = record { exponent = 12; small = omega arith; value = refl };
  };
  checked = record { frame_pos = omega arith; aligned = refl };
  two_frames = omega arith;
  filled = λ chunk. length-zeros chunk.addr.len;
  clean = refl;
  name_fits = omega arith;
  length_fits = omega arith;
}

connect-Succeeds_example :
    Succeeds (connect libc release_profile (λ i. 0) 1 area bytes args host) (IsUp view args)
connect-Succeeds_example =
    connect-Succeeds view libc-Answers libc-Reports release_profile (λ i. 0) 1 area bytes args host
      host-IsRun

main-Succeeds_example :
    Succeeds
      (main libc release_profile (λ i. 0) worker true 1 area bytes args 26 host)
      (λ o h'. (s : Loop Bool) × (o ≡ some s) × (s.sent ≡ 6) × (s.completed ≡ 6))
main-Succeeds_example =
    main-Succeeds view libc-Answers libc-Reports release_profile (λ i. 0) 1 area bytes args worker
      true rank 2 worker-IsKernel refl 26 host host-IsRun (omega arith) (omega arith) (omega arith)
