-- ===== src/FloodMt/Connect/Tests.antt =====
-- The connection of examples/flood-mt.rs, of three threads on two interfaces.
use xdpilone.Base.{◌≡◌, refl, arith, [], ◌∷◌, some, release_profile}
use xdpilone.Sys.Works.{Succeeds}
use xdpilone.Flood.Connect.Ready.{length-zeros}
use xdpilone.Flood.Connect.Samples.{
  index_of, libc, view, libc-Answers, libc-Reports, area, host, bytes,
}
use xdpilone.FloodMt.Setup.{MtArgs}
use xdpilone.FloodMt.Connect.{MtConnection, mt_connect}
use xdpilone.FloodMt.Connect.Up.{IsMtRun, IsMtUp, mt_connect-Succeeds}

-- `eth0` and `eth1`
abbrev args : MtArgs
args = record {
  ifname = (101 ∷ 116 ∷ 104 ∷ 48 ∷ []) ∷ (101 ∷ 116 ∷ 104 ∷ 49 ∷ []) ∷ [];
  queue_id = some 1;
  batch = some 4;
  total = some 6;
  length_of = some 64;
  threads = some 3;
}

host-IsMtRun : IsMtRun libc index_of area bytes args host.world
host-IsMtRun = record {
  is_area = record {
    frame_fits = omega arith;
    area_pos = omega arith;
    area_fits = omega arith;
    page = record { exponent = 12; small = omega arith; value = refl };
  };
  checked = record { frame_pos = omega arith; aligned = refl };
  one_frame = omega arith;
  filled = λ chunk. length-zeros chunk.addr.len;
  named = omega arith;
  names = record {
    indexed = λ name w. refl;
    clean = (refl, (refl, tt));
    fit = (omega arith, (omega arith, tt));
    differ = (tt, ((omega arith, tt), tt));
  };
  length_fits = omega arith;
}

mt_connect-Succeeds_example :
    Succeeds
      (mt_connect libc release_profile (λ i. 0) 1 area bytes args host)
      (λ o h'. (c : MtConnection) × (o ≡ some c) × IsMtUp view args c h')
mt_connect-Succeeds_example =
    mt_connect-Succeeds view libc-Answers libc-Reports release_profile (λ i. 0) 1 area bytes args
      index_of host host-IsMtRun
