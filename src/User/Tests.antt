-- ===== src/User/Tests.antt =====
-- Tests of the adapters, and the theorems about them at concrete rings.
use xdpilone.Base.{◌-◌, ◌^◌, refl, arith, Returns, release_profile, All}
use xdpilone.Memory.{u64_slot}
use xdpilone.Xdp.{XdpDesc, IsDesc, desc_slot}
use xdpilone.User.Write.{Writer}
use xdpilone.User.Write.Send.{send_batch, Sent, send_batch_lem}
use xdpilone.User.Write.Again as WriteAgain
use xdpilone.User.Read.{Reader}
use xdpilone.User.Read.Receive.{receive_batch, Received, receive_batch_lem}
use xdpilone.User.Read.Again as ReadAgain
use xdpilone.Samples.{
  memory, memory_later, ring_at, tx, rx, descs, four-IsPow2, tx-IsIdle, rx-IsIdle, rx-Fills,
  tx-IsLaidOut, rx-IsLaidOut,
}

descs-All : All IsDesc descs
descs-All = omega arith

send_batch_lem_example :
    Returns
      (send_batch desc_slot release_profile memory tx 8 descs)
      λ (sent, m', q'). Sent desc_slot memory tx 8 descs sent m' q'
send_batch_lem_example =
    send_batch_lem desc_slot release_profile refl tx-IsIdle tx-IsLaidOut 8 descs descs-All

receive_batch_lem_example :
    Returns
      (receive_batch u64_slot release_profile memory memory_later rx 4 1)
      λ (items, m'', q'). Received u64_slot memory memory_later rx 4 1 items m'' q'
receive_batch_lem_example =
    receive_batch_lem u64_slot release_profile refl rx-IsIdle rx-IsLaidOut rx-Fills 4 1

-- One of three reserved places is written.
abbrev writer : Writer
writer = record {
  idx = record { base = 0; buffers = 3; remain = 2 };
  queue = record tx { inner = ring_at 2 2 };
}

writer-InUse : WriteAgain.InUse desc_slot memory writer
writer-InUse = record {
  laid = record {
    pow = four-IsPow2;
    masked = omega arith;
    producer_outside = tx-IsLaidOut.producer_outside;
    consumer_outside = tx-IsLaidOut.consumer_outside;
  };
  written = omega arith;
  more = omega arith;
  fits = omega arith;
  head_fits = omega arith;
  base = omega arith;
}

abbrev desc : XdpDesc
desc = record { addr = 4096; len = 60; options = 0 }

commit_insert_lem_example :
    Returns
      (WriteAgain.commit_insert desc_slot release_profile memory writer desc)
      λ (m', inserted, m'', w''). WriteAgain.Misplaced desc_slot writer desc m' inserted m''
commit_insert_lem_example =
    WriteAgain.commit_insert_lem desc_slot release_profile memory writer desc refl writer-InUse

-- One of two entries is read.
abbrev reader : Reader
reader = record {
  idx = record { base = 2 ^ 32 - 1; buffers = 2; remain = 1 };
  queue = record rx { inner = ring_at 1 0 };
}

reader-InUse : ReadAgain.InUse memory_later reader
reader-InUse = record {
  pow = four-IsPow2;
  more = omega arith;
  some_read = omega arith;
  fits = omega arith;
  head_fits = omega arith;
  base = omega arith;
}

release_and_read_lem_example :
    Returns
      (ReadAgain.release_and_read u64_slot release_profile memory_later reader)
      λ (m', got). ReadAgain.Skipped u64_slot reader m' got
release_and_read_lem_example =
    ReadAgain.release_and_read_lem u64_slot release_profile memory_later reader refl reader-InUse
