-- ===== src/User/Write/Stream/Tests.antt =====
-- A transmit ring that user space fills while the kernel takes an entry from it.
use xdpilone.Base.{◌-◌, ◌^◌, ◌≡◌, refl, arith, ok, release_profile, [], ◌++◌, take, All}
use xdpilone.Memory.{Memory, store32}
use xdpilone.Xdp.{XdpDesc, IsDesc, desc_slot}
use xdpilone.Ring.{RingProd}
use xdpilone.Ring.Entries.{entries}
use xdpilone.Ring.Prod.{count_free, reserve, cancel, submit}
use xdpilone.User.Iter.{next, reserve_iter, commit_prod}
use xdpilone.User.Write.{Writer, Inserted, start_write, insert, insert_loop, commit, drop_writer}
use xdpilone.User.Write.Batch.{pending}
use xdpilone.User.Write.Stream.{
  Takes, Stream, idle, open_writer, spent_writer, drop_spent, Reaches, start, insert_items,
  commit_items, take_entries, here, later,
}
use xdpilone.User.Write.Stream.Order.{IsFifo, Runs, Reaches-taken_in_order}
use xdpilone.Samples.{memory, tx, descs, tx-IsIdle, tx-IsLaidOut}

descs-All : All IsDesc descs
descs-All = omega arith

abbrev first : Stream XdpDesc
first = record {
  memory = memory;
  stage = idle tx;
  committed = pending desc_slot memory tx;
  taken = [];
}

first-IsFifo : IsFifo desc_slot first
first-IsFifo = record { stage = record { idle = tx-IsIdle; laid = tx-IsLaidOut }; order = refl }

started : (w : Writer) × (start_write release_profile memory 3 tx ≡ ok w)
unfolding start_write reserve_iter reserve count_free
started = (_, refl)

-- The kernel takes its entry while the writer is there.
abbrev memory_taken : Memory
memory_taken = store32 memory 64 (2 ^ 32 - 1)

takes : Takes desc_slot started.0.queue memory memory_taken
unfolding started
takes = record {
  count = 1;
  at_most = omega arith;
  moved = omega arith;
  producer = omega arith;
  inside = λ h i. ground arith;
}

inserted :
    (out : Inserted XdpDesc) × (insert desc_slot release_profile memory_taken started.0 descs
      ≡ ok out)
unfolding started insert insert_loop next
inserted = (_, refl)

committed : (out : Writer × Memory) × (commit release_profile inserted.0.2 inserted.0.3 ≡ ok out)
unfolding started inserted commit commit_prod submit
committed = (_, refl)

dropped : (q : RingProd) × (drop_writer release_profile committed.0.0 ≡ ok q)
unfolding started inserted committed drop_writer cancel
dropped = (_, refl)

abbrev second : Stream XdpDesc
second = record {
  memory = memory;
  stage = open_writer started.0 [];
  committed = pending desc_slot memory tx;
  taken = [];
}

abbrev third : Stream XdpDesc
third = record {
  memory = memory_taken;
  stage = open_writer started.0 [];
  committed = pending desc_slot memory tx;
  taken =
      entries desc_slot started.0.queue.inner memory (memory started.0.queue.consumer) takes.count;
}

abbrev fourth : Stream XdpDesc
fourth = record {
  memory = inserted.0.2;
  stage = open_writer inserted.0.3 (take inserted.0.0 descs);
  committed = third.committed;
  taken = third.taken;
}

abbrev fifth : Stream XdpDesc
fifth = record {
  memory = committed.0.1;
  stage = spent_writer committed.0.0;
  committed = third.committed ++ take inserted.0.0 descs;
  taken = third.taken;
}

abbrev last : Stream XdpDesc
last = record {
  memory = committed.0.1;
  stage = idle dropped.0;
  committed = third.committed ++ take inserted.0.0 descs;
  taken = third.taken;
}

last_reached : Reaches desc_slot release_profile first last
last_reached =
    later
      (later
        (later
          (later (later here (start memory tx first.committed [] 3 started.0 started.1))
            (take_entries memory second.stage second.committed [] memory_taken takes))
          (insert_items memory_taken started.0 [] third.committed third.taken descs inserted.0.0
            inserted.0.1 inserted.0.2 inserted.0.3 descs-All inserted.1))
        (commit_items inserted.0.2 inserted.0.3 (take inserted.0.0 descs) third.committed
          third.taken committed.0.0 committed.0.1 committed.1))
      (drop_spent committed.0.1 committed.0.0 fifth.committed fifth.taken dropped.0 dropped.1)

Reaches-taken_in_order_example :
    IsFifo desc_slot last × Runs desc_slot release_profile 4 descs last.memory last.stage
Reaches-taken_in_order_example =
    Reaches-taken_in_order desc_slot release_profile refl 4 descs descs-All first-IsFifo
      last_reached
