-- ===== src/User/Read/Stream/Tests.antt =====
-- A completion ring that is read while the kernel puts entries into it.
use xdpilone.Base.{ℕ, ◌≡◌, refl, arith, ok, some, release_profile, List, [], ◌∷◌, ◌++◌}
use xdpilone.Memory.{Memory, u64_slot, load64}
use xdpilone.Ring.{RingCons}
use xdpilone.Ring.Cons.{count_available, peek, cancel, release}
use xdpilone.User.Iter.{next, peek_iter, release_cons}
use xdpilone.User.Read.{Reader, start_read, read, release_read, drop_reader}
use xdpilone.User.Read.Batch.{waiting}
use xdpilone.User.Read.Stream.{
  Puts, added, Stream, idle, drop_spent, Reaches, start, read_item, release_items, here, later,
}
use xdpilone.User.Read.Stream.Order.{IsFifo, Runs, Reaches-read_in_order}
use xdpilone.Samples.{memory, memory_later, rx, rx-IsIdle, rx-IsLaidOut}

abbrev first : Stream ℕ
first = record { memory = memory; stage = idle rx; put = waiting u64_slot memory rx; released = [] }

first-IsFifo : IsFifo u64_slot first
first-IsFifo = record { stage = record { idle = rx-IsIdle; laid = rx-IsLaidOut }; order = refl }

-- Two entries come between the loads.
puts : Puts u64_slot rx memory memory_later
unfolding load64
puts = record {
  count = 2;
  room = omega arith;
  moved = omega arith;
  consumer = omega arith;
  kept = refl;
}

started : (r : Reader) × (start_read release_profile memory memory_later 4 rx ≡ ok r)
unfolding start_read peek_iter peek count_available
started = (_, refl)

got : (out : ℕ × Reader) × (read u64_slot memory_later started.0 ≡ some out)
unfolding started read next
got = (_, refl)

returned : (out : Reader × Memory) × (release_read release_profile memory_later got.0.1 ≡ ok out)
unfolding started got release_read release_cons release
returned = (_, refl)

dropped : (q : RingCons) × (drop_reader release_profile returned.0.0 ≡ ok q)
unfolding started got returned drop_reader cancel
dropped = (_, refl)

abbrev put_by_then : List ℕ
put_by_then = first.put ++ added u64_slot rx memory memory_later puts.count

abbrev last : Stream ℕ
last = record {
  memory = returned.0.1;
  stage = idle dropped.0;
  put = put_by_then;
  released = got.0.0 ∷ [];
}

last_reached : Reaches u64_slot release_profile first last
last_reached =
    later
      (later
        (later (later here (start memory memory_later rx first.put [] 4 started.0 puts started.1))
          (read_item memory_later started.0 [] put_by_then [] got.0.0 got.0.1 got.1))
        (release_items memory_later got.0.1 (got.0.0 ∷ []) put_by_then [] returned.0.0 returned.0.1
          returned.1))
      (drop_spent returned.0.1 returned.0.0 put_by_then (got.0.0 ∷ []) dropped.0 dropped.1)

no_more : Puts u64_slot dropped.0 returned.0.1 returned.0.1
unfolding started got returned dropped
no_more = record {
  count = 0;
  room = omega arith;
  moved = omega arith;
  consumer = refl;
  kept = refl;
}

Reaches-read_in_order_example :
    IsFifo u64_slot last × Runs u64_slot release_profile 4 last.memory returned.0.1 last.stage
Reaches-read_in_order_example =
    Reaches-read_in_order u64_slot release_profile refl 4 returned.0.1 first-IsFifo last_reached
      no_more
