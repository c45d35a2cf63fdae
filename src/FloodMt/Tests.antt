-- ===== src/FloodMt/Tests.antt =====
-- Two senders and a completer send three packets, two at a time.
use xdpilone.Base.{◌+◌, ◌≤◌, ◌≡◌, refl, arith, [], ◌∷◌, Returns, release_profile}
use xdpilone.FloodMt.{
  loops, reserved, handed, left, looks, quit, Threads, reserve_share, give_back, leave, reserve,
  transmit, restore, count_sent, stop, choose, reap, count_completed, Reaches, here, later,
  start_threads,
}
use xdpilone.FloodMt.Count.{sum, uncounted, unreported}
use xdpilone.FloodMt.Ends.{Reaches-counters, Reaches-totals}

abbrev halfway : Threads
halfway = record {
  sent_reserved = 2;
  sent = 2;
  completed = 2;
  under_way = 0;
  senders = loops ∷ loops ∷ [];
  completers = looks ∷ [];
}

-- The second sender finds its ring full, and gives its place back.
run_halfway : Reaches release_profile 3 2 (start_threads 2 1) halfway
unfolding reserve_share give_back
run_halfway =
    later
      (later
        (later
          (later
            (later
              (later
                (later
                  (later
                    (later
                      (later
                        (later here (
                          reserve [] (loops ∷ []) 0 0 2 refl (omega arith) (omega arith) refl refl))
                        (reserve (reserved 2 ∷ []) [] 0 0 3 refl (omega arith) (omega arith) refl
                          refl))
                      (transmit [] (reserved 1 ∷ []) 2 2 refl (omega arith)))
                    (transmit (handed 2 2 ∷ []) [] 1 0 refl (omega arith)))
                  (restore [] (handed 1 0 ∷ []) 2 2 3 refl refl))
                (count_sent [] (handed 1 0 ∷ []) 2 refl))
              (restore (loops ∷ []) [] 1 0 2 refl refl))
            (choose [] [] 0 2 refl (omega arith) (omega arith) (omega arith)))
          (reap [] [] 2 2 refl (omega arith) (omega arith)))
        (count_completed [] [] 2 refl))
      (count_sent (loops ∷ []) [] 0 refl)

abbrev at_end : Threads
at_end = record {
  sent_reserved = 3;
  sent = 3;
  completed = 3;
  under_way = 0;
  senders = left ∷ left ∷ [];
  completers = quit ∷ [];
}

-- The completion is read and counted before the sender has counted its packet.
run_to_end : Reaches release_profile 3 2 (start_threads 2 1) at_end
unfolding reserve_share give_back
run_to_end =
    later
      (later
        (later
          (later
            (later
              (later
                (later
                  (later
                    (later
                      (later run_halfway
                        (reserve (loops ∷ []) [] 2 0 3 refl (omega arith) (omega arith) refl refl))
                      (transmit (loops ∷ []) [] 1 1 refl (omega arith)))
                    (choose [] [] 0 2 refl (omega arith) (omega arith) (omega arith)))
                  (reap [] [] 2 1 refl (omega arith) (omega arith)))
                (restore (loops ∷ []) [] 1 1 3 refl refl))
              (count_completed [] [] 1 refl))
            (stop [] [] 3 refl (omega arith) refl))
          (count_sent (loops ∷ []) [] 1 refl))
        (leave [] (loops ∷ []) 3 3 refl (omega arith) (omega arith) refl))
      (leave (left ∷ []) [] 3 3 refl (omega arith) (omega arith) refl)

Reaches-counters_example :
    (2 + 0 + sum unreported halfway.completers ≡ 2 + sum uncounted halfway.senders)
    × (2 + sum uncounted halfway.senders ≤ 2)
    × Returns (reserve_share release_profile 3 2 2) (λ z. z ≤ 3)
Reaches-counters_example = Reaches-counters release_profile (omega arith) 2 2 1 run_halfway

Reaches-totals_example : (at_end.sent ≡ 3) × (at_end.completed ≡ 3) × (at_end.under_way ≡ 0)
Reaches-totals_example =
    Reaches-totals release_profile (omega arith) 2 2 1 run_to_end (refl, (refl, tt)) (refl, tt)
      (omega arith)
