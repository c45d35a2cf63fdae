-- ===== src/FloodMt.antt =====
-- examples/flood-mt.rs: threads that send one frame again and again, each through its own ring, and
-- threads that count the completions, with the three counters that they share. A state is what holds
-- between two accesses of the counters; any thread may take the next step.
pub mod Count
pub mod Ends
pub mod Weight
pub mod Progress
pub mod Finish
pub mod Setup
pub mod Connect
mod Tests
use xdpilone.Flood.{repeat}
use xdpilone.Base.{
  ℕ, ◌+◌, ◌-◌, ◌≤◌, ◌≡◌, Bool, true, false, ◌&&◌, ◌==◌, leb, List, [], ◌∷◌, ◌++◌, min, Outcome, ok,
  ◌>>=◌, Profile, add_u32, sub_u32, wrapping_add, wrapping_sub, ◌≢◌,
}

-- Where the thread of a `RingTx` is in its loop: before the update of `sent_reserved`; with places
-- reserved; with `sent_now` of them handed to the kernel; with the others given back; out of the loop.
pub data Sender : Type 0 where
  loops : Sender
  reserved : (send_batch : ℕ) → Sender
  handed : (send_batch sent_now : ℕ) → Sender
  gave_back : (sent_now : ℕ) → Sender
  left : Sender

-- Where the thread of a `DeviceQueue` is in its loop: before the loads; with the size of a batch; with
-- `comp_now` completions read; out of the loop.
pub data Completer : Type 0 where
  looks : Completer
  chose : (comp_batch : ℕ) → Completer
  reaped : (comp_now : ℕ) → Completer
  quit : Completer

-- The counters that the threads share, the packets that the kernel holds, and the threads.
pub record Threads : Type 0 where
  pub sent_reserved : ℕ
  pub sent : ℕ
  pub completed : ℕ
  pub under_way : ℕ
  pub senders : List Sender
  pub completers : List Completer

-- `sent >= total && completed >= total`, for what the two loads gave
abbrev pub all_sent : ℕ → ℕ → ℕ → Bool
all_sent total sent completed = leb total sent && leb total completed

-- `total.saturating_sub(n).min(batch)`
abbrev pub share : ℕ → ℕ → ℕ → ℕ
share total batch n = min (total - n) batch

-- The closure of `fetch_update`
unfoldable pub reserve_share : Profile → ℕ → ℕ → ℕ → Outcome ℕ
reserve_share p total batch n = add_u32 p n (share total batch n)

-- `sent_reserved.fetch_sub(send_batch - sent_now)`
unfoldable pub give_back : Profile → ℕ → ℕ → ℕ → Outcome ℕ
give_back p send_batch sent_now n = do
  rest ← sub_u32 p send_batch sent_now
  ok (wrapping_sub n rest)

-- `sent.saturating_sub(current).min(batch)`
abbrev pub comp_batch_of : ℕ → ℕ → ℕ → ℕ
comp_batch_of batch sent current = min (sent - current) batch

module _ (p : Profile) (total batch : ℕ) where
  -- One access of a counter, with what the thread does up to its next one. A relaxed load of `sent` or
  -- `completed`, which only grow, may give an earlier value. `transmit` and `reap` are the blocks of
  -- User/Write/Send and User/Read/Receive, which may send and read fewer than they ask for; the kernel
  -- reports no packet that it was not handed.
  pub data Step : Threads → Threads → Type 0 where
    leave :
        {s : Threads} (xs ys : List Sender) (sent completed : ℕ)
        → s.senders ≡ xs ++ (loops ∷ ys)
        → sent ≤ s.sent
        → completed ≤ s.completed
        → all_sent total sent completed ≡ true
        → Step s (record s { senders = xs ++ (left ∷ ys) })
    reserve :
        {s : Threads} (xs ys : List Sender) (sent completed next : ℕ)
        → s.senders ≡ xs ++ (loops ∷ ys)
        → sent ≤ s.sent
        → completed ≤ s.completed
        → all_sent total sent completed ≡ false
        → reserve_share p total batch s.sent_reserved ≡ ok next
        → Step s (record s {
          sent_reserved = next;
          senders = xs ++ (reserved (share total batch s.sent_reserved) ∷ ys);
        })
    transmit :
        {s : Threads} (xs ys : List Sender) (send_batch sent_now : ℕ)
        → s.senders ≡ xs ++ (reserved send_batch ∷ ys)
        → sent_now ≤ send_batch
        → Step s (record s {
          under_way = s.under_way + sent_now;
          senders = xs ++ (handed send_batch sent_now ∷ ys);
        })
    restore :
        {s : Threads} (xs ys : List Sender) (send_batch sent_now next : ℕ)
        → s.senders ≡ xs ++ (handed send_batch sent_now ∷ ys)
        → give_back p send_batch sent_now s.sent_reserved ≡ ok next
        → Step s (record s { sent_reserved = next; senders = xs ++ (gave_back sent_now ∷ ys) })
    count_sent :
        {s : Threads} (xs ys : List Sender) (sent_now : ℕ)
        → s.senders ≡ xs ++ (gave_back sent_now ∷ ys)
        → Step s (record s { sent = wrapping_add s.sent sent_now; senders = xs ++ (loops ∷ ys) })
    stop :
        {s : Threads} (xs ys : List Completer) (current : ℕ)
        → s.completers ≡ xs ++ (looks ∷ ys)
        → current ≤ s.completed
        → current ≡ total
        → Step s (record s { completers = xs ++ (quit ∷ ys) })
    choose :
        {s : Threads} (xs ys : List Completer) (current sent : ℕ)
        → s.completers ≡ xs ++ (looks ∷ ys)
        → current ≤ s.completed
        → current ≢ total
        → sent ≤ s.sent
        → Step s (record s { completers = xs ++ (chose (comp_batch_of batch sent current) ∷ ys) })
    reap :
        {s : Threads} (xs ys : List Completer) (comp_batch comp_now : ℕ)
        → s.completers ≡ xs ++ (chose comp_batch ∷ ys)
        → comp_now ≤ comp_batch
        → comp_now ≤ s.under_way
        → Step s (record s {
          under_way = s.under_way - comp_now;
          completers = xs ++ (reaped comp_now ∷ ys);
        })
    count_completed :
        {s : Threads} (xs ys : List Completer) (comp_now : ℕ)
        → s.completers ≡ xs ++ (reaped comp_now ∷ ys)
        → Step s (record s {
          completed = wrapping_add s.completed comp_now;
          completers = xs ++ (looks ∷ ys);
        })

  pub data Reaches (s : Threads) : Threads → Type 0 where
    here : Reaches s s
    later : {t u : Threads} → Reaches s t → Step t u → Reaches s u

-- `n` threads that send and `k` that complete, as `main` starts them
abbrev pub start_threads : ℕ → ℕ → Threads
start_threads n k = record {
  sent_reserved = 0;
  sent = 0;
  completed = 0;
  under_way = 0;
  senders = repeat n loops;
  completers = repeat k looks;
}
