-- ===== src/Flood.antt =====
-- examples/flood.rs: the program that sends one frame again and again, to the end of its main loop.
-- What the kernel does in between is a parameter; the library's blocks in the loop are those of
-- User/Write/Send and User/Read/Receive.
pub mod Setup
pub mod Promise
pub mod Moves
pub mod Round
pub mod Finish
pub mod Connect
mod Samples
mod Tests
use xdpilone.Base.{
  ℕ, zero, suc, ◌+◌, ◌-◌, ◌/◌, ◌^◌, min, Bool, true, false, not, ◌&&◌, ◌==◌, if◌then◌else◌, List,
  [], ◌∷◌, length, Option, none, some, Outcome, ok, panic, ◌>>=◌, Profile, add_u32, wrapping_add,
  bit_and,
}
use xdpilone.Memory.{Memory, u64_slot}
use xdpilone.Xdp.{XdpDesc, desc_slot}
use xdpilone.Ring.{RingProd, RingCons}
use xdpilone.Ring.Prod.{check_flags}
use xdpilone.User.Handle.{xdp_ring_need_wakeup}
use xdpilone.User.Write.Send.{send_batch}
use xdpilone.User.Read.Receive.{receive_batch}

-- `core::iter::repeat(desc)`, as far as a writer can take from it
abbrev pub repeat : {A : Type 0} → ℕ → A → List A
repeat zero x = []
repeat (suc n) x = x ∷ repeat n x

-- `n += 1` on the `i32` of the statistics, which are kept as their 32 bits.
abbrev pub count_i32 : Profile → ℕ → Outcome ℕ
count_i32 p n =
    if n + 1 == 2 ^ 31
    then (if p.overflow_checks then panic else ok (2 ^ 31))
    else ok (wrapping_add n 1)

-- `32 - n.leading_zeros()`: the number of binary digits of a number of at most `fuel` digits.
abbrev pub digits : ℕ → ℕ → ℕ
digits zero n = 0
digits (suc fuel) n = let rest = digits fuel (n / 2) in if n == 0 then 0 else suc rest

-- A table of the sizes of batches
abbrev pub Log : Type 0
Log = ℕ → ℕ

-- `log_batch[32 - n.leading_zeros() as usize] += 1`
unfoldable pub log_batch : Profile → Log → ℕ → Outcome Log
log_batch p log n = do
  count ← count_i32 p (log (digits 32 n))
  ok (λ i. if i == digits 32 n then count else log i)

-- What the kernel does: before a batch is sent, between the batch and the first load of the reader,
-- and between the reader's loads. It knows how many packets are under way, and whether it was woken.
pub record Kernel (E : Type 0) : Type 0 where
  pub before : E → ℕ → Memory → Memory
  pub after : E → ℕ → Bool → Memory → Memory
  pub between : E → ℕ → Memory → Memory
  pub next : E → ℕ → Bool → Memory → E

-- The variables of `main` that the loop changes, the shared memory, and the kernel's own state.
pub record Loop (E : Type 0) : Type 0 where
  pub kernel_state : E
  pub memory : Memory
  pub tx : RingProd
  pub cq : RingCons
  pub sent : ℕ
  pub completed : ℕ
  pub stat_loops : ℕ
  pub stat_stall : ℕ
  pub stat_woken : ℕ
  pub tx_log_batch : Log
  pub cq_log_batch : Log

-- The loop's variables as `main` declares them
abbrev pub start_loop : {E : Type 0} → E → Memory → RingProd → RingCons → Loop E
start_loop e m tx cq = record {
  kernel_state = e;
  memory = m;
  tx = tx;
  cq = cq;
  sent = 0;
  completed = 0;
  stat_loops = 0;
  stat_stall = 0;
  stat_woken = 0;
  tx_log_batch = λ i. 0;
  cq_log_batch = λ i. 0;
}

-- `!(sent == completed && sent == total)`
abbrev pub goes_on : {E : Type 0} → ℕ → Loop E → Bool
goes_on total s = not (s.sent == s.completed && s.sent == total)

-- `tx.needs_wakeup()`
abbrev pub needs_wakeup : Memory → RingProd → Bool
needs_wakeup m tx = not (bit_and (check_flags m tx) xdp_ring_need_wakeup == 0)

module _ {E : Type 0} (k : Kernel E) (p : Profile) (batch total : ℕ) (desc : XdpDesc) where
  -- The statistics and the counters at the end of a round
  unfoldable pub track : Loop E → E → Memory → RingProd → RingCons → ℕ → ℕ → ℕ → Outcome (Loop E)
  track s e m tx cq woken sent_now comp_now = do
    stall ← (if sent_now == 0 && comp_now == 0 then count_i32 p s.stat_stall else ok s.stat_stall)
    sent ← add_u32 p s.sent sent_now
    completed ← add_u32 p s.completed comp_now
    loops ← count_i32 p s.stat_loops
    tx_log ← log_batch p s.tx_log_batch sent_now
    cq_log ← log_batch p s.cq_log_batch comp_now
    ok (record {
      kernel_state = e;
      memory = m;
      tx = tx;
      cq = cq;
      sent = sent;
      completed = completed;
      stat_loops = loops;
      stat_stall = stall;
      stat_woken = woken;
      tx_log_batch = tx_log;
      cq_log_batch = cq_log;
    })

  -- The body of the loop from the wake-up on; `comp_temp`, the count of reads that gave an entry, is
  -- the length of the list that was read.
  unfoldable pub reap : Loop E → ℕ → Memory → RingProd → Outcome (Loop E)
  reap s sent_now m tx = do
    let wakes = needs_wakeup m tx
    woken ← (if wakes then count_i32 p s.stat_woken else ok s.stat_woken)
    let under_way = s.sent + sent_now - s.completed
    let comp_batch = min (s.sent - s.completed) batch
    let m' = k.after s.kernel_state under_way wakes m
    (items, m'', cq) ←
        receive_batch u64_slot p m' (k.between s.kernel_state under_way m') s.cq comp_batch
          (suc comp_batch)
    track s (k.next s.kernel_state under_way wakes m) m'' tx cq woken sent_now (length items)

  -- The body of the loop
  unfoldable pub round : Loop E → Outcome (Loop E)
  round s = do
    let n = min (total - s.sent) batch
    (sent_now, m, tx) ←
        send_batch desc_slot p (k.before s.kernel_state (s.sent - s.completed) s.memory) s.tx n
          (repeat (suc n) desc)
    reap s sent_now m tx

  -- The loop, for at most `fuel` rounds; with `none` they were not enough.
  unfoldable pub flood : ℕ → Loop E → Outcome (Option (Loop E))
  flood zero s = ok none
  flood (suc fuel) s = if goes_on total s then (do s' ← round s; flood fuel s') else ok (some s)
