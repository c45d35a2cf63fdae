-- ===== src/User/Read.antt =====
-- `ReadComplete` and `ReadRx` of xsk/user.rs: as in `Write`, one code over two types of entries.
pub mod Batch
pub mod Receive
pub mod Again
pub mod Stream
use xdpilone.Base.{
  ℕ, Outcome, ok, ◌>>=◌, Profile, ◌==◌, Bool, not, Option, none, some, List, [], ◌∷◌, if◌then◌else◌,
}
use xdpilone.Memory.{Memory, Slot}
use xdpilone.Ring.{BufIdx, RingCons, entry_addr}
use xdpilone.Ring.Cons.{cancel}
use xdpilone.User.Iter.{BufIdxIter, next, peek_iter, release_cons}

-- `struct ReadComplete` and `struct ReadRx`
pub record Reader : Type 0 where
  pub idx : BufIdxIter
  pub queue : RingCons

-- `DeviceQueue::complete` and `RingRx::receive`: a reader of at most `n` entries.
unfoldable pub start_read : Profile → Memory → Memory → ℕ → RingCons → Outcome Reader
start_read p m m' n queue = do
  (idx, queue') ← peek_iter p m m' n queue
  ok (record { idx = idx; queue = queue' })

-- `capacity`
abbrev pub capacity : Reader → ℕ
capacity r = r.idx.buffers

module _ {A : Type 0} (slot : Slot A) (m : Memory) where
  -- The entry that an advanced iterator names.
  abbrev read_at : Reader → Option (BufIdx × BufIdxIter) → Option (A × Reader)
  read_at r none = none
  read_at r (some (bufidx, idx)) =
      some (slot.load m (entry_addr slot.bytes r.queue.inner bufidx), record r { idx = idx })

  -- `read`, and `Iterator::next`, of `ReadComplete` and `ReadRx`
  unfoldable pub read : Reader → Option (A × Reader)
  read r = read_at r (next r.idx)

-- `release`
unfoldable pub release_read : Profile → Memory → Reader → Outcome (Reader × Memory)
release_read p m r = do (idx, m') ← release_cons p m r.queue r.idx; ok (record r { idx = idx }, m')

-- `Drop` of both: the queue, with what was not released rolled back.
unfoldable pub drop_reader : Profile → Reader → Outcome RingCons
drop_reader p r = if not (r.idx.buffers == 0) then cancel p r.idx.buffers r.queue else ok r.queue
