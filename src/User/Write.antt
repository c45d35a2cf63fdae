-- ===== src/User/Write.antt =====
-- `WriteFill` and `WriteTx` of xsk/user.rs. The two are the same code over entries of two types, so
-- the operations take the type's `Slot`: `u64_slot` for the fill ring, `desc_slot` for transmission.
pub mod Fill
pub mod Batch
pub mod Send
pub mod Again
pub mod Stream
use xdpilone.Base.{
  ℕ, ◌+◌, Outcome, ok, panic, ◌>>=◌, Profile, add_u32, ltb, ◌==◌, Bool, not, Option, none, some,
  List, [], ◌∷◌, if◌then◌else◌,
}
use xdpilone.Memory.{Memory, Slot, u64_slot}
use xdpilone.Xdp.{XdpDesc, desc_slot}
use xdpilone.Ring.{BufIdx, RingProd, entry_addr}
use xdpilone.Ring.Prod.{cancel}
use xdpilone.User.Iter.{BufIdxIter, next, reserve_iter, commit_prod}

-- `struct WriteFill` and `struct WriteTx`
pub record Writer : Type 0 where
  pub idx : BufIdxIter
  pub queue : RingProd

-- `DeviceQueue::fill` and `RingTx::transmit`: a writer of at most `max` entries.
unfoldable pub start_write : Profile → Memory → ℕ → RingProd → Outcome Writer
start_write p m max queue = do
  (idx, queue') ← reserve_iter p m max queue
  ok (record { idx = idx; queue = queue' })

-- `capacity`
abbrev pub capacity : Writer → ℕ
capacity w = w.idx.buffers

-- What `insert` leaves: the count, the items that were not taken from the iterator, the memory and
-- the writer.
abbrev pub Inserted : Type 0 → Type 0
Inserted A = ℕ × List A × Memory × Writer

module _ {A : Type 0} (slot : Slot A) (p : Profile) where
  -- The body of the loop for one item: `zip` has already taken it from the iterator.
  abbrev pub insert_step :
      ℕ
      → Memory
      → Writer
      → A
      → Option (BufIdx × BufIdxIter)
      → Outcome (Option (ℕ × Memory × Writer))
  insert_step n m w item none = ok none
  insert_step n m w item (some (bufidx, idx)) = do
    n' ← add_u32 p n 1
    ok (
        some (
          n',
          slot.store m (entry_addr slot.bytes w.queue.inner bufidx) item,
          record w { idx = idx },
        ))

  -- The loop `for (item, bufidx) in it.zip(self.idx.by_ref())`, with `n` items inserted.
  unfoldable pub insert_loop : ℕ → Memory → Writer → List A → Outcome (Inserted A)
  insert_loop n m w [] = ok (n, [], m, w)
  insert_loop n m w (item ∷ it) = elim (insert_step n m w item (next w.idx)) [
    | ok (some (n', m', w')) ↦ insert_loop n' m' w' it
    | ok none ↦ ok (n, it, m, w)
    | panic ↦ panic
  ]

  -- `WriteFill::insert` and `WriteTx::insert`
  unfoldable pub insert : Memory → Writer → List A → Outcome (Inserted A)
  unfolding insert_loop
  insert m w it = insert_loop 0 m w it

  -- `WriteFill::insert_once` and `WriteTx::insert_once`
  unfoldable pub insert_once : Memory → Writer → A → Outcome (Bool × Memory × Writer)
  unfolding insert
  insert_once m w nr = do (n, rest, m', w') ← insert m w (nr ∷ []); ok (ltb 0 n, m', w')

-- `WriteFill::commit` and `WriteTx::commit`
unfoldable pub commit : Profile → Memory → Writer → Outcome (Writer × Memory)
commit p m w = do (idx, m') ← commit_prod p m w.queue w.idx; ok (record w { idx = idx }, m')

-- `Drop` of both: the queue, with what was not committed rolled back.
unfoldable pub drop_writer : Profile → Writer → Outcome RingProd
drop_writer p w = if not (w.idx.buffers == 0) then cancel p w.idx.buffers w.queue else ok w.queue
