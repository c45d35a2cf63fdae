-- ===== src/User/Iter.antt =====
-- `BufIdxIter` of xsk/user.rs: the positions that were reserved or peeked at, handed out one by one.
use xdpilone.Base.{
  ℕ, zero, suc, Outcome, ok, ◌>>=◌, Profile, add_u32, sub_u32, wrapping_add, ltb, Option, none,
  some, if◌then◌else◌,
}
use xdpilone.Memory.{Memory}
use xdpilone.Ring.{BufIdx, RingProd, RingCons}
use xdpilone.Ring.Prod.{reserve, submit}
use xdpilone.Ring.Cons.{peek, release}

-- `struct BufIdxIter`
pub record BufIdxIter : Type 0 where
  pub base : BufIdx
  pub buffers : ℕ
  pub remain : ℕ

-- `Iterator::next`: with `none` the iterator is left as it was.
abbrev pub next_at : ℕ → BufIdxIter → Option (BufIdx × BufIdxIter)
next_at zero it = none
next_at (suc remain) it =
    some (it.base, record it { base = wrapping_add it.base 1; remain = remain })

unfoldable pub next : BufIdxIter → Option (BufIdx × BufIdxIter)
next it = next_at it.remain it

-- `BufIdxIter::peek`; the two memories are those of the loads in `count_available`.
unfoldable pub peek_iter :
    Profile → Memory → Memory → ℕ → RingCons → Outcome (BufIdxIter × RingCons)
peek_iter p m m' n queue = do
  (buffers, base, queue') ← peek p m m' 1 n 0 queue
  ok (record { base = base; buffers = buffers; remain = buffers }, queue')

-- `BufIdxIter::reserve`
unfoldable pub reserve_iter : Profile → Memory → ℕ → RingProd → Outcome (BufIdxIter × RingProd)
reserve_iter p m n queue = do
  (buffers, base, queue') ← reserve p m 1 n 0 queue
  ok (record { base = base; buffers = buffers; remain = buffers }, queue')

-- The arithmetic that `commit_prod` and `release_cons` share: the number of entries to hand over,
-- and the iterator afterwards.
abbrev pub settle : Profile → BufIdxIter → Outcome (ℕ × BufIdxIter)
settle p it = do
  count ← sub_u32 p it.buffers it.remain
  buffers ← sub_u32 p it.buffers count
  base ← add_u32 p it.base count
  ok (count, record it { base = base; buffers = buffers })

-- `BufIdxIter::commit_prod`: of the queue only the shared producer head changes.
unfoldable pub commit_prod :
    Profile → Memory → RingProd → BufIdxIter → Outcome (BufIdxIter × Memory)
commit_prod p m queue it =
    if ltb 0 it.buffers
    then (do (count, it') ← settle p it; ok (it', submit m count queue))
    else ok (it, m)

-- `BufIdxIter::release_cons`: of the queue only the shared consumer head changes.
unfoldable pub release_cons :
    Profile → Memory → RingCons → BufIdxIter → Outcome (BufIdxIter × Memory)
release_cons p m queue it =
    if ltb 0 it.buffers
    then (do (count, it') ← settle p it; ok (it', release m count queue))
    else ok (it, m)
