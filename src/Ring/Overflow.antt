-- ===== src/Ring/Overflow.antt =====
-- Builds with overflow checks. The positions of xsk/ring.rs are meant to wrap at 2 ^ 32, but some of
-- the additions and subtractions are the plain ones, which panic there.
use xdpilone.Base.{ℕ, ◌+◌, ◌^◌, ◌≤◌, ◌<◌, ◌≡◌, arith, panic, Profile, true, wrapping_sub, min}
use xdpilone.Memory.{Memory}
use xdpilone.Ring.{BufIdx, RingProd, RingCons}
use xdpilone.Ring.Prod.{count_free, reserve}
use xdpilone.Ring.Cons.{count_available, peek}

-- With overflow checks, `reserve` panics wherever it has to look at the shared consumer head and
-- that is within a ring's size of 2 ^ 32, also if the whole ring is free.
pub reserve_panics :
    (p : Profile) (m : Memory) (start end : ℕ) (idx : BufIdx) (q : RingProd)
    → p.overflow_checks ≡ true
    → wrapping_sub q.cached_consumer q.cached_producer < start
    → 2 ^ 32 ≤ m q.consumer + q.size
    → reserve p m start end idx q ≡ panic
unfolding reserve count_free
reserve_panics p m start end idx q checks few near = ground arith

-- With overflow checks, `peek` panics wherever the entries that it would hand out end at 2 ^ 32 or
-- beyond.
pub peek_panics :
    (p : Profile) (m m' : Memory) (start end : ℕ) (idx : BufIdx) (q : RingCons)
    → p.overflow_checks ≡ true
    → start ≤ (count_available m m' start q).0
    → 2 ^ 32 ≤ q.cached_consumer + min (count_available m m' start q).0 end
    → peek p m m' start end idx q ≡ panic
unfolding peek count_available
peek_panics p m m' start end idx q checks enough near = ground arith
