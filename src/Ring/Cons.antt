-- ===== src/Ring/Cons.antt =====
-- The operations of `RingCons` in xsk/ring.rs: the kernel writes the producer head.
pub mod Inv
use xdpilone.Base.{
  ℕ, ◌+◌, ◌*◌, Outcome, ok, ◌>>=◌, Profile, add_u32, sub_u32, wrapping_add, wrapping_sub, leb, ltb,
  min, bit_and, if◌then◌else◌,
}
use xdpilone.Memory.{Memory, store32}
use xdpilone.Ring.{BufIdx, RingCons, entry_addr}

-- `RingCons::comp_addr`
abbrev pub comp_addr : RingCons → BufIdx → ℕ
comp_addr r idx = entry_addr 8 r.inner idx

-- `RingCons::rx_desc`
abbrev pub rx_desc : RingCons → BufIdx → ℕ
rx_desc r idx = entry_addr 16 r.inner idx

-- `RingCons::count_available`. The kernel may move the producer head between the two loads: `m` is
-- the memory at the relaxed load, `m'` the memory at the acquire load.
unfoldable pub count_available : Memory → Memory → ℕ → RingCons → ℕ × RingCons
count_available m m' expected r =
    let available = wrapping_sub r.cached_producer r.cached_consumer in
    if ltb available expected
    then (
      wrapping_sub (m r.producer) r.cached_consumer,
      record r { inner = record r.inner { cached_producer = m' r.producer } },
    )
    else (available, r)

-- `RingCons::count_pending`
unfoldable pub count_pending : Memory → RingCons → ℕ
count_pending m r = wrapping_sub (m r.producer) (m r.consumer)

-- `RingCons::peek`: the count, what `idx` holds afterwards, and the ring.
unfoldable pub peek :
    Profile → Memory → Memory → ℕ → ℕ → BufIdx → RingCons → Outcome (ℕ × BufIdx × RingCons)
peek p m m' start end idx r =
    let (count, r') = count_available m m' start r in
    if ltb count start then ok (0, idx, r') else do
      cached_consumer ← add_u32 p r'.cached_consumer (min count end)
      ok (
        min count end,
        r'.cached_consumer,
        record r' { inner = record r'.inner { cached_consumer = cached_consumer } },
      )

-- `RingCons::cancel`
unfoldable pub cancel : Profile → ℕ → RingCons → Outcome RingCons
cancel p nb r = do
  cached_consumer ← sub_u32 p r.cached_consumer nb
  ok (record r { inner = record r.inner { cached_consumer = cached_consumer } })

-- `RingCons::release`: only the shared consumer head moves.
unfoldable pub release : Memory → ℕ → RingCons → Memory
release m nb r = store32 m r.consumer (wrapping_add (m r.consumer) nb)

-- `RingCons::check_flags`
abbrev pub check_flags : Memory → RingCons → ℕ
check_flags m r = m r.flags
