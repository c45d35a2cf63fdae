-- ===== src/Ring/Prod.antt =====
-- The operations of `RingProd` in xsk/ring.rs: user space writes the producer head.
pub mod Inv
use xdpilone.Base.{
  ℕ, ◌+◌, ◌*◌, Outcome, ok, ◌>>=◌, Profile, add_u32, sub_u32, wrapping_add, wrapping_sub, leb, ltb,
  min, bit_and, if◌then◌else◌,
}
use xdpilone.Memory.{Memory, store32}
use xdpilone.Ring.{BufIdx, RingProd, entry_addr}

-- `RingProd::fill_addr`
abbrev pub fill_addr : RingProd → BufIdx → ℕ
fill_addr r idx = entry_addr 8 r.inner idx

-- `RingProd::tx_desc`
abbrev pub tx_desc : RingProd → BufIdx → ℕ
tx_desc r idx = entry_addr 16 r.inner idx

-- `RingProd::count_free`: the count, and the ring with its refreshed view of the consumer.
unfoldable pub count_free : Profile → Memory → ℕ → RingProd → Outcome (ℕ × RingProd)
count_free p m minimum r =
    let free_entries = wrapping_sub r.cached_consumer r.cached_producer in
    if leb minimum free_entries then ok (free_entries, r) else do
      cached_consumer ← add_u32 p (m r.consumer) r.size
      free ← sub_u32 p cached_consumer r.cached_producer
      ok (free, record r { inner = record r.inner { cached_consumer = cached_consumer } })

-- `RingProd::reserve`: the count, what `idx` holds afterwards, and the ring.
unfoldable pub reserve :
    Profile → Memory → ℕ → ℕ → BufIdx → RingProd → Outcome (ℕ × BufIdx × RingProd)
reserve p m start end idx r = do
  (free, r') ← count_free p m start r
  if ltb free start then ok (0, idx, r') else do
    cached_producer ← add_u32 p r'.cached_producer (min free end)
    ok (
      min free end,
      r'.cached_producer,
      record r' { inner = record r'.inner { cached_producer = cached_producer } },
    )

-- `RingProd::cancel`
unfoldable pub cancel : Profile → ℕ → RingProd → Outcome RingProd
cancel p nb r = do
  cached_producer ← sub_u32 p r.cached_producer nb
  ok (record r { inner = record r.inner { cached_producer = cached_producer } })

-- `RingProd::submit`: only the shared producer head moves.
unfoldable pub submit : Memory → ℕ → RingProd → Memory
submit m nb r = store32 m r.producer (wrapping_add (m r.producer) nb)

-- `RingProd::count_pending`
unfoldable pub count_pending : Memory → RingProd → ℕ
count_pending m r = wrapping_sub (m r.producer) (m r.consumer)

-- `RingProd::check_flags`
abbrev pub check_flags : Memory → RingProd → ℕ
check_flags m r = m r.flags
