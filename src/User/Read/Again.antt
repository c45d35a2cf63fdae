-- ===== src/User/Read/Again.antt =====
-- A reader that is used again after a release, which examples/flood.rs never does.
use xdpilone.Base.{
  ℕ, suc, ◌-◌, ◌≤◌, ◌<◌, ◌≡◌, ap, ap₂, ◌∙◌, arith, Outcome, ok, ◌>>=◌, Returns, Returns->>=,
  Profile, false, wrapping_add, IsU32, IsPow2, IsPow2-le, Option, some,
}
use xdpilone.Memory.{Memory, Slot}
use xdpilone.Ring.Entries.{address}
use xdpilone.User.Iter.{next}
use xdpilone.User.Read.{Reader, read, release_read}
use xdpilone.User.Read.Batch.{Released, release_read_lem}

-- A reader that has read `buffers - remain` entries from the shared head on, and has some left.
pub record InUse (m : Memory) (r : Reader) : Type 0 where
  pub pow : IsPow2 r.queue.size
  pub more : 1 ≤ r.idx.remain
  pub some_read : r.idx.remain < r.idx.buffers
  pub fits : r.idx.buffers ≤ r.queue.size
  pub head_fits : IsU32 (m r.queue.consumer)
  pub base : r.idx.base ≡ wrapping_add (m r.queue.consumer) (r.idx.buffers - r.idx.remain)

module _ {A : Type 0} (slot : Slot A) where
  -- `reader.release(); reader.read()`, with the memory between the two.
  unfoldable pub release_and_read :
      Profile → Memory → Reader → Outcome (Memory × Option (A × Reader))
  release_and_read p m r = do (r', m') ← release_read p m r; ok (m', read slot m' r')

  -- The entry that is read is not the one at the shared head, but one further on by the number of
  -- entries that the release has handed back.
  pub record Skipped (r : Reader) (m' : Memory) (got : Option (A × Reader)) : Type 0 where
    pub next_reader : Reader
    pub place :
        got
        ≡ some (
          slot.load m' (
              address slot r.queue.inner
                (wrapping_add (m' r.queue.consumer) (r.idx.buffers - r.idx.remain))),
          next_reader,
        )

  read-suc :
      (m : Memory) (r : Reader) (remain : ℕ)
      → r.idx.remain ≡ suc remain
      → (r' : Reader) × (read slot m r
          ≡ some (slot.load m (address slot r.queue.inner r.idx.base), r'))
  unfolding read next
  read-suc m r remain e = (
    record r { idx = record r.idx { base = wrapping_add r.idx.base 1; remain = remain } },
    ground arith,
  )

  -- In a build without overflow checks: after a release of some entries, a read from what is left
  -- of the same reader passes over as many entries as were released.
  pub release_and_read_lem :
      (p : Profile) (m : Memory) (r : Reader)
      → p.overflow_checks ≡ false
      → InUse m r
      → Returns (release_and_read p m r) (λ (m', got). Skipped r m' got)
  unfolding release_and_read
  release_and_read_lem p m r wraps u =
      Returns->>= (λ (r', m'). Released m r r' m') (λ (m', got). Skipped r m' got)
        (release_read p m r) _
        (release_read_lem p m r wraps (omega arith) (omega (arith, u.fits, IsPow2-le u.pow))
          (omega (arith, u.base)) u.head_fits)
        λ (r', m') c.
          let (r'', e) = read-suc m' r' (r.idx.remain - 1) (omega (arith, c.remain, u.more)) in
          record {
            next_reader = r'';
            place =
                e
                ∙ ap₂ (λ q b. some (slot.load m' (address slot q b), r''))
                    (ap (λ q. q.inner) c.queue) (omega (arith, c.base, c.head, u.base));
          }
