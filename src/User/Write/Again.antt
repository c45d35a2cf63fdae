-- ===== src/User/Write/Again.antt =====
-- A writer that is used again after a commit, which examples/flood.rs never does.
use xdpilone.Base.{
  ℕ, suc, ◌-◌, ◌≤◌, ◌<◌, ◌≡◌, ap, ap₂, ◌∙◌, arith, Outcome, ok, ◌>>=◌, Returns, Returns->>=,
  Profile, Bool, true, false, wrapping_add, IsU32, IsPow2-le,
}
use xdpilone.Memory.{Memory, Slot, load-store_apart}
use xdpilone.Ring.{BufIdx}
use xdpilone.Ring.Entries.{address, address_apart, IsLaidOut}
use xdpilone.User.Iter.{next}
use xdpilone.User.Write.{Writer, insert_once, insert, insert_loop, commit}
use xdpilone.User.Write.Batch.{Committed, commit_lem}

module _ {A : Type 0} (slot : Slot A) where
  -- A writer that has written `buffers - remain` entries behind the shared head, and has some left.
  pub record InUse (m : Memory) (w : Writer) : Type 0 where
    pub laid : IsLaidOut slot w.queue.inner
    pub written : w.idx.remain < w.idx.buffers
    pub more : 1 ≤ w.idx.remain
    pub fits : w.idx.buffers ≤ w.queue.size
    pub head_fits : IsU32 (m w.queue.producer)
    pub base : w.idx.base ≡ wrapping_add (m w.queue.producer) (w.idx.buffers - w.idx.remain)

  -- `writer.commit(); writer.insert_once(nr)`, with the memory between the two.
  unfoldable pub commit_insert :
      Profile → Memory → Writer → A → Outcome (Memory × Bool × Memory × Writer)
  commit_insert p m w nr = do
    (w', m') ← commit p m w
    (inserted, m'', w'') ← insert_once slot p m' w' nr
    ok (m', inserted, m'', w'')

  -- The new entry is not at the shared head, but further on by the number of entries that the
  -- commit has handed over; the entry at the head, which the next commit hands over, is as before.
  pub record Misplaced (w : Writer) (nr : A) (m' : Memory) (inserted : Bool) (m'' : Memory)
      : Type 0 where
    pub reported : inserted ≡ true
    pub place :
        m''
        ≡ slot.store m'
            (address slot w.queue.inner
              (wrapping_add (m' w.queue.producer) (w.idx.buffers - w.idx.remain)))
            nr
    pub stale :
        slot.load m'' (address slot w.queue.inner (m' w.queue.producer))
        ≡ slot.load m' (address slot w.queue.inner (m' w.queue.producer))

  insert_once-suc :
      (p : Profile) (m : Memory) (w : Writer) (nr : A) (remain : ℕ)
      → w.idx.remain ≡ suc remain
      → Returns (insert_once slot p m w nr) λ (inserted, m', w').
        (inserted ≡ true) × (m' ≡ slot.store m (address slot w.queue.inner w.idx.base) nr)
  unfolding insert_once insert insert_loop next
  insert_once-suc p m w nr remain e = ground arith

  module _ (m m' : Memory) (w w' : Writer) (nr : A) (u : InUse m w) (c : Committed m w w' m') where
    ahead : BufIdx
    ahead = wrapping_add (m' w.queue.producer) (w.idx.buffers - w.idx.remain)

    Misplaced_lem :
        (inserted : Bool) (m'' : Memory)
        → inserted ≡ true
        → m'' ≡ slot.store m' (address slot w'.queue.inner w'.idx.base) nr
        → Misplaced w nr m' inserted m''
    unfolding ahead
    Misplaced_lem inserted m'' done e = record {
      reported = done;
      place = place;
      stale =
          ap (λ n. slot.load n (address slot w.queue.inner (m' w.queue.producer))) place
          ∙ load-store_apart slot m' (address slot w.queue.inner ahead) nr
              (address slot w.queue.inner (m' w.queue.producer))
              (address_apart slot w.queue.inner u.laid.pow u.laid.masked (m' w.queue.producer)
                (w.idx.buffers - w.idx.remain) (omega (arith, u.written))
                (omega (arith, u.written, u.more, u.fits)));
    }
      where
        base : w'.idx.base ≡ ahead
        base = omega (arith, c.base, c.head, u.base)

        place : m'' ≡ slot.store m' (address slot w.queue.inner ahead) nr
        place =
            e ∙ ap₂ (λ q b. slot.store m' (address slot q b) nr) (ap (λ q. q.inner) c.queue) base

  -- In a build without overflow checks: after a commit of some entries, an insertion into what is
  -- left of the same writer reports success, but writes past the place at the shared head.
  pub commit_insert_lem :
      (p : Profile) (m : Memory) (w : Writer) (nr : A)
      → p.overflow_checks ≡ false
      → InUse m w
      → Returns
          (commit_insert p m w nr)
          (λ (m', inserted, m'', w''). Misplaced w nr m' inserted m'')
  unfolding commit_insert
  commit_insert_lem p m w nr wraps u =
      Returns->>= (λ (w', m'). Committed m w w' m')
        (λ (m', inserted, m'', w''). Misplaced w nr m' inserted m'') (commit p m w) _
        (commit_lem p m w wraps (omega arith) (omega (arith, u.fits, IsPow2-le u.laid.pow))
          (omega (arith, u.base)) u.head_fits)
        λ (w', m') c.
          Returns->>=
            (λ (inserted, m'', w'').
              (inserted ≡ true)
              × (m'' ≡ slot.store m' (address slot w'.queue.inner w'.idx.base) nr))
            (λ (m', inserted, m'', w''). Misplaced w nr m' inserted m'')
            (insert_once slot p m' w' nr) _
            (insert_once-suc p m' w' nr (w.idx.remain - 1) (omega (arith, c.remain, u.more)))
            λ (inserted, m'', w'') (done, e). Misplaced_lem m m' w w' nr u c inserted m'' done e
