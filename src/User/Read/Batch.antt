-- ===== src/User/Read/Batch.antt =====
-- A whole use of a reader in xsk/user.rs: peek, read, release, drop, as in the loops of
-- examples/flood.rs and flood-mt.rs, while the kernel fills the ring.
use xdpilone.Base.{
  ℕ, zero, suc, ◌+◌, ◌-◌, ◌≤◌, ◌≡◌, ◌≢◌, refl, sym, ap, ◌∙◌, arith, Returns, Returns-ok, Profile,
  List, [], ◌∷◌, min, wrapping_add, IsU32, IsPow2-le, false, none, some,
}
use xdpilone.Memory.{Memory, Slot}
use xdpilone.Ring.{BufIdx, RingCons, SameRing, entry_addr}
use xdpilone.Ring.Entries.{entries}
use xdpilone.Ring.Cons.{peek, release, cancel}
use xdpilone.Ring.Cons.Inv.{
  IsCons, IsIdle, Fills, Peeked, produced, peeked, peek_lem, cancel-IsCons,
}
use xdpilone.User.Iter.{next, peek_iter, release_cons}
use xdpilone.User.Read.{Reader, start_read, read, release_read, drop_reader}

-- The entries that the kernel has produced and user space has not released, oldest first.
abbrev pub waiting : {A : Type 0} → Slot A → Memory → RingCons → List A
waiting slot m q = entries slot q.inner m (m q.consumer) (produced m q)

-- What `receive` and `complete` promise of the reader that they return; the kernel has moved from
-- `m` to `m'` meanwhile.
pub record Started (m m' : Memory) (max : ℕ) (q : RingCons) (r : Reader) : Type 0 where
  pub all_left : r.idx.remain ≡ r.idx.buffers
  pub at_most : r.idx.buffers ≤ max
  pub present : r.idx.buffers ≤ produced m' q
  pub progress : min 1 (min max (produced m q)) ≤ r.idx.buffers
  pub first : 1 ≤ r.idx.buffers → r.idx.base ≡ m' q.consumer
  pub base_fits : IsU32 r.idx.base
  pub moved : r.queue.cached_consumer ≡ wrapping_add (m' q.consumer) r.idx.buffers
  pub same : SameRing q.inner r.queue.inner
  pub same_map : r.queue.mmap_addr ≡ q.mmap_addr
  pub valid : IsCons m' r.queue

module _ (p : Profile) (wraps : p.overflow_checks ≡ false) {m m' : Memory} {q : RingCons} where
  Started-Peeked :
      (max n : ℕ) (base : BufIdx) (q' : RingCons)
      → IsIdle m q
      → Fills q m m'
      → Peeked m m' 1 max 0 q n base q'
      → Started m m' max q
          (record { idx = record { base = base; buffers = n; remain = n }; queue = q' })
  Started-Peeked max n base q' idle f r = ground (arith, IsPow2-le idle.valid.pow)

  pub start_read_lem :
      (max : ℕ) → IsIdle m q → Fills q m m' → Returns (start_read p m m' max q) (Started m m' max q)
  unfolding start_read peek_iter
  start_read_lem max idle f =
      let ((n, base, q'), e, r) =
        Returns-ok _ (peek p m m' 1 max 0 q) (peek_lem idle.valid f p wraps 1 max 0) in
      rw e (Started-Peeked max n base q' idle f r)

module _ {A : Type 0} (slot : Slot A) (m : Memory) where
  -- The first `k` calls of `read`, or those before the first `None`: `reader.by_ref().take(k)`, and
  -- `while reader.read().is_some()` where `k` is above the capacity.
  unfoldable pub read_up_to : ℕ → Reader → List A × Reader
  read_up_to zero r = ([], r)
  read_up_to (suc k) r = elim (read slot m r) [
    | none ↦ ([], r)
    | some (x, r') ↦ let (xs, r'') = read_up_to k r' in (x ∷ xs, r'')
  ]

  -- What the calls promise: the entries at the iterator's positions, in order.
  pub record Took (k : ℕ) (r : Reader) (xs : List A) (r' : Reader) : Type 0 where
    pub items : xs ≡ entries slot r.queue.inner m r.idx.base (min k r.idx.remain)
    pub remain : r'.idx.remain ≡ r.idx.remain - min k r.idx.remain
    pub buffers : r'.idx.buffers ≡ r.idx.buffers
    pub base_fits : IsU32 r'.idx.base
    pub queue : r'.queue ≡ r.queue

  Took-none : (k : ℕ) (r : Reader) → IsU32 r.idx.base → min k r.idx.remain ≡ 0 → Took k r [] r
  Took-none k r fits stop = record {
    items = ap (entries slot r.queue.inner m r.idx.base) {x = 0} (sym stop);
    remain = omega arith;
    buffers = refl;
    base_fits = fits;
    queue = refl;
  }

  pub read_up_to_lem :
      (k : ℕ) (queue : RingCons) (base : BufIdx) (buffers remain : ℕ)
      → IsU32 base
      → let r : Reader = record {
        idx = record { base = base; buffers = buffers; remain = remain };
        queue = queue;
      } in
        let (xs, r') = read_up_to k r in Took k r xs r'
  unfolding read_up_to read next
  read_up_to_lem zero queue base buffers remain fits = Took-none zero _ fits (omega arith)
  read_up_to_lem (suc k) queue base buffers zero fits = Took-none (suc k) _ fits (omega arith)
  read_up_to_lem (suc k) queue base buffers (suc remain) fits =
      let t = read_up_to_lem k queue (wrapping_add base 1) buffers remain (omega arith) in
      record {
        items =
            ap (λ xs. slot.load m (entry_addr slot.bytes queue.inner base) ∷ xs) t.items
            ∙ ap (entries slot queue.inner m base) one_more;
        remain = omega (arith, t.remain);
        buffers = t.buffers;
        base_fits = t.base_fits;
        queue = t.queue;
      }
    where
      one_more : suc (min k remain) ≡ min (suc k) (suc remain)
      one_more = omega arith

-- What `release` promises: the shared head moves by the number of entries that were read.
pub record Released (m : Memory) (r r' : Reader) (m' : Memory) : Type 0 where
  pub head : m' r.queue.consumer ≡ wrapping_add (m r.queue.consumer) (r.idx.buffers - r.idx.remain)
  pub frame : (h : ℕ) → h ≢ r.queue.consumer → m' h ≡ m h
  pub queue : r'.queue ≡ r.queue
  pub buffers : r'.idx.buffers ≡ r.idx.remain
  pub remain : r'.idx.remain ≡ r.idx.remain
  pub base : r'.idx.base ≡ wrapping_add r.idx.base (r.idx.buffers - r.idx.remain)

pub release_read_lem :
    (p : Profile) (m : Memory) (r : Reader)
    → p.overflow_checks ≡ false
    → r.idx.remain ≤ r.idx.buffers
    → IsU32 r.idx.buffers
    → IsU32 r.idx.base
    → IsU32 (m r.queue.consumer)
    → Returns (release_read p m r) (λ (r', m'). Released m r r' m')
unfolding release_read release_cons release
release_read_lem p m r wraps le fits base_fits head_fits = ground arith

-- What the drop of a reader promises: what was not released is no longer peeked at.
pub record Dropped (m : Memory) (r : Reader) (q' : RingCons) : Type 0 where
  pub valid : IsCons m q'
  pub returned : peeked m q' + r.idx.buffers ≡ peeked m r.queue
  pub same : SameRing r.queue.inner q'.inner
  pub same_map : q'.mmap_addr ≡ r.queue.mmap_addr

pub drop_reader_lem :
    (p : Profile) (m : Memory) (r : Reader)
    → p.overflow_checks ≡ false
    → IsCons m r.queue
    → r.idx.buffers ≤ peeked m r.queue
    → Returns (drop_reader p r) (Dropped m r)
unfolding drop_reader cancel
drop_reader_lem p m r wraps v h = ground (arith, cancel-IsCons v p wraps r.idx.buffers h)
