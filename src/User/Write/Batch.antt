-- ===== src/User/Write/Batch.antt =====
-- A whole use of a writer in xsk/user.rs: reserve, insert, commit, drop. Examples/flood.rs and
-- flood-mt.rs send and fill in this way.
use mathlib.Core.List.{append-nil}
use native.Mathlib.Decide.{dec_lt}
use xdpilone.Base.{
  ℕ, suc, ◌+◌, ◌-◌, ◌≤◌, ◌≡◌, refl, sym, subst, ap, ap₂, ◌∙◌, arith, ok, Returns, Returns-map,
  Returns-ok, ◌≢◌, Profile, List, [], ◌∷◌, ◌++◌, length, take, drop, All, min, wrapping_add, IsU32,
  IsPow2-le, false, take-min, ◌⊎◌, inl, inr,
}
use xdpilone.Memory.{Memory, Slot}
use xdpilone.Ring.{BufIdx, RingProd, SameRing}
use xdpilone.Ring.Entries.{
  entries, IsOutside, IsLaidOut, entries-same, IsOutside-same, IsLaidOut-same, IsEntry,
  IsEntry-same, IsOneOf,
}
use xdpilone.Ring.Prod.{reserve, submit}
use xdpilone.Ring.Prod.Inv.{IsProd, IsIdle, Reserved, given, reserve_lem}
use xdpilone.User.Iter.{next, reserve_iter, commit_prod}
use xdpilone.User.Write.{Writer, Inserted, start_write, insert_loop, insert, commit}
use xdpilone.User.Write.Fill.{Filled, insert_loop-Filled}

-- The entries in the kernel's hands, oldest first.
abbrev pub pending : {A : Type 0} → Slot A → Memory → RingProd → List A
pending slot m q = entries slot q.inner m (m q.consumer) (given m q)

-- What `transmit` and `fill` promise of the writer that they return.
pub record Started (m : Memory) (max : ℕ) (q : RingProd) (w : Writer) : Type 0 where
  pub all_left : w.idx.remain ≡ w.idx.buffers
  pub at_most : w.idx.buffers ≤ max
  pub fits : given m q + w.idx.buffers ≤ q.size
  pub progress : min 1 (min max (q.size - given m q)) ≤ w.idx.buffers
  pub first : 1 ≤ w.idx.buffers → w.idx.base ≡ m q.producer
  pub base_fits : IsU32 w.idx.base
  pub moved : w.queue.cached_producer ≡ wrapping_add (m q.producer) w.idx.buffers
  pub same : SameRing q.inner w.queue.inner
  pub same_map : w.queue.mmap_addr ≡ q.mmap_addr
  pub valid : IsProd m w.queue

module _ (p : Profile) (wraps : p.overflow_checks ≡ false) {m : Memory} {q : RingProd} where
  Started-Reserved :
      (max n : ℕ) (base : BufIdx) (q' : RingProd)
      → IsIdle m q
      → Reserved m 1 max 0 q n base q'
      → Started m max q
          (record { idx = record { base = base; buffers = n; remain = n }; queue = q' })
  Started-Reserved max n base q' idle r = ground (arith, IsPow2-le idle.valid.pow)

  pub start_write_lem : (max : ℕ) → IsIdle m q → Returns (start_write p m max q) (Started m max q)
  unfolding start_write reserve_iter
  start_write_lem max idle =
      let ((n, base, q'), e, r) =
        Returns-ok _ (reserve p m 1 max 0 q) (reserve_lem idle.valid p wraps 1 max 0) in
      rw e (Started-Reserved max n base q' idle r)

-- What `insert` promises in a writer that has just been started: `n` is how many of the items went
-- behind the entries that the kernel already has.
pub record Loaded {A : Type 0} (slot : Slot A) (m : Memory) (q : RingProd) (w : Writer)
    (items : List A) (out : Inserted A) : Type 0 where
  pub count : out.0 ≡ min (length items) w.idx.buffers
  pub rest : out.1 ≡ drop (suc w.idx.buffers) items
  pub contents :
      entries slot q.inner out.2 (m q.consumer) (given m q + out.0)
      ≡ pending slot m q ++ take out.0 items
  pub outside : (h : ℕ) → IsOutside slot q.inner h → out.2 h ≡ m h
  pub touched : (h : ℕ) → IsOneOf slot q.inner (m q.producer) out.0 h ⊎ (out.2 h ≡ m h)
  pub base : 1 ≤ w.idx.buffers → out.3.idx.base ≡ wrapping_add (m q.producer) out.0
  pub base_fits : IsU32 out.3.idx.base
  pub remain : out.3.idx.remain ≡ w.idx.buffers - out.0
  pub buffers : out.3.idx.buffers ≡ w.idx.buffers
  pub queue : out.3.queue ≡ w.queue

pub insert_no_room :
    {A : Type 0} (slot : Slot A) (p : Profile) (m : Memory) (w : Writer) (items : List A)
    → w.idx.remain ≡ 0
    → insert slot p m w items ≡ ok (0, drop 1 items, m, w)
unfolding insert insert_loop next
insert_no_room slot p m w [] e = refl
insert_no_room slot p m w (x ∷ items) e = ground arith

module _ {A : Type 0} (slot : Slot A) (p : Profile) {m : Memory} {q : RingProd} (idle : IsIdle m q)
    (laid : IsLaidOut slot q.inner) (max : ℕ) (w : Writer) (s : Started m max q w)
    (items : List A) where
  Loaded-none : w.idx.buffers ≡ 0 → Loaded slot m q w items (0, drop 1 items, m, w)
  Loaded-none e = record {
    count = omega arith;
    rest = rw e;
    contents =
        ap (entries slot q.inner m (m q.consumer)) {y = given m q} (omega arith)
        ∙ sym (append-nil (pending slot m q));
    outside = λ h apart. refl;
    touched = λ h. inr refl;
    base = λ h. absurd (omega arith);
    base_fits = s.base_fits;
    remain = omega (arith, s.all_left);
    buffers = refl;
    queue = refl;
  }

  same_entries :
      (m' : Memory) (first : BufIdx) (n : ℕ)
      → entries slot w.queue.inner m' first n ≡ entries slot q.inner m' first n
  same_entries = entries-same slot s.same

  Loaded-Filled :
      (out : Inserted A)
      → 1 ≤ w.idx.buffers
      → Filled slot (m q.consumer) (given m q) 0 m w items out
      → Loaded slot m q w items out
  Loaded-Filled out some_room f = record {
    count = count;
    rest = rw (← s.all_left) f.rest;
    contents =
        sym (same_entries out.2 (m q.consumer) (given m q + out.0))
        ∙ (ap (entries slot w.queue.inner out.2 (m q.consumer)) written
            ∙ (f.contents ∙ ap₂ ◌++◌ (same_entries m (m q.consumer) (given m q)) taken));
    outside = λ h apart. f.outside h (IsOutside-same slot s.same h apart);
    touched = λ h. elim (f.touched h) [
      | inl (i, lt, here) ↦ inl (
        i,
        omega (arith, f.count),
        subst (λ b. IsEntry slot q.inner b h)
            (omega (arith, idle.valid.producer_fits, idle.valid.consumer_fits))
            (IsEntry-same slot s.same _ h here),
      )
      | inr same ↦ inr same
    ];
    base = λ h. f.base ∙ omega (arith, idle.valid.producer_fits, idle.valid.consumer_fits, count);
    base_fits = omega (arith, f.base);
    remain = omega (arith, f.remain, count, s.all_left);
    buffers = f.buffers;
    queue = f.queue;
  }
    where
      count : out.0 ≡ min (length items) w.idx.buffers
      count = omega (arith, f.count, s.all_left)

      written : given m q + out.0 ≡ given m q + min (length items) w.idx.remain
      written = omega (arith, f.count)

      taken : take w.idx.remain items ≡ take out.0 items
      taken = sym (ap (λ n. take n items) (omega (arith, f.count)) ∙ take-min w.idx.remain items)

  pub insert_lem :
      All slot.IsValue items → Returns (insert slot p m w items) (Loaded slot m q w items)
  unfolding insert
  insert_lem good = elim (dec_lt 0 w.idx.buffers) [
    | yes some_room ↦ Returns-map _ _ _ (filled some_room) (λ out. Loaded-Filled out some_room)
    | no none_left ↦
        rw (insert_no_room slot p m w items (omega (arith, s.all_left))) (Loaded-none (omega arith))
  ]
    where
      filled :
          1 ≤ w.idx.buffers
          → Returns
              (insert_loop slot p 0 m w items)
              (Filled slot (m q.consumer) (given m q) 0 m w items)
      filled some_room =
          let at_base : wrapping_add (m q.consumer) (given m q) ≡ w.idx.base =
            omega (arith, s.first some_room, idle.valid.producer_fits, idle.valid.consumer_fits) in
          subst
            (λ b.
              let w' : Writer = record {
                idx = record { base = b; buffers = w.idx.buffers; remain = w.idx.remain };
                queue = w.queue;
              } in
              Returns (insert_loop slot p 0 m w' items)
                (Filled slot (m q.consumer) (given m q) 0 m w' items))
            at_base
            (insert_loop-Filled slot p w.queue (IsLaidOut-same slot s.same laid) (m q.consumer)
              idle.valid.consumer_fits w.idx.buffers items (given m q) 0 m w.idx.remain
              (omega (arith, s.all_left, s.fits, IsPow2-le idle.valid.pow))
              (omega (arith, s.all_left, s.fits, s.same.size)) good)

-- What `commit` promises: the shared head moves by the number of entries that were written.
pub record Committed (m : Memory) (w w' : Writer) (m' : Memory) : Type 0 where
  pub head : m' w.queue.producer ≡ wrapping_add (m w.queue.producer) (w.idx.buffers - w.idx.remain)
  pub frame : (h : ℕ) → h ≢ w.queue.producer → m' h ≡ m h
  pub queue : w'.queue ≡ w.queue
  pub buffers : w'.idx.buffers ≡ w.idx.remain
  pub remain : w'.idx.remain ≡ w.idx.remain
  pub base : w'.idx.base ≡ wrapping_add w.idx.base (w.idx.buffers - w.idx.remain)

pub commit_lem :
    (p : Profile) (m : Memory) (w : Writer)
    → p.overflow_checks ≡ false
    → w.idx.remain ≤ w.idx.buffers
    → IsU32 w.idx.buffers
    → IsU32 w.idx.base
    → IsU32 (m w.queue.producer)
    → Returns (commit p m w) (λ (w', m'). Committed m w w' m')
unfolding commit commit_prod submit
commit_lem p m w wraps le fits base_fits head_fits = ground arith
