-- ===== src/User/Read/Receive.antt =====
-- A whole use of a reader, as in examples/flood.rs and flood-mt.rs: what one batch does to the ring.
use native.Mathlib.Decide.{ℕ_discrete}
use xdpilone.Base.{
  ℕ, ◌+◌, ◌≤◌, ◌≡◌, ◌≢◌, ◌⊎◌, inl, inr, sym, ap, ap₂, subst, ◌∙◌, arith, Outcome, ok, ◌>>=◌,
  Returns, Returns->>=, Profile, List, ◌++◌, length, min, wrapping_add, wrapping_sub, IsPow2-le,
  false,
}
use xdpilone.Memory.{Memory, Slot}
use xdpilone.Ring.{RingCons, SameRing, SameRing-trans}
use xdpilone.Ring.Entries.{
  entries, entries-append, entries-same, entries-start, entries_agree, length-entries, IsLaidOut,
}
use xdpilone.Ring.Cons.Inv.{IsCons, IsIdle, Fills, Fills-IsCons, produced, peeked}
use xdpilone.User.Read.{Reader, start_read, release_read, drop_reader}
use xdpilone.User.Read.Batch.{
  waiting, Started, start_read_lem, read_up_to, Took, read_up_to_lem, Released, release_read_lem,
  Dropped, drop_reader_lem,
}

-- The block `{ let mut reader = device.complete(n); …reader.read()…; reader.release(); }` with at
-- most `k` calls of `read` and the drop of the reader at its end. The kernel moves from `m` to `m'`
-- while the entries are counted.
unfoldable pub receive_batch :
    {A : Type 0}
    → Slot A
    → Profile
    → Memory
    → Memory
    → RingCons
    → ℕ
    → ℕ
    → Outcome (List A × Memory × RingCons)
receive_batch slot p m m' q n k = do
  reader ← start_read p m m' n q
  let (items, reader') = read_up_to slot m' k reader
  (reader'', m'') ← release_read p m' reader'
  q' ← drop_reader p reader''
  ok (items, m'', q')

-- What a batch promises: the entries come in the order in which the kernel has produced them, and
-- those that were not read stay.
pub record Received {A : Type 0} (slot : Slot A) (m m' : Memory) (q : RingCons) (n k : ℕ)
    (items : List A) (m'' : Memory) (q' : RingCons) : Type 0 where
  pub at_most : (length items ≤ n) × (length items ≤ k)
  pub progress : min 1 (min n (min k (produced m q))) ≤ length items
  pub in_order : items ++ waiting slot m'' q' ≡ waiting slot m' q
  pub frame : (h : ℕ) → (h ≡ q.consumer) ⊎ (m'' h ≡ m' h)
  pub same : SameRing q.inner q'.inner
  pub same_map : q'.mmap_addr ≡ q.mmap_addr
  pub idle : IsIdle m'' q'

module _ {A : Type 0} (slot : Slot A) (p : Profile) (wraps : p.overflow_checks ≡ false)
    {m m' : Memory} {q : RingCons} (idle : IsIdle m q) (laid : IsLaidOut slot q.inner)
    (f : Fills q m m') (n k : ℕ) where
  Promise : List A × Memory × RingCons → Type 0
  Promise (items, m'', q') = Received slot m m' q n k items m'' q'

  module _ (r r1 r2 : Reader) (items : List A) (m2 : Memory) (s : Started m m' n q r)
      (t : Took slot m' k r items r1) (c : Released m' r1 r2 m2) where
    same_queue : r2.queue ≡ r.queue
    same_queue = c.queue ∙ t.queue

    -- What is known of the heads when the reader has read its entries and released them.
    record Handed : Type 0 where
      valid : IsCons m2 r.queue
      left : peeked m2 r.queue + min k r.idx.remain ≡ r.idx.buffers
      producer : m2 q.producer ≡ m' q.producer
      consumer : m2 q.consumer ≡ wrapping_add (m' q.consumer) (min k r.idx.remain)

    handed : Handed
    handed = ground (arith, c.frame q.producer, IsPow2-le idle.valid.pow)

    untouched : (h : ℕ) → h ≢ q.consumer → m2 h ≡ m' h
    untouched h ne = c.frame h (λ e. ne (e ∙ (ap (λ u. u.consumer) t.queue ∙ s.same.consumer)))

    drop_stage : Returns (drop_reader p r2) (Dropped m2 r2)
    drop_stage =
        drop_reader_lem p m2 r2 wraps (rw same_queue handed.valid)
          (rw same_queue (omega (arith, handed.left, c.buffers, t.remain, s.all_left)))

    module _ (q' : RingCons) (d : Dropped m2 r2 q') where
      again : SameRing r.queue.inner q'.inner
      again = subst (λ u. SameRing u.inner q'.inner) same_queue d.same

      same_ring : SameRing q.inner q'.inner
      same_ring = SameRing-trans s.same again

      returned : peeked m2 q' + r2.idx.buffers ≡ peeked m2 r.queue
      returned = d.returned ∙ ap (peeked m2) same_queue

      IsIdle-again : IsIdle m2 q'
      IsIdle-again = record {
        valid = d.valid;
        settled = omega (
          arith, returned, handed.left, c.buffers, t.remain, s.all_left,
          d.valid.cached_consumer_fits, d.valid.consumer_fits,
        );
      }

      valid : IsCons m' q
      valid = Fills-IsCons idle.valid f

      now_at : m2 q'.consumer ≡ wrapping_add (m' q.consumer) (min k r.idx.remain)
      now_at = ap m2 same_ring.consumer ∙ handed.consumer

      rest :
          waiting slot m2 q'
          ≡ entries slot q.inner m'
              (wrapping_add (m' q.consumer) (min k r.idx.remain))
              (produced m2 q')
      rest =
          entries-same slot same_ring m2 (m2 q'.consumer) (produced m2 q')
          ∙ (entries_agree slot q.inner laid.pow laid.masked m' m2 q.consumer laid.consumer_outside
                untouched (m2 q'.consumer) (produced m2 q')
              ∙ ap (λ first. entries slot q.inner m' first (produced m2 q')) now_at)

      read_items : items ≡ entries slot q.inner m' (m' q.consumer) (min k r.idx.remain)
      read_items =
          t.items
          ∙ (entries-same slot s.same m' r.idx.base (min k r.idx.remain)
              ∙ entries-start slot q.inner m' (min k r.idx.remain)
                  (λ some_read. s.first (omega (arith, s.all_left))))

      -- The entries before the loads are those that were read and those that are left.
      left_over : min k r.idx.remain + produced m2 q' ≡ produced m' q
      left_over = omega (
        arith,
        ap₂ wrapping_sub (ap m2 same_ring.producer ∙ handed.producer) now_at,
        s.present,
        s.all_left,
        valid.producer_fits,
        valid.consumer_fits,
      )

      in_order : items ++ waiting slot m2 q' ≡ waiting slot m' q
      in_order =
          ap₂ ◌++◌ read_items rest
          ∙ (sym (
                entries-append slot q.inner m' (m' q.consumer) (min k r.idx.remain) (produced m2 q')
                  valid.consumer_fits)
              ∙ ap (entries slot q.inner m' (m' q.consumer)) left_over)

      frame : (h : ℕ) → (h ≡ q.consumer) ⊎ (m2 h ≡ m' h)
      frame h = elim (ℕ_discrete h q.consumer) [ yes e ↦ inl e | no ne ↦ inr (untouched h ne) ]

      count : length items ≡ min k r.idx.remain
      count =
          ap length t.items ∙ length-entries slot r.queue.inner m' r.idx.base (min k r.idx.remain)

      Received-Dropped : Promise (items, m2, q')
      unfolding Promise
      Received-Dropped = record {
        at_most = omega (arith, s.at_most, s.all_left, count);
        progress = omega (arith, s.progress, s.all_left, count);
        in_order = in_order;
        frame = frame;
        same = same_ring;
        same_map = d.same_map ∙ (ap (λ u. u.mmap_addr) same_queue ∙ s.same_map);
        idle = IsIdle-again;
      }

  release_stage :
      (r r1 : Reader) (items : List A)
      → Started m m' n q r
      → Took slot m' k r items r1
      → Returns (release_read p m' r1) (λ (r2, m2). Released m' r1 r2 m2)
  release_stage r r1 items s t =
      let valid = Fills-IsCons idle.valid f in
      release_read_lem p m' r1 wraps (omega (arith, t.remain, t.buffers, s.all_left))
        (omega (arith, t.buffers, s.present, valid.bounded, IsPow2-le valid.pow)) t.base_fits
        (rw (t.queue, s.same.consumer) valid.consumer_fits)

  -- Where the ring is laid out as `IsLaidOut` says, in a build without overflow checks, a batch of
  -- reads returns, and does what `Received` says, whatever the kernel has added between its loads.
  pub receive_batch_lem :
      Returns
        (receive_batch slot p m m' q n k)
        λ (items, m'', q'). Received slot m m' q n k items m'' q'
  unfolding receive_batch Promise
  receive_batch_lem =
      Returns->>= (Started m m' n q) Promise (start_read p m m' n q) _
        (start_read_lem p wraps n idle f)
        λ r s.
          let (items, r1) = read_up_to slot m' k r in
          let t =
            read_up_to_lem slot m' k r.queue r.idx.base r.idx.buffers r.idx.remain s.base_fits in
          Returns->>= (λ (r2, m2). Released m' r1 r2 m2) Promise (release_read p m' r1) _
            (release_stage r r1 items s t)
            λ (r2, m2) c.
              Returns->>= (Dropped m2 r2) Promise (drop_reader p r2) _
                (drop_stage r r1 r2 items m2 s t c) (Received-Dropped r r1 r2 items m2 s t c)
