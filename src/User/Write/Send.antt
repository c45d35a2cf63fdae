-- ===== src/User/Write/Send.antt =====
-- A whole use of a writer, as in examples/flood.rs and flood-mt.rs: what one batch does to the ring.
use native.Mathlib.Decide.{ℕ_discrete}
use xdpilone.Base.{
  ℕ, ◌+◌, ◌-◌, ◌≤◌, ◌≡◌, ◌≢◌, ◌⊎◌, inl, inr, ap, ap₂, ◌∙◌, arith, Outcome, ok, ◌>>=◌, Returns,
  Returns->>=, subst, Profile, List, ◌++◌, length, take, All, min, wrapping_sub, IsPow2-le, false,
}
use xdpilone.Memory.{Memory, Slot}
use xdpilone.Ring.{RingProd, SameRing, SameRing-trans}
use xdpilone.Ring.Entries.{entries, entries-same, entries_agree, IsOneOf, IsLaidOut}
use xdpilone.Ring.Prod.{cancel}
use xdpilone.Ring.Prod.Inv.{IsProd, IsIdle, given, in_flight, cancel-IsProd}
use xdpilone.User.Write.{Writer, start_write, insert, commit, drop_writer}
use xdpilone.User.Write.Batch.{
  pending, Started, start_write_lem, Loaded, insert_lem, Committed, commit_lem,
}

-- The block `{ let mut writer = tx.transmit(n); sent = writer.insert(bufs); writer.commit(); }`,
-- with the drop of the writer at its end.
unfoldable pub send_batch :
    {A : Type 0}
    → Slot A
    → Profile
    → Memory
    → RingProd
    → ℕ
    → List A
    → Outcome (ℕ × Memory × RingProd)
send_batch slot p m q n bufs = do
  writer ← start_write p m n q
  (sent, rest, m', writer') ← insert slot p m writer bufs
  (writer'', m'') ← commit p m' writer'
  q' ← drop_writer p writer''
  ok (sent, m'', q')

-- What a batch promises.
pub record Sent {A : Type 0} (slot : Slot A) (m : Memory) (q : RingProd) (n : ℕ) (bufs : List A)
    (sent : ℕ) (m' : Memory) (q' : RingProd) : Type 0 where
  pub at_most : (sent ≤ n) × (sent ≤ length bufs) × (given m q + sent ≤ q.size)
  pub progress : min 1 (min n (min (length bufs) (q.size - given m q))) ≤ sent
  pub queued : pending slot m' q' ≡ pending slot m q ++ take sent bufs
  pub frame : (h : ℕ) → (h ≡ q.producer) ⊎ IsOneOf slot q.inner (m q.producer) sent h ⊎ (m' h ≡ m h)
  pub same : SameRing q.inner q'.inner
  pub same_map : q'.mmap_addr ≡ q.mmap_addr
  pub idle : IsIdle m' q'

-- What the drop of a writer promises: what was not committed is no longer reserved.
pub record Dropped (m : Memory) (w : Writer) (q' : RingProd) : Type 0 where
  pub valid : IsProd m q'
  pub returned : in_flight m q' + w.idx.buffers ≡ in_flight m w.queue
  pub same : SameRing w.queue.inner q'.inner
  pub same_map : q'.mmap_addr ≡ w.queue.mmap_addr

pub drop_writer_lem :
    (p : Profile) (m : Memory) (w : Writer)
    → p.overflow_checks ≡ false
    → IsProd m w.queue
    → given m w.queue + w.idx.buffers ≤ in_flight m w.queue
    → Returns (drop_writer p w) (Dropped m w)
unfolding drop_writer cancel
drop_writer_lem p m w wraps v h = ground (arith, cancel-IsProd v p wraps w.idx.buffers h)

module _ {A : Type 0} (slot : Slot A) (p : Profile) (wraps : p.overflow_checks ≡ false) {m : Memory}
    {q : RingProd} (idle : IsIdle m q) (laid : IsLaidOut slot q.inner) (n : ℕ) (bufs : List A) where
  -- What is known of the heads when the writer `w` has inserted `k` items and committed.
  record Handed (w : Writer) (k : ℕ) (m' : Memory) : Type 0 where
    valid : IsProd m' w.queue
    reserved : in_flight m' w.queue ≡ given m q + w.idx.buffers
    handed : given m' w.queue ≡ given m q + k
    consumer : m' q.consumer ≡ m q.consumer

  Handed_lem :
      (w w1 w2 : Writer) (k : ℕ) (rest : List A) (m1 m2 : Memory)
      → Started m n q w
      → Loaded slot m q w bufs (k, rest, m1, w1)
      → Committed m1 w1 w2 m2
      → Handed w k m2
  Handed_lem w w1 w2 k rest m1 m2 s l c = ground (
    arith,
    l.outside q.producer laid.producer_outside,
    l.outside q.consumer laid.consumer_outside,
    c.frame q.consumer,
    IsPow2-le idle.valid.pow,
  )

  Promise : ℕ × Memory × RingProd → Type 0
  Promise (sent, m', q') = Sent slot m q n bufs sent m' q'

  commit_stage :
      (w w1 : Writer) (k : ℕ) (rest : List A) (m1 : Memory)
      → Started m n q w
      → Loaded slot m q w bufs (k, rest, m1, w1)
      → Returns (commit p m1 w1) (λ (w2, m2). Committed m1 w1 w2 m2)
  commit_stage w w1 k rest m1 s l =
      commit_lem p m1 w1 wraps (omega (arith, l.remain, l.buffers))
        (omega (arith, l.buffers, s.fits, IsPow2-le idle.valid.pow)) l.base_fits
        (rw (l.queue, s.same.producer, l.outside q.producer laid.producer_outside)
          idle.valid.producer_fits)

  module _ (w w1 w2 : Writer) (k : ℕ) (rest : List A) (m1 m2 : Memory) (s : Started m n q w)
      (l : Loaded slot m q w bufs (k, rest, m1, w1)) (c : Committed m1 w1 w2 m2) where
    same_queue : w2.queue ≡ w.queue
    same_queue = c.queue ∙ l.queue

    handed : Handed w k m2
    handed = Handed_lem w w1 w2 k rest m1 m2 s l c

    drop_stage : Returns (drop_writer p w2) (Dropped m2 w2)
    drop_stage = drop_writer_lem p m2 w2 wraps (rw same_queue handed.valid) (
        rw same_queue (omega (arith, handed.reserved, handed.handed, c.buffers, l.remain, l.count)))

    untouched : (h : ℕ) → h ≢ q.producer → m2 h ≡ m1 h
    untouched h ne = c.frame h (λ e. ne (e ∙ (ap (λ u. u.producer) l.queue ∙ s.same.producer)))

    same_ring : (q' : RingProd) → Dropped m2 w2 q' → SameRing q.inner q'.inner
    same_ring q' d =
        SameRing-trans s.same (subst (λ u. SameRing u.inner q'.inner) same_queue d.same)

    -- The kernel has been given the `k` new entries, and nothing is left reserved.
    settled : (q' : RingProd) → Dropped m2 w2 q' → (given m2 q' ≡ given m q + k) × IsIdle m2 q'
    settled q' d = (
      same_given,
      record {
        valid = d.valid;
        settled =
            ground
              (arith, same_given, reserved, d.valid.cached_producer_fits, d.valid.producer_fits);
      },
    )
      where
        again : SameRing w.queue.inner q'.inner
        again = subst (λ u. SameRing u.inner q'.inner) same_queue d.same

        same_given : given m2 q' ≡ given m q + k
        same_given =
            ap₂ (λ a b. wrapping_sub (m2 a) (m2 b)) again.producer again.consumer ∙ handed.handed

        reserved : in_flight m2 q' + w2.idx.buffers ≡ given m q + w.idx.buffers
        reserved = d.returned ∙ (ap (in_flight m2) same_queue ∙ handed.reserved)

    queued :
        (q' : RingProd) → Dropped m2 w2 q' → pending slot m2 q' ≡ pending slot m q ++ take k bufs
    queued q' d =
        entries-same slot (same_ring q' d) m2 (m2 q'.consumer) (given m2 q')
        ∙ (entries_agree slot q.inner laid.pow laid.masked m1 m2 q.producer laid.producer_outside
              untouched (m2 q'.consumer) (given m2 q')
            ∙ (ap₂ (entries slot q.inner m1) (ap m2 (same_ring q' d).consumer ∙ handed.consumer)
                  (settled q' d).0
                ∙ l.contents))

    frame : (h : ℕ) → (h ≡ q.producer) ⊎ IsOneOf slot q.inner (m q.producer) k h ⊎ (m2 h ≡ m h)
    frame h = elim (ℕ_discrete h q.producer) [
      | yes e ↦ inl e
      | no ne ↦ elim (l.touched h) [
        | inl written ↦ inr (inl written)
        | inr same ↦ inr (inr (untouched h ne ∙ same))
      ]
    ]

    Sent-Dropped : (q' : RingProd) → Dropped m2 w2 q' → Promise (k, m2, q')
    unfolding Promise
    Sent-Dropped q' d = record {
      at_most = omega (arith, l.count, s.at_most, s.fits);
      progress = omega (arith, s.progress, l.count);
      queued = queued q' d;
      frame = frame;
      same = same_ring q' d;
      same_map = d.same_map ∙ (ap (λ u. u.mmap_addr) same_queue ∙ s.same_map);
      idle = (settled q' d).1;
    }

  -- From an idle ring laid out as IsLaidOut says, in a build without overflow checks, transmit (or
  -- fill), insert, commit and the drop of the writer return; a prefix of the items, of at most n
  -- and no more than fit, is appended to the queue of the entries in the kernel's hands, at least
  -- one if there is one, n is not 0 and the ring is not full; no word changes but the producer
  -- head and those of just as many entries from that head on; and the ring is idle again.
  pub send_batch_lem :
      All slot.IsValue bufs
      → Returns (send_batch slot p m q n bufs) λ (sent, m', q'). Sent slot m q n bufs sent m' q'
  unfolding send_batch Promise
  send_batch_lem good =
      Returns->>= (Started m n q) Promise (start_write p m n q) _ (start_write_lem p wraps n idle)
        λ w s.
          Returns->>= (Loaded slot m q w bufs) Promise (insert slot p m w bufs) _
            (insert_lem slot p idle laid n w s bufs good)
            λ (k, rest, m1, w1) l.
              Returns->>= (λ (w2, m2). Committed m1 w1 w2 m2) Promise (commit p m1 w1) _
                (commit_stage w w1 k rest m1 s l)
                λ (w2, m2) c.
                  Returns->>= (Dropped m2 w2) Promise (drop_writer p w2) _
                    (drop_stage w w1 w2 k rest m1 m2 s l c)
                    (Sent-Dropped w w1 w2 k rest m1 m2 s l c)
