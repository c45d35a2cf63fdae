-- ===== src/User/Read/Stream/Moves.antt =====
-- The operations of a reader in xsk/user.rs lead from one stage to the next: they return, whatever is
-- done at a stage.
use xdpilone.Base.{
  ℕ, zero, suc, ◌+◌, ◌≡◌, refl, sym, ap, ap₂, subst, ◌∙◌, arith, Returns, Returns-map, Profile,
  List, [], ◌∷◌, ◌++◌, length, length-append, IsPow2-le, false, some, none, Option,
}
use xdpilone.Memory.{Memory, Slot}
use xdpilone.Ring.{RingCons, entry_addr}
use xdpilone.Ring.Entries.{entries, entries-append, entries_agree, IsLaidOut-same}
use xdpilone.Ring.Cons.Inv.{IsCons, produced, peeked}
use xdpilone.User.Iter.{next}
use xdpilone.User.Read.{Reader, start_read, read, release_read, drop_reader}
use xdpilone.User.Read.Batch.{
  waiting, Started, start_read_lem, Released, release_read_lem, Dropped, drop_reader_lem,
}
use xdpilone.User.Read.Stream.{Puts, added}
use xdpilone.User.Read.Stream.Stages.{
  IsReady, IsOpen, IsSpent, Releases, same_queue_waiting, first_and_rest, Puts-Fills, waiting-Puts,
}

module _ {A : Type 0} (slot : Slot A) (p : Profile) (wraps : p.overflow_checks ≡ false) where
  -- `receive` and `complete` return a reader from which nothing has been read.
  pub start_read-IsOpen :
      {m m' : Memory} (q : RingCons) (n : ℕ)
      → IsReady slot m q
      → (k : Puts slot q m m')
      → Returns (start_read p m m' n q) (λ r.
        IsOpen slot m' r []
        × (waiting slot m' r.queue ≡ waiting slot m q ++ added slot q m m' k.count))
  start_read-IsOpen {m} {m'} q n ready k =
      Returns-map (Started m m' n q) _ (start_read p m m' n q)
        (start_read_lem p wraps n ready.idle (Puts-Fills slot ready.idle.valid k))
        λ r s. (
          record {
            valid = s.valid;
            laid = IsLaidOut-same slot s.same ready.laid;
            left = omega (arith, s.all_left);
            reserved = ground (arith, s.moved, s.same, s.present, s.valid, IsPow2-le s.valid.pow);
            base = λ h. ground (arith, s.first h, s.same, s.valid.consumer_fits);
            base_fits = s.base_fits;
            contents = refl;
          },
          same_queue_waiting slot q r.queue m' s.same ∙ waiting-Puts slot ready.idle.valid k,
        )

  -- What a `read` may leave.
  abbrev Reads : Memory → RingCons → List A → Option (A × Reader) → Type 0
  Reads m q items none = Unit {0}
  Reads m q items (some (x, r')) = IsOpen slot m r' (items ++ (x ∷ [])) × (r'.queue ≡ q)

  read-Reads :
      (m : Memory) (queue : RingCons) (base buffers remain : ℕ) (items : List A)
      → let r : Reader = record {
        idx = record { base = base; buffers = buffers; remain = remain };
        queue = queue;
      } in
        IsOpen slot m r items → Reads m queue items (read slot m r)
  unfolding read next
  read-Reads m queue base buffers zero items o = tt
  read-Reads m queue base buffers (suc remain) items o = (
    record {
      valid = o.valid;
      laid = o.laid;
      left = omega (arith, o.left, one_more);
      reserved = o.reserved;
      base = λ h. omega (arith, o.base h, one_more);
      base_fits = omega arith;
      contents =
          ap (entries slot queue.inner m (m queue.consumer)) one_more
          ∙ (entries-append slot queue.inner m (m queue.consumer) (length items) 1
                o.valid.consumer_fits
              ∙ ap₂ ◌++◌ o.contents (
                  ap (λ b. slot.load m (entry_addr slot.bytes queue.inner b) ∷ [])
                    (sym (o.base (omega (arith, o.left))))));
    },
    refl,
  )
    where
      one_more :
          length (items ++ (slot.load m (entry_addr slot.bytes queue.inner base) ∷ []))
          ≡ length items + 1
      one_more =
          omega
            (arith, length-append items (slot.load m (entry_addr slot.bytes queue.inner base) ∷ []))

  -- A `read` that gives an item gives the next one.
  pub read-IsOpen :
      {m : Memory} (r r' : Reader) (items : List A) (x : A)
      → IsOpen slot m r items
      → read slot m r ≡ some (x, r')
      → IsOpen slot m r' (items ++ (x ∷ [])) × (r'.queue ≡ r.queue)
  read-IsOpen {m} r r' items x o e =
      subst (Reads m r.queue items) e
        (read-Reads m r.queue r.idx.base r.idx.buffers r.idx.remain items o)

  module _ {m : Memory} (r r1 : Reader) (items : List A) (m1 : Memory) (o : IsOpen slot m r items)
      (c : Released m r r1 m1) where
    producer_stays : m1 r.queue.producer ≡ m r.queue.producer
    producer_stays = c.frame r.queue.producer o.valid.heads_apart

    produced_after : length items + produced m1 r.queue ≡ produced m r.queue
    produced_after =
        ground (arith, c.head, producer_stays, o.left, o.reserved, IsPow2-le o.valid.pow)

    Released-IsCons : IsCons m1 r.queue
    Released-IsCons =
        ground (arith, c.head, producer_stays, o.left, o.reserved, IsPow2-le o.valid.pow)

    peeked_after : peeked m1 r.queue ≡ r.idx.remain
    peeked_after = ground (arith, c.head, o.left, o.reserved, IsPow2-le o.valid.pow)

    waiting_after : waiting slot m r.queue ≡ items ++ waiting slot m1 r.queue
    waiting_after =
        first_and_rest slot r.queue m (length items) o.valid.consumer_fits
          (omega (arith, produced_after))
        ∙ ap₂ ◌++◌ o.contents (
            ap₂ (entries slot r.queue.inner m) (omega (arith, c.head, o.left))
              (omega (arith, produced_after))
            ∙ sym (
                entries_agree slot r.queue.inner o.laid.pow o.laid.masked m m1 r.queue.consumer
                  o.laid.consumer_outside c.frame (m1 r.queue.consumer) (produced m1 r.queue)))

    Releases-Released : Releases slot m r items m1 r1
    Releases-Released = record {
      stage = record {
        valid = rw c.queue Released-IsCons;
        laid = rw c.queue o.laid;
        reserved = rw c.queue (omega (arith, peeked_after, c.buffers));
      };
      in_order = rw c.queue waiting_after;
    }

  -- `release` gives back the entries that were read, and no other.
  pub release_read-Releases :
      {m : Memory} (r : Reader) (items : List A)
      → IsOpen slot m r items
      → Returns (release_read p m r) (λ (r', m'). Releases slot m r items m' r')
  release_read-Releases {m} r items o =
      Returns-map (λ (r1, m1). Released m r r1 m1) (λ (r1, m1). Releases slot m r items m1 r1)
        (release_read p m r)
        (release_read_lem p m r wraps (omega (arith, o.left))
          (omega (arith, o.reserved, o.valid.between, o.valid.bounded, IsPow2-le o.valid.pow))
          o.base_fits o.valid.consumer_fits)
        λ (r1, m1) c. Releases-Released r r1 items m1 o c

  -- The drop of a reader leaves the entries that wait.
  pub drop_reader-IsReady :
      {m : Memory} (r : Reader)
      → IsSpent slot m r
      → Returns
          (drop_reader p r)
          (λ q. IsReady slot m q × (waiting slot m q ≡ waiting slot m r.queue))
  drop_reader-IsReady {m} r o =
      Returns-map (Dropped m r) _ (drop_reader p r)
        (drop_reader_lem p m r wraps o.valid (omega (arith, o.reserved)))
        λ q d. (
          record {
            idle = record {
              valid = d.valid;
              settled = omega (
                arith, o.reserved, d.returned, d.valid.cached_consumer_fits, d.valid.consumer_fits,
              );
            };
            laid = IsLaidOut-same slot d.same o.laid;
          },
          same_queue_waiting slot r.queue q m d.same,
        )
