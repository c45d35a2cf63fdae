-- ===== src/Ring/Map/Fresh.antt =====
-- `XskRing::map` on a system where the calls succeed and new rings are empty.
use xdpilone.Base.{
  ℕ, ◌+◌, ◌*◌, ◌^◌, ◌≤◌, ◌<◌, ◌≡◌, ◌≢◌, refl, sym, subst, ◌∙◌, true, false, Profile, Returns, arith,
  not, ◌==◌, assert, Option, none, some, is_power_of_two,
}
use xdpilone.Xdp.{XdpRingOffsets}
use xdpilone.Sys.{Libc, add_u64}
use xdpilone.Sys.Works.{
  Works, Answers, Carries, MapsFresh, Succeeds, Succeeds-and_then, compute-Succeeds,
}
use xdpilone.Iface.{XdpMmapOffsets}
use xdpilone.Ring.{XskRing, Slice}
use xdpilone.Ring.New.{Mapped, new-Mapped, IsOrdered}
use xdpilone.Ring.Map.{
  mapped_at, map_ring, xdp_pgoff_tx_ring, xdp_umem_pgoff_fill_ring, xdp_umem_pgoff_completion_ring,
}

-- The offsets of a ring that is mapped at `offset`, as kernels report them.
pub record IsReported {W : Type 0} {libc : Libc W} (v : Works libc) (offset : ℕ)
    (off : XdpRingOffsets) : Type 0 where
  pub ordered : IsOrdered off
  pub flags : off.flags ≡ v.flags_of offset
  pub flags_producer : off.flags ≢ off.producer
  pub flags_consumer : off.flags ≢ off.consumer
  pub small : off.desc < 2 ^ 32

pub record AllReported {W : Type 0} {libc : Libc W} (v : Works libc) (o : XdpMmapOffsets)
    : Type 0 where
  pub fr : IsReported v xdp_umem_pgoff_fill_ring o.fr
  pub cr : IsReported v xdp_umem_pgoff_completion_ring o.cr
  pub tx : IsReported v xdp_pgoff_tx_ring o.tx

module _ {W : Type 0} {libc : Libc W} (v : Works libc) where
  -- The heads are kept, and at 0.
  pub record IsFresh (w : W) (r : XskRing) : Type 0 where
    pub producer_kept : v.kept w r.producer ≡ true
    pub consumer_kept : v.kept w r.consumer ≡ true
    pub producer_zero : libc.memory w r.producer ≡ 0
    pub consumer_zero : libc.memory w r.consumer ≡ 0

  pub Carries-IsFresh : {w w' : W} {r : XskRing} → Carries v w w' → IsFresh w r → IsFresh w' r
  Carries-IsFresh {w} {w'} {r} c f =
      let (pk, pe) = c r.producer f.producer_kept in
      let (ck, ce) = c r.consumer f.consumer_kept in
      record {
        producer_kept = pk;
        consumer_kept = ck;
        producer_zero = pe ∙ f.producer_zero;
        consumer_zero = ce ∙ f.consumer_zero;
      }

  -- A ring that nothing has been put into.
  pub record IsEmpty (w : W) (start : ℕ) (off : XdpRingOffsets) (count : ℕ) (r : XskRing)
      : Type 0 where
    pub ordered : IsOrdered off
    pub mapped : Mapped (libc.memory w) start off count r
    pub fresh : IsFresh w r

  pub Carries-IsEmpty :
      {w w' : W} {start : ℕ} {off : XdpRingOffsets} {count : ℕ} {r : XskRing}
      → Carries v w w'
      → IsEmpty w start off count r
      → IsEmpty w' start off count r
  Carries-IsEmpty {w} {w'} {start} {off} {count} {r} c e =
      let f = Carries-IsFresh c e.fresh in
      record {
        ordered = e.ordered;
        mapped = record {
          pow = e.mapped.pow;
          mask = e.mapped.mask;
          size = e.mapped.size;
          producer = e.mapped.producer;
          consumer = e.mapped.consumer;
          ring = e.mapped.ring;
          flags = e.mapped.flags;
          cached_producer =
              omega (arith, e.mapped.cached_producer, e.fresh.producer_zero, f.producer_zero);
          cached_consumer =
              omega (arith, e.mapped.cached_consumer, e.fresh.consumer_zero, f.consumer_zero);
        };
        fresh = f;
      }

  -- A ring that has just been mapped, at words that were not kept.
  pub record NewRing (w : W) (off : XdpRingOffsets) (count sz : ℕ) (r : XskRing) (s : Slice)
      (w' : W) : Type 0 where
    pub empty : IsEmpty w' s.start off count r
    pub len : s.len ≡ off.desc + count * sz
    pub apart : (x : ℕ) → s.start ≤ x → x < s.start + s.len → v.kept w x ≡ false
    pub carries : Carries v w w'

  module _ (a : Answers libc v) (p : Profile) (fd : ℕ) (off : XdpRingOffsets) (count sz offset : ℕ)
      (rep : IsReported v offset off) (pow : is_power_of_two count ≡ true)
      (small : count * sz < 2 ^ 32) where
    -- What mmap has done, for the start that it gave.
    record MmapLeaves (w : W) (len start : ℕ) (w' : W) : Type 0 where
      positive : 0 < start
      fresh : MapsFresh v start len offset w w'
      carries : Carries v w w'

    leaves :
        (len : ℕ) (w : W) (o : Option ℕ × W) (start : ℕ)
        → o.0 ≡ some start
        → 0 < start
        → MapsFresh v start len offset w o.1
        → Carries v w o.1
        → Succeeds (mapped_at libc p o) (MmapLeaves w len)
    leaves len w (none, w') start e positive fresh carries = absurd (ground (arith, e))
    leaves len w (some b, w') start e positive fresh carries =
        let same : start ≡ b = ground (arith, e) in
        subst (λ c. MmapLeaves w len c w') same
          (record { positive = positive; fresh = fresh; carries = carries })

    mapped_at-Succeeds :
        (len : ℕ) (w : W)
        → Succeeds (mapped_at libc p (libc.mmap len fd offset w)) (MmapLeaves w len)
    mapped_at-Succeeds len w =
        let (start, e, positive, fresh, carries) = a.mmap_lem len fd offset w in
        leaves len w (libc.mmap len fd offset w) start e positive fresh carries

    NewRing-Mapped :
        (w w' : W) (start : ℕ) (r : XskRing)
        → MmapLeaves w (off.desc + count * sz) start w'
        → Mapped (libc.memory w') start off count r
        → NewRing w off count sz r (record { start = start; len = off.desc + count * sz }) w'
    NewRing-Mapped w w' start r m n =
        let (p_old, p_new) = m.fresh r.producer (omega arith) (omega (arith, rep.ordered)) in
        let (c_old, c_new) = m.fresh r.consumer (omega arith) (omega (arith, rep.ordered)) in
        let (p_kept, p_zero) = p_new (omega (arith, rep.flags, rep.flags_producer)) in
        let (c_kept, c_zero) = c_new (omega (arith, rep.flags, rep.flags_consumer)) in
        record {
          empty = record {
            ordered = rep.ordered;
            mapped = n;
            fresh = record {
              producer_kept = p_kept;
              consumer_kept = c_kept;
              producer_zero = p_zero;
              consumer_zero = c_zero;
            };
          };
          len = refl;
          apart = λ x low high. (m.fresh x low high).0;
          carries = m.carries;
        }

    len_fits : Returns (add_u64 p off.desc (count * sz)) (λ len. len ≡ off.desc + count * sz)
    len_fits = ground (arith, rep.small)

    start_pos : (start : ℕ) → 0 < start → Returns (assert (not (start == 0))) (λ _. Unit {0})
    start_pos start h = ground arith

    pub map_ring-Succeeds :
        (w : W)
        → Succeeds
            (map_ring libc p fd off count sz offset w)
            (λ (r, s) w'. NewRing w off count sz r s w')
    unfolding map_ring
    map_ring-Succeeds w =
        Succeeds-and_then (λ len w1. (len ≡ off.desc + count * sz) × (w1 ≡ w)) _ _ _
          (compute-Succeeds (λ len. len ≡ off.desc + count * sz) _ _ w len_fits λ len e. (e, refl))
          λ len w1 (e, e1).
            Succeeds-and_then (MmapLeaves w (off.desc + count * sz)) _ _ _
              (rw (e, e1) (mapped_at-Succeeds (off.desc + count * sz) w))
              λ start w2 m.
                Succeeds-and_then (λ _ w3. w3 ≡ w2) _ _ _
                  (compute-Succeeds (λ _. Unit {0}) _ _ w2 (start_pos start m.positive) λ _ _. refl)
                  λ _ w3 e3.
                    Succeeds-and_then
                      (λ r w4. Mapped (libc.memory w4) start off count r × (w4 ≡ w2)) _ _ _
                      (compute-Succeeds (Mapped (libc.memory w3) start off count) _ _ w3
                        (new-Mapped p (libc.memory w3) start off count pow) λ r n. (n, e3))
                      λ r w4 (n, e4). rw e (
                        NewRing-Mapped w w4 start r
                          (subst (MmapLeaves w (off.desc + count * sz) start) (sym e4) m) n)
