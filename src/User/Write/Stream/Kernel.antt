-- ===== src/User/Write/Stream/Kernel.antt =====
-- What the kernel may do to a producer ring keeps what holds at the stages of a writer.
use xdpilone.Base.{
  ℕ, zero, suc, ◌∷◌, ◌+◌, ◌-◌, ◌≡◌, refl, sym, ap, ap₂, ◌∙◌, arith, List, ◌++◌, length,
  wrapping_add, IsPow2-le, IsPow2,
}
use xdpilone.Memory.{Memory, Slot}
use xdpilone.Ring.{BufIdx, RingProd, XskRing}
use xdpilone.Ring.Entries.{
  entries, entries-append, address, address_lem, address_bound, IsInside, IsLaidOut,
}
use xdpilone.Ring.Prod.Inv.{IsProd, given}
use xdpilone.User.Write.{Writer}
use xdpilone.User.Write.Batch.{pending}
use xdpilone.User.Write.Stream.{Takes}
use xdpilone.User.Write.Stream.Stages.{IsReady, IsOpen, IsSpent, IsOpen-IsSpent}

-- Memories that agree among the entries hold the same entries.
pub entries-inside :
    {A : Type 0} (slot : Slot A) (r : XskRing)
    → IsPow2 r.size
    → r.mask ≡ r.size - 1
    → (m m' : Memory) → ((h : ℕ) → IsInside slot r h → m' h ≡ m h)
    → (first : BufIdx) (n : ℕ) → entries slot r m' first n ≡ entries slot r m first n
entries-inside slot r pow masked m m' agree first zero = refl
entries-inside slot r pow masked m m' agree first (suc n) =
    ap₂ ◌∷◌
      (slot.load_ext m' m (address slot r first) (λ b lo hi. agree b (
        omega (arith, address_lem slot r pow masked first),
        omega (arith, address_bound slot r pow masked first),
      )))
      (entries-inside slot r pow masked m m' agree (wrapping_add first 1) n)

module _ {A : Type 0} (slot : Slot A) {q : RingProd} {m m' : Memory} (v : IsProd m q)
    (k : Takes slot q m m') where
  Takes-IsProd : IsProd m' q
  Takes-IsProd = ground (arith, k.at_most, k.moved, k.producer, IsPow2-le v.pow)

  given_left : given m q ≡ k.count + given m' q
  given_left = omega (arith, k.at_most, k.moved, k.producer, v.producer_fits, v.consumer_fits)

  -- What was pending is what the kernel takes, in its order, and what is pending then.
  pub pending-Takes :
      IsLaidOut slot q.inner
      → pending slot m q ≡ entries slot q.inner m (m q.consumer) k.count ++ pending slot m' q
  pending-Takes laid =
      ap (entries slot q.inner m (m q.consumer)) given_left
      ∙ (entries-append slot q.inner m (m q.consumer) k.count (given m' q) v.consumer_fits
          ∙ ap (λ l. entries slot q.inner m (m q.consumer) k.count ++ l)
              (ap (λ c. entries slot q.inner m c (given m' q)) (sym k.moved)
                ∙ sym (
                    entries-inside slot q.inner laid.pow laid.masked m m' k.inside (m' q.consumer)
                      (given m' q))))

pub Takes-IsReady :
    {A : Type 0} (slot : Slot A) {q : RingProd} {m m' : Memory}
    → Takes slot q m m'
    → IsReady slot m q
    → IsReady slot m' q
Takes-IsReady slot k r = record {
  idle = record {
    valid = Takes-IsProd slot r.idle.valid k;
    settled = r.idle.settled ∙ sym k.producer;
  };
  laid = r.laid;
}

pub Takes-IsSpent :
    {A : Type 0} (slot : Slot A) {w : Writer} {m m' : Memory}
    → Takes slot w.queue m m'
    → IsSpent slot m w
    → IsSpent slot m' w
Takes-IsSpent slot {w} {m} {m'} k o = record {
  valid = Takes-IsProd slot o.valid k;
  laid = o.laid;
  reserved = ground (arith, k.at_most, k.moved, k.producer, o.reserved, IsPow2-le o.valid.pow);
}

pub Takes-IsOpen :
    {A : Type 0} (slot : Slot A) {w : Writer} {staged : List A} {m m' : Memory}
    → Takes slot w.queue m m'
    → IsOpen slot m w staged
    → IsOpen slot m' w staged
Takes-IsOpen slot {w} {staged} {m} {m'} k o = record {
  valid = Takes-IsProd slot o.valid k;
  laid = o.laid;
  left = o.left;
  reserved = (Takes-IsSpent slot k (IsOpen-IsSpent slot o)).reserved;
  base = λ h. o.base h ∙ ap (λ c. wrapping_add c (length staged)) (sym k.producer);
  base_fits = o.base_fits;
  contents =
      entries-inside slot w.queue.inner o.laid.pow o.laid.masked m m' k.inside (m' w.queue.producer)
        (length staged)
      ∙ (ap (λ c. entries slot w.queue.inner m c (length staged)) k.producer ∙ o.contents);
}
