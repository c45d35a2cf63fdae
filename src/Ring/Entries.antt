-- ===== src/Ring/Entries.antt =====
-- The entries of a ring as a sequence: where they lie, which of them overlap, and what a store to
-- one of them leaves alone.
use native.Mathlib.Nat.{mod-add-mod, mod-eq_of_lt, mod-eq-sub-mod, mod-lt, mul-le-mul_left}
use native.Mathlib.Decide.{dec_lt}
use xdpilone.Base.{
  ℕ, zero, suc, ◌+◌, ◌-◌, ◌*◌, ◌%◌, ◌≤◌, ◌<◌, ◌≡◌, ◌≢◌, ◌⊎◌, inl, inr, refl, sym, subst, ap, ap₂,
  ◌∙◌, arith, List, [], ◌∷◌, ◌++◌, length, wrapping_add, IsU32, IsPow2, IsPow2-pos, bit_and-IsPow2,
  wrap-mod-IsPow2,
}
use xdpilone.Memory.{Memory, Slot, load-store_apart}
use xdpilone.Ring.{BufIdx, XskRing, SameRing, entry_addr}

-- Fewer than `s` steps round a ring of `s` places do not come back to the start.
step-mod-ne : (s x d : ℕ) → 0 < d → d < s → (x + d) % s ≢ x % s
step-mod-ne s x d pos lt e = elim (dec_lt (x % s + d) s) [
  | yes below ↦ omega (arith, mod-add-mod x s d, mod-eq_of_lt below)
  | no above ↦ omega (
    arith,
    mod-add-mod x s d,
    mod-lt x {m = s} (omega arith),
    mod-eq-sub-mod {n = x % s + d} {m = s} (omega arith),
    mod-eq_of_lt {n = x % s + d - s} {m = s} (omega (arith, mod-lt x {m = s} (omega arith))),
  )
]

module _ {A : Type 0} (slot : Slot A) (r : XskRing) where
  abbrev pub address : BufIdx → ℕ
  address idx = entry_addr slot.bytes r idx

  -- The `n` entries from position `first` on.
  abbrev pub entries : Memory → BufIdx → ℕ → List A
  entries m first zero = []
  entries m first (suc n) = slot.load m (address first) ∷ entries m (wrapping_add first 1) n

  -- The word at `h`, such as a head, lies outside of the entries.
  abbrev pub IsOutside : ℕ → Type 0
  IsOutside h = (h < r.ring) ⊎ (r.ring + slot.bytes * r.size ≤ h)

  -- The word at `h` lies among the entries.
  abbrev pub IsInside : ℕ → Type 0
  IsInside h = (r.ring ≤ h) × (h < r.ring + slot.bytes * r.size)

  pub IsOutside-cases : (h : ℕ) → IsInside h ⊎ IsOutside h
  IsOutside-cases h = elim (dec_lt h r.ring) [
    | yes low ↦ inr (inl low)
    | no not_low ↦ elim (dec_lt h (r.ring + slot.bytes * r.size)) [
      | yes inside ↦ inl (omega arith, inside)
      | no high ↦ inr (inr (omega arith))
    ]
  ]

  pub length-entries : (m : Memory) (first : BufIdx) (n : ℕ) → length (entries m first n) ≡ n
  length-entries m first zero = refl
  length-entries m first (suc n) = ap suc (length-entries m (wrapping_add first 1) n)

  -- No entry is read where there are none, so the first position matters only if there are.
  pub entries-start :
      (m : Memory) {first first' : BufIdx} (n : ℕ)
      → (1 ≤ n → first ≡ first')
      → entries m first n ≡ entries m first' n
  entries-start m zero h = refl
  entries-start m (suc n) h = ap (λ c. entries m c (suc n)) (h (omega arith))

  pub entries-append :
      (m : Memory) (first : BufIdx) (a b : ℕ)
      → IsU32 first
      → entries m first (a + b) ≡ entries m first a ++ entries m (wrapping_add first a) b
  entries-append m first zero b h = ap₂ (λ c n. entries m c n) (omega arith) (omega arith)
  entries-append m first (suc a) b h =
      ap (entries m first) one_more
      ∙ ap (λ rest. slot.load m (address first) ∷ rest)
          (entries-append m (wrapping_add first 1) a b (omega arith)
            ∙ ap (λ c. entries m (wrapping_add first 1) a ++ entries m c b) onward)
    where
      one_more : suc a + b ≡ suc (a + b)
      one_more = omega arith

      onward : wrapping_add (wrapping_add first 1) a ≡ wrapping_add first (suc a)
      onward = omega arith

  module _ (pow : IsPow2 r.size) (masked : r.mask ≡ r.size - 1) where
    pub address_lem : (idx : BufIdx) → address idx ≡ r.ring + slot.bytes * (idx % r.size)
    address_lem idx = ap (λ k. r.ring + slot.bytes * k) (rw masked (bit_and-IsPow2 pow idx))

    -- An entry ends within the ring.
    pub address_bound : (idx : BufIdx) → address idx + slot.bytes ≤ r.ring + slot.bytes * r.size
    address_bound idx = omega (
      arith,
      address_lem idx,
      mul-le-mul_left {m = suc (idx % r.size)} slot.bytes (mod-lt idx (IsPow2-pos pow)),
    )

    -- A store to an entry changes no word outside of them.
    pub store-outside :
        (m : Memory) (idx : BufIdx) (v : A) (h : ℕ)
        → IsOutside h
        → slot.store m (address idx) v h ≡ m h
    store-outside m idx v h out = slot.store-apart m (address idx) v h (beyond out)
      where
        beyond : IsOutside h → (h < address idx) ⊎ (address idx + slot.bytes ≤ h)
        beyond (inl low) = inl (omega arith)
        beyond (inr high) = inr (omega (arith, address_bound idx))

    different_places :
        (a b : ℕ)
        → a % r.size ≢ b % r.size
        → (address a + slot.bytes ≤ address b) ⊎ (address b + slot.bytes ≤ address a)
    different_places a b ne = elim (dec_lt (a % r.size) (b % r.size)) [
      | yes lt ↦ inl (
          omega (
            arith,
            address_lem a,
            address_lem b,
            mul-le-mul_left {m = suc (a % r.size)} slot.bytes lt,
          ))
      | no ge ↦ inr (
          omega (
            arith,
            address_lem a,
            address_lem b,
            mul-le-mul_left {m = suc (b % r.size)} {n = a % r.size} slot.bytes (omega arith),
          ))
    ]

    -- The entries at positions `d` apart do not overlap, unless `d` goes all the way round.
    pub address_apart :
        (idx d : ℕ)
        → 0 < d
        → d < r.size
        → (address idx + slot.bytes ≤ address (wrapping_add idx d))
          ⊎ (address (wrapping_add idx d) + slot.bytes ≤ address idx)
    address_apart idx d pos lt =
        different_places idx (wrapping_add idx d)
          (λ e. step-mod-ne r.size idx d pos lt (sym (e ∙ wrap-mod-IsPow2 pow (idx + d))))

    -- A store at `d` steps past `first` leaves the entries before it alone.
    pub entries-store :
        (m : Memory) (first : BufIdx) (n d : ℕ) (v : A)
        → n ≤ d
        → d < r.size
        → entries (slot.store m (address (wrapping_add first d)) v) first n ≡ entries m first n
    entries-store m first zero d v le lt = refl
    entries-store m first (suc n) d v le lt =
        ap₂ ◌∷◌ (load-store_apart slot m (address (wrapping_add first d)) v (address first) apart) (
          subst
            (λ c.
              entries (slot.store m (address c) v) (wrapping_add first 1) n
              ≡ entries m (wrapping_add first 1) n)
            (sym shift)
            (entries-store m (wrapping_add first 1) n (d - 1) v (omega arith) (omega arith)))
      where
        apart :
            (address first + slot.bytes ≤ address (wrapping_add first d))
            ⊎ (address (wrapping_add first d) + slot.bytes ≤ address first)
        apart = address_apart first d (omega arith) lt

        shift : wrapping_add first d ≡ wrapping_add (wrapping_add first 1) (d - 1)
        shift = omega arith

-- Memories that agree on all words but some head hold the same entries.
pub entries_agree :
    {A : Type 0} (slot : Slot A) (r : XskRing)
    → IsPow2 r.size
    → r.mask ≡ r.size - 1
    → (m m' : Memory) (head : ℕ) → IsOutside slot r head
    → ((h : ℕ) → h ≢ head → m' h ≡ m h)
    → (first : BufIdx) (n : ℕ) → entries slot r m' first n ≡ entries slot r m first n
entries_agree slot r pow masked m m' head out agree first zero = refl
entries_agree slot r pow masked m m' head out agree first (suc n) =
    ap₂ ◌∷◌
      (slot.load_ext m' m (address slot r first) (λ b lo hi. agree b (λ e.
        elsewhere out (subst (λ h. address slot r first ≤ h) e lo)
          (subst (λ h. h < address slot r first + slot.bytes) e hi))))
      (entries_agree slot r pow masked m m' head out agree (wrapping_add first 1) n)
  where
    elsewhere :
        IsOutside slot r head
        → address slot r first ≤ head
        → head < address slot r first + slot.bytes
        → ⊥
    elsewhere (inl low) lo hi = omega arith
    elsewhere (inr high) lo hi = omega (arith, address_bound slot r pow masked first)

-- The heads do not lie among the entries, and the mask fits the size.
pub record IsLaidOut {A : Type 0} (slot : Slot A) (r : XskRing) : Type 0 where
  pub pow : IsPow2 r.size
  pub masked : r.mask ≡ r.size - 1
  pub producer_outside : IsOutside slot r r.producer
  pub consumer_outside : IsOutside slot r r.consumer

-- The word at `h` is one of the entry at `idx`.
abbrev pub IsEntry : {A : Type 0} → Slot A → XskRing → BufIdx → ℕ → Type 0
IsEntry slot r idx h = (address slot r idx ≤ h) × (h < address slot r idx + slot.bytes)

-- The word at `h` is one of the `n` entries from `first` on.
abbrev pub IsOneOf : {A : Type 0} → Slot A → XskRing → BufIdx → ℕ → ℕ → Type 0
IsOneOf slot r first n h = (i : ℕ) × (i < n) × IsEntry slot r (wrapping_add first i) h

pub IsOneOf-IsInside :
    {A : Type 0} (slot : Slot A) (r : XskRing)
    → IsLaidOut slot r
    → (first : BufIdx) (n h : ℕ) → IsOneOf slot r first n h
    → IsInside slot r h
IsOneOf-IsInside slot r laid first n h (i, lt, (low, high)) = (
  omega (arith, low, address_lem slot r laid.pow laid.masked (wrapping_add first i)),
  omega (arith, high, address_bound slot r laid.pow laid.masked (wrapping_add first i)),
)

-- A store to one entry changes no word that is not of it.
pub store-IsEntry :
    {A : Type 0} (slot : Slot A) (r : XskRing) (m : Memory) (idx : BufIdx) (v : A) (h : ℕ)
    → IsEntry slot r idx h ⊎ (slot.store m (address slot r idx) v h ≡ m h)
store-IsEntry slot r m idx v h = elim (dec_lt h (address slot r idx)) [
  | yes low ↦ inr (slot.store-apart m (address slot r idx) v h (inl low))
  | no not_low ↦ elim (dec_lt h (address slot r idx + slot.bytes)) [
    | yes within ↦ inl (omega arith, within)
    | no high ↦ inr (slot.store-apart m (address slot r idx) v h (inr (omega arith)))
  ]
]

-- A store of `v` at the end of `n` entries makes them `n + 1`.
pub entries-push :
    {A : Type 0} (slot : Slot A) (r : XskRing)
    → IsLaidOut slot r
    → (m : Memory) (first : BufIdx) (n : ℕ) (v : A) → IsU32 first
    → n < r.size
    → slot.IsValue v
    → entries slot r (slot.store m (address slot r (wrapping_add first n)) v) first (n + 1)
      ≡ entries slot r m first n ++ (v ∷ [])
entries-push slot r laid m first n v fits lt ok_v =
    entries-append slot r (slot.store m (address slot r (wrapping_add first n)) v) first n 1 fits
    ∙ ap₂ ◌++◌ (entries-store slot r laid.pow laid.masked m first n n v (omega arith) lt)
        (ap (λ x. x ∷ []) (slot.load-store m (address slot r (wrapping_add first n)) v ok_v))

-- Where the entries lie does not depend on the cached heads.
module _ {A : Type 0} (slot : Slot A) {r r' : XskRing} (same : SameRing r r') where
  pub entries-same :
      (m : Memory) (first : BufIdx) (n : ℕ) → entries slot r' m first n ≡ entries slot r m first n
  entries-same m first zero = refl
  entries-same m first (suc n) =
      ap₂ ◌∷◌ (ap (slot.load m) (rw (same.mask, same.ring)))
        (entries-same m (wrapping_add first 1) n)

  pub IsOutside-same : (h : ℕ) → IsOutside slot r h → IsOutside slot r' h
  IsOutside-same h out = rw (same.size, same.ring) out

  pub IsEntry-same : (idx : BufIdx) (h : ℕ) → IsEntry slot r' idx h → IsEntry slot r idx h
  IsEntry-same idx h here = rw (← same.mask, ← same.ring) here

  pub IsLaidOut-same : IsLaidOut slot r → IsLaidOut slot r'
  IsLaidOut-same laid = record {
    pow = rw same.size laid.pow;
    masked = rw (same.mask, same.size) laid.masked;
    producer_outside = rw same.producer (IsOutside-same r.producer laid.producer_outside);
    consumer_outside = rw same.consumer (IsOutside-same r.consumer laid.consumer_outside);
  }
