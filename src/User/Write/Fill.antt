-- ===== src/User/Write/Fill.antt =====
-- The loop of `WriteFill::insert` and `WriteTx::insert` in xsk/user.rs.
use mathlib.Core.List.{append_assoc, append-nil}
use xdpilone.Base.{
  ℕ, zero, suc, ◌+◌, ◌-◌, ◌^◌, ◌≤◌, ◌<◌, ◌≡◌, refl, sym, ap, ◌∙◌, arith, Returns, Returns-map,
  Profile, List, [], ◌∷◌, ◌++◌, length, take, drop, take-eq-nil, subst, All, min, wrapping_add,
  IsU32, ◌⊎◌, inl, inr,
}
use xdpilone.Memory.{Memory, Slot}
use xdpilone.Ring.{BufIdx, RingProd}
use xdpilone.Ring.Entries.{
  entries, address, IsOutside, IsLaidOut, entries-push, store-outside, IsEntry, IsOneOf,
  store-IsEntry,
}
use xdpilone.User.Iter.{next}
use xdpilone.User.Write.{Writer, Inserted, insert_loop}

module _ {A : Type 0} (slot : Slot A) where
  -- The loop has written the first items, as many as there were places, behind the `t` entries
  -- from `c` on, and has touched nothing but entries.
  pub record Filled (c t n : ℕ) (m : Memory) (w : Writer) (it : List A) (out : Inserted A)
      : Type 0 where
    pub count : out.0 ≡ n + min (length it) w.idx.remain
    pub rest : out.1 ≡ drop (suc w.idx.remain) it
    pub contents :
        entries slot w.queue.inner out.2 c (t + min (length it) w.idx.remain)
        ≡ entries slot w.queue.inner m c t ++ take w.idx.remain it
    pub outside : (h : ℕ) → IsOutside slot w.queue.inner h → out.2 h ≡ m h
    pub touched :
        (h : ℕ)
        → IsOneOf slot w.queue.inner (wrapping_add c t) (min (length it) w.idx.remain) h
          ⊎ (out.2 h ≡ m h)
    pub base : out.3.idx.base ≡ wrapping_add c (t + min (length it) w.idx.remain)
    pub remain : out.3.idx.remain ≡ w.idx.remain - min (length it) w.idx.remain
    pub buffers : out.3.idx.buffers ≡ w.idx.buffers
    pub queue : out.3.queue ≡ w.queue

  module _ (p : Profile) (q : RingProd) (laid : IsLaidOut slot q.inner) (c : BufIdx)
      (c_fits : IsU32 c) (buffers : ℕ) where
    abbrev writer : BufIdx → ℕ → Writer
    writer base remain = record {
      idx = record { base = base; buffers = buffers; remain = remain };
      queue = q;
    }

    Filled-step :
        (x : A) (it : List A) (t n : ℕ) (m : Memory) (remain : ℕ) (out : Inserted A)
        → t + suc remain ≤ q.size
        → slot.IsValue x
        → Filled c
            (t + 1)
            (n + 1)
            (slot.store m (address slot q.inner (wrapping_add c t)) x)
            (writer (wrapping_add (wrapping_add c t) 1) remain)
            it
            out
        → Filled c t n m (writer (wrapping_add c t) (suc remain)) (x ∷ it) out
    Filled-step x it t n m remain out room good f = record {
      count = omega (arith, f.count);
      rest = f.rest;
      contents =
          ap (entries slot q.inner out.2 c) longer
          ∙ (f.contents
              ∙ (ap (λ l. l ++ take remain it)
                    (entries-push slot q.inner laid m c t x c_fits (omega arith) good)
                  ∙ append_assoc (entries slot q.inner m c t) (x ∷ []) (take remain it)));
      outside = λ h apart.
          f.outside h apart
          ∙ store-outside slot q.inner laid.pow laid.masked m (wrapping_add c t) x h apart;
      touched = λ h. elim (f.touched h) [
        | inl (i, lt, here) ↦
            inl (suc i, omega arith, subst (λ b. IsEntry slot q.inner b h) (omega arith) here)
        | inr same ↦ elim (store-IsEntry slot q.inner m (wrapping_add c t) x h) [
          | inl here ↦
              inl (0, omega arith, subst (λ b. IsEntry slot q.inner b h) (omega arith) here)
          | inr kept ↦ inr (same ∙ kept)
        ]
      ];
      base = f.base ∙ ap (wrapping_add c) (omega arith);
      remain = omega (arith, f.remain);
      buffers = f.buffers;
      queue = f.queue;
    }
      where
        longer : t + min (suc (length it)) (suc remain) ≡ t + 1 + min (length it) remain
        longer = omega arith

    -- No item is left, or no place.
    Filled-done :
        (it : List A) (t n : ℕ) (m : Memory) (remain : ℕ)
        → min (length it) remain ≡ 0
        → Filled c t n m
            (writer (wrapping_add c t) remain)
            it
            (n, drop (suc remain) it, m, writer (wrapping_add c t) remain)
    Filled-done it t n m remain stop = record {
      count = omega arith;
      rest = refl;
      contents =
          ap (entries slot q.inner m c) {y = t} (omega arith)
          ∙ (sym (append-nil (entries slot q.inner m c t))
              ∙ ap (λ l. entries slot q.inner m c t ++ l) (sym (take-eq-nil remain it stop)));
      outside = λ h apart. refl;
      touched = λ h. inr refl;
      base = ap (wrapping_add c) (omega arith);
      remain = omega arith;
      buffers = refl;
      queue = refl;
    }

    insert_loop-suc :
        (x : A) (it : List A) (n : ℕ) (m : Memory) (base : BufIdx) (remain : ℕ)
        → n + 1 < 2 ^ 32
        → insert_loop slot p n m (writer base (suc remain)) (x ∷ it)
          ≡ insert_loop slot p
              (n + 1)
              (slot.store m (address slot q.inner base) x)
              (writer (wrapping_add base 1) remain)
              it
    unfolding insert_loop next
    insert_loop-suc x it n m base remain small = ground arith

    pub insert_loop-Filled :
        (it : List A) (t n : ℕ) (m : Memory) (remain : ℕ)
        → n + remain < 2 ^ 32
        → t + remain ≤ q.size
        → All slot.IsValue it
        → Returns
            (insert_loop slot p n m (writer (wrapping_add c t) remain) it)
            (Filled c t n m (writer (wrapping_add c t) remain) it)
    insert_loop-Filled [] t n m remain small room good =
        unfold insert_loop in Filled-done [] t n m remain (omega arith)
    insert_loop-Filled (x ∷ it) t n m zero small room good =
        unfold insert_loop next in Filled-done (x ∷ it) t n m zero (omega arith)
    insert_loop-Filled (x ∷ it) t n m (suc remain) small room good =
        rw (insert_loop-suc x it n m (wrapping_add c t) remain (omega arith)) (
          Returns-map _ _ _
            (subst
              (λ b.
                Returns (insert_loop slot p (n + 1) m' (writer b remain) it)
                  (Filled c (t + 1) (n + 1) m' (writer b remain) it))
              onward
              (insert_loop-Filled it (t + 1) (n + 1) m' remain (omega arith) (omega arith) good.1))
            (λ out. Filled-step x it t n m remain out room good.0))
      where
        m' : Memory
        m' = slot.store m (address slot q.inner (wrapping_add c t)) x

        onward : wrapping_add c (t + 1) ≡ wrapping_add (wrapping_add c t) 1
        onward = omega arith
