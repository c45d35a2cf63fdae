-- ===== src/Flood/Finish.antt =====
-- The main loop of examples/flood.rs reaches its end.
use xdpilone.Base.{
  ℕ, zero, suc, ◌+◌, ◌-◌, ◌≤◌, ◌<◌, ◌≡◌, ◌⊎◌, inl, inr, refl, subst, arith, true, false, length,
  min, some, ok, Returns, Returns-ok, Returns->>=, Profile, All, IsU32, IsPow2-pos, Bool-cases,
}
use xdpilone.Memory.{Memory}
use xdpilone.Xdp.{XdpDesc, IsDesc, desc_slot}
use xdpilone.Ring.{RingProd, RingCons}
use xdpilone.Ring.Entries.{IsLaidOut-same}
use xdpilone.Ring.Prod.Inv.{given}
use xdpilone.User.Write.Send.{send_batch, Sent, send_batch_lem}
use xdpilone.Flood.{Kernel, Loop, repeat, goes_on, round, flood}
use xdpilone.Flood.Promise.{IsApart, IsKernel, IsGood}
use xdpilone.Flood.Moves.{IsGood-given, Moves-IsGood, IsGood-Heads, Sent-IsGood}
use xdpilone.Flood.Round.{IsLoop, distance, Rounded, reap_lem}

pub length-repeat : {A : Type 0} (n : ℕ) (x : A) → length (repeat n x) ≡ n
length-repeat zero x = refl
length-repeat (suc n) x = omega (arith, length-repeat n x)

All-repeat : {A : Type 0} (P : A → Type 0) (n : ℕ) (x : A) → P x → All P (repeat n x)
All-repeat P zero x h = tt
All-repeat P (suc n) x h = (h, All-repeat P n x h)

-- The loop goes on while packets are to be sent or to be completed.
goes_on-cases :
    {E : Type 0} (total : ℕ) (s : Loop E)
    → s.completed ≤ s.sent
    → s.sent ≤ total
    → goes_on total s ≡ true
    → (s.sent < total) ⊎ (s.completed < s.sent)
goes_on-cases total s h h' on = ground (arith, on)

-- It ends with both counts at the total.
goes_on-ends :
    {E : Type 0} (total : ℕ) (s : Loop E)
    → goes_on total s ≡ false
    → (s.sent ≡ total) × (s.completed ≡ total)
goes_on-ends total s off = ground (arith, off)

-- Where a batch sends nothing of what it may send, the ring is full.
no_room :
    (n items size given sent : ℕ)
    → min 1 (min n (min items (size - given))) ≤ sent
    → sent ≡ 0
    → 0 < n
    → 0 < items
    → size ≤ given
no_room n items size given sent h e hn hi = omega arith

module _ {E : Type 0} {tx : RingProd} {cq : RingCons} (a : IsApart tx cq) {k : Kernel E}
    {rank : E → ℕ} {bound : ℕ} (ker : IsKernel tx cq k rank bound) (p : Profile)
    (wraps : p.overflow_checks ≡ false) (batch total : ℕ) (batch_pos : 0 < batch)
    (total_fits : IsU32 total) (desc : XdpDesc) (fits : IsDesc desc) where
  module _ (s : Loop E) (l : IsLoop tx cq total s) (on : goes_on total s ≡ true) where
    abbrev m1 : Memory
    m1 = k.before s.kernel_state (s.sent - s.completed) s.memory

    abbrev n : ℕ
    n = min (total - s.sent) batch

    g1 : IsGood tx cq m1 s.tx s.cq (s.sent - s.completed)
    g1 = Moves-IsGood a l.good (ker.before s.kernel_state _ s.memory (IsGood-Heads a l.good))

    sending :
        Returns
          (send_batch desc_slot p m1 s.tx n (repeat (suc n) desc))
          λ (sent, m, q). Sent desc_slot m1 s.tx n (repeat (suc n) desc) sent m q
    sending =
        send_batch_lem desc_slot p wraps g1.tx_idle (IsLaidOut-same desc_slot g1.tx_same a.tx_laid)
          n (repeat (suc n) desc) (All-repeat IsDesc (suc n) desc fits)

    module _ (sent : ℕ) (m : Memory) (q : RingProd)
        (st : Sent desc_slot m1 s.tx n (repeat (suc n) desc) sent m q) where
      sent_total : s.sent + sent ≤ total
      sent_total = omega (arith, st.at_most, l.sent_total)

      -- Where nothing is sent, all is sent, or the ring is full.
      stuck : sent ≡ 0 → s.completed < s.sent
      stuck e = elim (goes_on-cases total s l.completed_sent l.sent_total on) [
        | inl more ↦
            let full : s.tx.size ≤ given m1 s.tx =
              no_room n (length (repeat (suc n) desc)) s.tx.size (given m1 s.tx) sent st.progress e
                (omega arith) (omega (arith, length-repeat (suc n) desc)) in
            omega (arith, full, IsGood-given a g1, g1.under_way, IsPow2-pos g1.tx_idle.valid.pow)
        | inr left ↦ left
      ]

      good : IsGood tx cq m q s.cq (s.sent + sent - s.completed)
      good =
          subst (IsGood tx cq m q s.cq) (omega (arith, l.completed_sent))
            (Sent-IsGood a g1 n sent (repeat (suc n) desc) m q st)

    pub round_lem :
        Returns
          (round k p batch total desc s)
          (Rounded a ker p wraps batch total batch_pos total_fits desc s)
    unfolding round
    round_lem = Returns->>= _ _ _ _ sending λ (sent, m, q) st.
        reap_lem a ker p wraps batch total batch_pos total_fits desc s l m q sent (good sent m q st)
          (sent_total sent m q st) (stuck sent m q st)

  -- In a build without overflow checks, where the transmit and the completion ring lie apart and
  -- the kernel works as `IsKernel` says (it reports a packet under way within `bound` rounds, if
  -- it is woken whenever it asks for it), the size of a batch is not 0, the total is a u32 and the
  -- loop's rings are good with no more sent than the total and no more completed than sent: with
  -- any fuel above `distance` the loop of flood.rs ends, with both counts at the total, and its
  -- rings still good.
  pub flood-Returns :
      (fuel : ℕ) (s : Loop E)
      → IsLoop tx cq total s
      → distance rank bound total s < fuel
      → (s' : Loop E) × (flood k p batch total desc fuel s ≡ ok (some s'))
        × (s'.sent ≡ total)
        × (s'.completed ≡ total)
        × IsLoop tx cq total s'
  unfolding flood
  flood-Returns zero s l h = absurd (omega arith)
  flood-Returns (suc fuel) s l h = elim (Bool-cases (goes_on total s)) [
    | inl on ↦
        let (s1, e, r) = Returns-ok _ (round k p batch total desc s) (round_lem s l on) in
        let (s', e', es, ec, l') = flood-Returns fuel s1 r.again (omega (arith, r.nearer_end)) in
        (s', rw (on, e) e', es, ec, l')
    | inr off ↦ (s, rw off refl, (goes_on-ends total s off).0, (goes_on-ends total s off).1, l)
  ]
