-- ===== src/Flood/Round.antt =====
-- One round of the loop of examples/flood.rs: it returns, keeps what the loop relies on, and brings
-- the end nearer.
use native.Mathlib.Decide.{dec_lt}
use native.Mathlib.Nat.{mul-le-mul_left}
use xdpilone.Base.{
  ℕ, suc, ◌+◌, ◌-◌, ◌*◌, ◌^◌, ◌≤◌, ◌<◌, ◌≡◌, refl, sym, ap, subst, arith, Bool, false, not, bit_and,
  ◌==◌, ◌&&◌, if◌then◌else◌, List, length, min, ok, Returns, Returns-map, Returns->>=, Profile,
  add_u32, IsU32,
}
use xdpilone.Memory.{Memory, u64_slot}
use xdpilone.Xdp.{XdpDesc}
use xdpilone.Ring.{RingProd, RingCons}
use xdpilone.Ring.Entries.{IsLaidOut-same}
use xdpilone.Ring.Cons.Inv.{produced}
use xdpilone.User.Read.Receive.{Received, receive_batch_lem}
use xdpilone.Flood.{Kernel, Loop, Log, count_i32, digits, log_batch, needs_wakeup, track, reap}
use xdpilone.Flood.Promise.{IsApart, Moves, IsKernel, IsGood}
use xdpilone.Flood.Moves.{
  IsGood-Heads, IsGood-Fills, IsGood-produced, Moves-IsGood, Received-IsGood,
}

module _ (p : Profile) (wraps : p.overflow_checks ≡ false) where
  -- The statistics wrap.
  count-Returns : (n : ℕ) → Returns (count_i32 p n) (λ _. Unit {0})
  count-Returns n = ground arith

  count_if-Returns :
      (b : Bool) (n : ℕ) → Returns (if b then count_i32 p n else ok n) (λ _. Unit {0})
  count_if-Returns b n = ground (arith, count-Returns n)

  log-Returns : (log : Log) (n : ℕ) → Returns (log_batch p log n) (λ _. Unit {0})
  unfolding log_batch
  log-Returns log n =
      Returns->>= (λ _. Unit {0}) _ (count_i32 p (log (digits 32 n))) _ (count-Returns _)
        (λ c h. tt)

  add-Returns : (x y : ℕ) → x + y < 2 ^ 32 → Returns (add_u32 p x y) (λ z. z ≡ x + y)
  add-Returns x y h = ground arith

-- What the end of a round leaves of what it is given.
pub record Tracked {E : Type 0} (s : Loop E) (e : E) (m : Memory) (q : RingProd) (c : RingCons)
    (sent_now comp_now : ℕ) (s' : Loop E) : Type 0 where
  pub kernel_state : s'.kernel_state ≡ e
  pub memory : s'.memory ≡ m
  pub tx : s'.tx ≡ q
  pub cq : s'.cq ≡ c
  pub sent : s'.sent ≡ s.sent + sent_now
  pub completed : s'.completed ≡ s.completed + comp_now

module _ {E : Type 0} (k : Kernel E) (p : Profile) (wraps : p.overflow_checks ≡ false)
    (batch total : ℕ) (desc : XdpDesc) where
  track_lem :
      (s : Loop E) (e : E) (m : Memory) (q : RingProd) (c : RingCons) (woken sent_now comp_now : ℕ)
      → s.sent + sent_now < 2 ^ 32
      → s.completed + comp_now < 2 ^ 32
      → Returns
          (track k p batch total desc s e m q c woken sent_now comp_now)
          (Tracked s e m q c sent_now comp_now)
  unfolding track
  track_lem s e m q c woken sent_now comp_now hs hc =
      Returns->>= (λ _. Unit {0}) _ _ _
        (count_if-Returns p wraps (sent_now == 0 && comp_now == 0) s.stat_stall)
        λ stall _.
          Returns->>= (λ z. z ≡ s.sent + sent_now) _ _ _ (add-Returns p wraps s.sent sent_now hs)
            λ sent es.
              Returns->>= (λ z. z ≡ s.completed + comp_now) _ _ _
                (add-Returns p wraps s.completed comp_now hc)
                λ completed ec.
                  Returns->>= (λ _. Unit {0}) _ _ _ (count-Returns p wraps s.stat_loops)
                    λ loops _.
                      Returns->>= (λ _. Unit {0}) _ _ _
                        (log-Returns p wraps s.tx_log_batch sent_now)
                        λ tx_log _.
                          Returns->>= (λ _. Unit {0}) _ _ _
                            (log-Returns p wraps s.cq_log_batch comp_now)
                            λ cq_log _. record {
                              kernel_state = refl;
                              memory = refl;
                              tx = refl;
                              cq = refl;
                              sent = es;
                              completed = ec;
                            }

-- What the loop relies on: the rings are good, and no more has been completed than sent, nor sent than
-- was asked for.
pub record IsLoop {E : Type 0} (tx : RingProd) (cq : RingCons) (total : ℕ) (s : Loop E)
    : Type 0 where
  pub good : IsGood tx cq s.memory s.tx s.cq (s.sent - s.completed)
  pub completed_sent : s.completed ≤ s.sent
  pub sent_total : s.sent ≤ total

-- How far the end is: packets to be sent and to be completed, and the kernel's rank.
abbrev pub distance : {E : Type 0} → (E → ℕ) → ℕ → ℕ → Loop E → ℕ
distance rank bound total s = bound * (2 * total - (s.sent + s.completed)) + rank s.kernel_state

-- A round that sends or completes a packet comes nearer to the end, whatever the ranks.
nearer : (bound x x' r r' : ℕ) → x' < x → r' < bound → bound * x' + r' < bound * x + r
nearer bound x x' r r' lt less = omega (arith, mul-le-mul_left {m = suc x'} {n = x} bound lt)

module _ {E : Type 0} {tx : RingProd} {cq : RingCons} (a : IsApart tx cq) {k : Kernel E}
    {rank : E → ℕ} {bound : ℕ} (ker : IsKernel tx cq k rank bound) (p : Profile)
    (wraps : p.overflow_checks ≡ false) (batch total : ℕ) (batch_pos : 0 < batch)
    (total_fits : IsU32 total) (desc : XdpDesc) where
  -- A round leaves the loop as it should be, nearer to the end.
  pub record Rounded (s s' : Loop E) : Type 0 where
    pub again : IsLoop tx cq total s'
    pub nearer_end : distance rank bound total s' < distance rank bound total s

  module _ (s : Loop E) (l : IsLoop tx cq total s) (m : Memory) (q : RingProd) (sent_now : ℕ)
      (g : IsGood tx cq m q s.cq (s.sent + sent_now - s.completed))
      (fits : s.sent + sent_now ≤ total) (stuck : sent_now ≡ 0 → s.completed < s.sent) where
    abbrev under_way : ℕ
    under_way = s.sent + sent_now - s.completed

    abbrev wakes : Bool
    wakes = needs_wakeup m q

    abbrev m3 : Memory
    m3 = k.after s.kernel_state under_way wakes m

    abbrev comp_batch : ℕ
    comp_batch = min (s.sent - s.completed) batch

    g3 : IsGood tx cq m3 q s.cq under_way
    g3 = Moves-IsGood a g (ker.after s.kernel_state under_way wakes m (IsGood-Heads a g))

    between : Moves tx cq under_way m3 (k.between s.kernel_state under_way m3)
    between = ker.between s.kernel_state under_way m3 (IsGood-Heads a g3)

    -- Where nothing is sent and nothing is completed, the kernel has come nearer to a completion.
    quiet :
        sent_now ≡ 0
        → produced m3 cq ≡ 0
        → rank (k.next s.kernel_state under_way wakes m) < rank s.kernel_state
    quiet none_sent =
        subst
          (λ b.
            produced (k.after s.kernel_state under_way b m) cq ≡ 0
            → rank (k.next s.kernel_state under_way b m) < rank s.kernel_state)
          (ap (λ f. not (bit_and (m f) 1 == 0)) (sym g.tx_same.flags))
          (ker.live s.kernel_state under_way m (IsGood-Heads a g) (omega (arith, stuck none_sent)))

    -- A round in which nothing is sent reaps a packet, or the kernel comes nearer to a completion.
    nearer_lem :
        (items : List ℕ) (m5 : Memory) (c : RingCons)
        → Received u64_slot m3
            (k.between s.kernel_state under_way m3)
            s.cq
            comp_batch
            (suc comp_batch)
            items
            m5
            c
        → bound * (2 * total - (s.sent + sent_now + (s.completed + length items)))
            + rank (k.next s.kernel_state under_way wakes m)
          < bound * (2 * total - (s.sent + s.completed)) + rank s.kernel_state
    nearer_lem items m5 c r = elim (dec_lt 0 (sent_now + length items)) [
      | yes some_now ↦
          nearer bound _ _ _ _ (omega (arith, r.at_most, l.completed_sent, l.sent_total))
            (ker.bounded _)
      | no none_now ↦
          let none_sent : sent_now ≡ 0 = omega arith in
          let none_there : produced m3 cq ≡ 0 =
            omega (arith, r.progress, IsGood-produced a g3, stuck none_sent, batch_pos) in
          let same : 2 * total - (s.sent + sent_now + (s.completed + length items))
              ≡ 2 * total - (s.sent + s.completed) =
            omega arith in
          rw same (omega (arith, quiet none_sent none_there))
    ]

    Rounded-Tracked :
        (items : List ℕ) (m5 : Memory) (c : RingCons) (woken : ℕ) (s' : Loop E)
        → Received u64_slot m3
            (k.between s.kernel_state under_way m3)
            s.cq
            comp_batch
            (suc comp_batch)
            items
            m5
            c
        → Tracked s (k.next s.kernel_state under_way wakes m) m5 q c sent_now (length items) s'
        → Rounded s s'
    Rounded-Tracked items m5 c woken s' r t = record {
      again = record {
        good =
            rw (t.memory, t.tx, t.cq, t.sent, t.completed)
              (subst (λ n. IsGood tx cq m5 q c n) left
                (Received-IsGood a (Moves-IsGood a g3 between) r));
        completed_sent = omega (arith, t.sent, t.completed, r.at_most, l.completed_sent);
        sent_total = omega (arith, t.sent);
      };
      nearer_end = rw (t.sent, t.completed, t.kernel_state) (nearer_lem items m5 c r);
    }
      where
        left : under_way - length items ≡ s.sent + sent_now - (s.completed + length items)
        left = omega arith

    pub reap_lem : Returns (reap k p batch total desc s sent_now m q) (Rounded s)
    unfolding reap
    reap_lem =
        Returns->>= (λ _. Unit {0}) _ _ _ (count_if-Returns p wraps wakes s.stat_woken)
          λ woken _.
            Returns->>=
              (λ (items, m5, c).
                Received u64_slot m3 (k.between s.kernel_state under_way m3) s.cq comp_batch
                  (suc comp_batch) items m5 c)
              _ _ _
              (receive_batch_lem u64_slot p wraps g3.cq_idle
                (IsLaidOut-same u64_slot g3.cq_same a.cq_laid) (IsGood-Fills a g3 between.fills)
                comp_batch (suc comp_batch))
              λ (items, m5, c) r.
                Returns-map
                  (Tracked s (k.next s.kernel_state under_way wakes m) m5 q c sent_now
                    (length items))
                  (Rounded s)
                  (track k p batch total desc s (k.next s.kernel_state under_way wakes m) m5 q c
                    woken sent_now (length items))
                  (track_lem k p wraps batch total desc s (k.next s.kernel_state under_way wakes m)
                    m5 q c woken sent_now (length items) (omega arith)
                    (omega (arith, r.at_most, l.completed_sent, l.sent_total)))
                  (λ s' t. Rounded-Tracked items m5 c woken s' r t)
