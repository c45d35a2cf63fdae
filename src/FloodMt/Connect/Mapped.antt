-- ===== src/FloodMt/Connect/Mapped.antt =====
-- The transmit rings of examples/flood-mt.rs, mapped on a system where every call succeeds.
use xdpilone.Base.{
  ℕ, suc, ◌^◌, ◌≡◌, refl, sym, ap, subst, true, Profile, List, [], ◌∷◌, length, arith, All,
  is_power_of_two,
}
use xdpilone.Sys.{Libc, Buffer}
use xdpilone.Sys.Works.{Works, Answers, Carries, Carries-trans, Succeeds, Succeeds-and_then}
use xdpilone.Ring.Map.Fresh.{NewRing}
use xdpilone.Umem.Devices.{DeviceQueue, Host}
use xdpilone.Umem.Devices.Ready.{IsReady, Carries-IsReady}
use xdpilone.Umem.Bind.{User, RingTx, map_rx, map_tx}
use xdpilone.Umem.Bind.Ready.{map_tx-Succeeds}
use xdpilone.Flood.Connect.{assert_err}
use xdpilone.Flood.Connect.Opened.{
  call-Succeeds, map_rx-refused, Opened, Carries-Opened, NewRing-Opened,
}
use xdpilone.FloodMt.Connect.{map_all}
use xdpilone.FloodMt.Connect.Ready.{All-map, IsConfigured}

pow_12 : is_power_of_two (2 ^ 12) ≡ true
unfolding is_power_of_two
pow_12 = refl

module _ {W : Type 0} {libc : Libc W} (v : Works libc) where
  -- Every transmit ring lies apart from the completion rings of all devices.
  abbrev pub AllOpened : List DeviceQueue → List RingTx → W → Type 0
  AllOpened devices tx_queues w = All (λ tx. All (λ d. Opened v (2 ^ 12) d tx w) devices) tx_queues

  -- What `map_all` leaves.
  pub record AllMapped (devices : List DeviceQueue) (sockets : ℕ) (w : W) (tx_queues : List RingTx)
      (w' : W) : Type 0 where
    pub count : length tx_queues ≡ sockets
    pub opened : AllOpened devices tx_queues w'
    pub carries : Carries v w w'

  module _ (a : Answers libc v) (p : Profile) (init : Buffer) (devices : List DeviceQueue) where
    pub map_all-Succeeds :
        (to_binds : List User) (h : Host W)
        → All (λ d. IsReady v d h.world) devices
        → All (IsConfigured v) to_binds
        → Succeeds
            (map_all libc p init to_binds h)
            (λ txs h'. AllMapped devices (length to_binds) h.world txs h'.world)
    map_all-Succeeds [] h ready configured = record {
      count = refl;
      opened = tt;
      carries = λ x k. (k, refl);
    }
    map_all-Succeeds (user ∷ to_binds) h ready ((config, rep), configured) =
        Succeeds-and_then
          (λ t h1.
            NewRing v h.world user.map.inner.tx (2 ^ 12) 16 t.ring.inner t.ring.mmap_addr h1.world
            × (h1.sets ≡ h.sets))
          _ _ _
          (call-Succeeds (map_tx libc p user) h
            (λ t w1.
              NewRing v h.world user.map.inner.tx (2 ^ 12) 16 t.ring.inner t.ring.mmap_addr w1)
            (map_tx-Succeeds v a p user (2 ^ 12) h.world (ap (λ c. c.tx_size) config) rep pow_12
              (omega arith)))
          λ tx h1 (n1, s1).
            Succeeds-and_then (λ _ h2. (h2.world ≡ h1.world) × (h2.sets ≡ h1.sets)) _ _ _
              (call-Succeeds (λ w. assert_err (map_rx libc p user w)) h1 (λ _ w2. w2 ≡ h1.world)
                (map_rx-refused libc p user h1.world (ap (λ c. c.rx_size) config)))
              λ _ h2 (e2, s2).
                let c2 : Carries v h.world h2.world =
                  subst (Carries v h.world) (sym e2) n1.carries in
                Succeeds-and_then
                  (λ txs h3. AllMapped devices (length to_binds) h2.world txs h3.world) _ _ _
                  (map_all-Succeeds to_binds h2
                    (All-map (λ d ready. Carries-IsReady v c2 ready) devices ready) configured)
                  λ txs h3 m. record {
                    count = ap suc m.count;
                    opened = (
                      All-map
                          (λ d ready. Carries-Opened v m.carries (
                            subst (Opened v (2 ^ 12) d tx) (sym e2) (
                              NewRing-Opened v (2 ^ 12) d tx user.map.inner.tx h.world h1.world
                                ready n1)))
                          devices ready,
                      m.opened,
                    );
                    carries = Carries-trans v c2 m.carries;
                  }
