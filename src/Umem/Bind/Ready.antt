-- ===== src/Umem/Bind/Ready.antt =====
-- The transmit ring of a socket on a system where every call succeeds.
use xdpilone.Base.{
  ℕ, ◌*◌, ◌^◌, ◌<◌, ◌≡◌, refl, true, Profile, is_power_of_two, Option, none, some, [], ◌∷◌,
}
use xdpilone.Sys.{Libc, Buffer}
use xdpilone.Sys.Works.{
  Works, Answers, Carries, Carries-trans, Succeeds, Succeeds-and_then, Succeeds-map,
}
use xdpilone.Iface.{SocketMmapOffsets}
use xdpilone.Socket.{Socket}
use xdpilone.Ring.Map.{tx, xdp_pgoff_tx_ring}
use xdpilone.Ring.Map.Fresh.{AllReported, NewRing, map_ring-Succeeds}
use xdpilone.Umem.Devices.Ready.{Reports, set_u32-Succeeds, set_from_fd-Succeeds}
use xdpilone.Umem.Bind.{
  User, SocketConfig, configure_rt, set_size, rx_tx, map_tx, bind_at, address_of, xdp_rx_ring,
  xdp_tx_ring,
}

module _ {W : Type 0} {libc : Libc W} (v : Works libc) (a : Answers libc v) where
  set_size-Succeeds :
      (fd name : ℕ) (size : Option ℕ) (w : W)
      → Succeeds (set_size libc fd name size w) (λ _ w'. Carries v w w')
  set_size-Succeeds fd name none w = λ x k. (k, refl)
  set_size-Succeeds fd name (some num) w = set_u32-Succeeds v a fd name num w

  configure_rt-Succeeds :
      (fd : ℕ) (config : SocketConfig) (w : W)
      → Succeeds (configure_rt libc fd config w) (λ _ w'. Carries v w w')
  unfolding configure_rt
  configure_rt-Succeeds fd config w =
      Succeeds-and_then (λ _ w1. Carries v w w1) _ _ _
        (set_size-Succeeds fd xdp_rx_ring config.rx_size w)
        λ _ w1 c1.
          Succeeds-map (λ _ w2. Carries v w1 w2) _ _
            (set_size-Succeeds fd xdp_tx_ring config.tx_size w1) λ _ w2 c2. Carries-trans v c1 c2

  pub bind_at-Succeeds :
      (user : User) (fd : ℕ) (w : W) → Succeeds (bind_at libc user fd w) (λ _ w'. Carries v w w')
  unfolding bind_at
  bind_at-Succeeds user fd w =
      let s = address_of libc.af_xdp user fd in
      let (e, c) =
        a.bind_lem user.socket.fd
          (s.family ∷ s.flags ∷ s.ifindex ∷ s.queue_id ∷ s.shared_umem_fd ∷ []) 16 w in
      rw e c

  module _ (r : Reports libc v) (p : Profile) (init : Buffer) where
    pub rx_tx-Succeeds :
        (interface : Socket) (config : SocketConfig) (w : W)
        → Succeeds (rx_tx libc p init interface config w) (λ u w'.
          (u.socket ≡ interface) × (u.config ≡ config) × AllReported v u.map.inner × Carries v w w')
    unfolding rx_tx
    rx_tx-Succeeds interface config w =
        Succeeds-and_then (λ _ w1. Carries v w w1) _ _ _
          (configure_rt-Succeeds interface.fd config w)
          λ _ w1 c1.
            Succeeds-and_then (λ o w2. AllReported v o.inner × Carries v w1 w2) _ _ _
              (set_from_fd-Succeeds v a r p init interface.fd w1)
              λ o w2 (rep, c2). (refl, refl, rep, Carries-trans v c1 c2)

  tx-Succeeds :
      (p : Profile) (fd : ℕ) (o : SocketMmapOffsets) (count : ℕ)
      → AllReported v o.inner
      → is_power_of_two count ≡ true
      → count * 16 < 2 ^ 32
      → (w : W)
      → Succeeds
          (tx libc p fd o count w)
          (λ q w'. NewRing v w o.inner.tx count 16 q.inner q.mmap_addr w')
  unfolding tx
  tx-Succeeds p fd o count rep pow small w =
      Succeeds-and_then (λ x w1. NewRing v w o.inner.tx count 16 x.0 x.1 w1) _ _ _
        (map_ring-Succeeds v a p fd o.inner.tx count 16 xdp_pgoff_tx_ring rep.tx pow small w)
        λ x w1 n. n

  pub map_tx-Succeeds :
      (p : Profile) (user : User) (count : ℕ) (w : W)
      → user.config.tx_size ≡ some count
      → AllReported v user.map.inner
      → is_power_of_two count ≡ true
      → count * 16 < 2 ^ 32
      → Succeeds
          (map_tx libc p user w)
          (λ t w'. NewRing v w user.map.inner.tx count 16 t.ring.inner t.ring.mmap_addr w')
  unfolding map_tx
  map_tx-Succeeds p user count w sized rep pow small = rw sized (
      Succeeds-and_then (λ n w1. (n ≡ count) × (w1 ≡ w)) _ _ _ (refl, refl)
        λ n w1 (e, e1).
          Succeeds-and_then (λ q w2. NewRing v w user.map.inner.tx count 16 q.inner q.mmap_addr w2)
            _ _ _ (rw (e, e1) (tx-Succeeds p user.socket.fd user.map count rep pow small w))
            λ q w2 n2. n2)
