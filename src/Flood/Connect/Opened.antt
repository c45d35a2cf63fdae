-- ===== src/Flood/Connect/Opened.antt =====
-- The calls of examples/flood.rs behind the creation of its umem: the rings that they leave.
use native.Mathlib.Decide.{dec_lt}
use xdpilone.Base.{
  ℕ, ◌+◌, ◌*◌, ◌^◌, ◌≤◌, ◌<◌, ◌≡◌, refl, sym, ap, subst, true, false, Profile, List, none,
  is_power_of_two, arith, [], ◌∷◌, length, ◌⊎◌, inl, inr,
}
use xdpilone.Xdp.{XdpRingOffsets}
use xdpilone.Sys.{Ran, returned, failed, panicked, Libc, Buffer, and_then}
use xdpilone.Sys.Works.{Works, Answers, Carries, Succeeds, Succeeds-and_then}
use xdpilone.Iface.Info.{IfCtx}
use xdpilone.Socket.{Socket, with_shared}
use xdpilone.Ring.Map.Fresh.{AllReported, IsEmpty, Carries-IsEmpty, NewRing}
use xdpilone.Umem.{Umem}
use xdpilone.Umem.Devices.{DeviceQueue, Host, set_at, fq_cq}
use xdpilone.Umem.Devices.Control.{contains}
use xdpilone.Umem.Devices.Ready.{Reports, IsSized, IsReady, Carries-IsReady, Built, fq_cq-Succeeds}
use xdpilone.Umem.Bind.{User, RingTx, map_rx, map_tx, rx_tx, bind_umem}
use xdpilone.Umem.Bind.Ready.{rx_tx-Succeeds, map_tx-Succeeds, bind_at-Succeeds}
use xdpilone.Flood.Setup.{Args, has_nul, ifinfo}
use xdpilone.Flood.Connect.{unwrap, on_world, call, assert_err, flood_config, open_device, open_tx}
use xdpilone.Flood.Connect.Ready.{IsFor, ifinfo-Succeeds, with_shared-Succeeds}

pub unwrap-Succeeds :
    {W A : Type 0} (o : Ran W A) (P : A → W → Type 0) → Succeeds o P → Succeeds (unwrap o) P
unwrap-Succeeds (returned x w) P h = h
unwrap-Succeeds (failed e w) P h = h
unwrap-Succeeds panicked P h = h

on_world-Succeeds :
    {W A : Type 0} (sets : ℕ → List IfCtx) (o : Ran W A) (P : A → W → Type 0)
    → Succeeds o P
    → Succeeds (on_world sets o) (λ x h. P x h.world × (h.sets ≡ sets))
on_world-Succeeds sets (returned x w) P h = (h, refl)
on_world-Succeeds sets (failed e w) P h = absurd h
on_world-Succeeds sets panicked P h = absurd h

pub call-Succeeds :
    {W A : Type 0} (f : W → Ran W A) (h : Host W) (P : A → W → Type 0)
    → Succeeds (f h.world) P
    → Succeeds (call f h) (λ x h'. P x h'.world × (h'.sets ≡ h.sets))
call-Succeeds f h P ok_f =
    unwrap-Succeeds (on_world h.sets (f h.world)) _ (on_world-Succeeds h.sets (f h.world) P ok_f)

pub map_rx-refused :
    {W : Type 0} (libc : Libc W) (p : Profile) (user : User) (w : W)
    → user.config.rx_size ≡ none
    → Succeeds (assert_err (map_rx libc p user w)) (λ _ w'. w' ≡ w)
unfolding map_rx and_then
map_rx-refused libc p user w e = rw e refl

pow_14 : is_power_of_two (2 ^ 14) ≡ true
unfolding is_power_of_two
pow_14 = refl

contains-empty : (ctx : IfCtx) (l : List IfCtx) → l ≡ [] → contains ctx l ≡ false
unfolding contains
contains-empty ctx l e = rw e refl

module _ {W : Type 0} {libc : Libc W} (v : Works libc) where
  -- A device queue and a transmit ring of `count` entries: all rings are empty, and the transmit ring
  -- lies at words at which the completion ring's heads are not.
  pub record Opened (count : ℕ) (device : DeviceQueue) (tx : RingTx) (w : W) : Type 0 where
    pub device_ready : IsReady v device w
    pub tx_start : ℕ
    pub tx_off : XdpRingOffsets
    pub tx_empty : IsEmpty v w tx_start tx_off count tx.ring.inner
    pub producer_apart :
        (device.fcq.cons.producer < tx_start)
        ⊎ (tx_start + (tx_off.desc + count * 16) ≤ device.fcq.cons.producer)
    pub consumer_apart :
        (device.fcq.cons.consumer < tx_start)
        ⊎ (tx_start + (tx_off.desc + count * 16) ≤ device.fcq.cons.consumer)

  pub Carries-Opened :
      {count : ℕ} {device : DeviceQueue} {tx : RingTx} {w w' : W}
      → Carries v w w'
      → Opened count device tx w
      → Opened count device tx w'
  Carries-Opened c o = record {
    device_ready = Carries-IsReady v c o.device_ready;
    tx_start = o.tx_start;
    tx_off = o.tx_off;
    tx_empty = Carries-IsEmpty v c o.tx_empty;
    producer_apart = o.producer_apart;
    consumer_apart = o.consumer_apart;
  }

  -- A word that is kept lies outside of words that are not.
  outside :
      (w : W) (start len x : ℕ)
      → ((y : ℕ) → start ≤ y → y < start + len → v.kept w y ≡ false)
      → v.kept w x ≡ true
      → (x < start) ⊎ (start + len ≤ x)
  outside w start len x apart k = elim (dec_lt x start) [
    | yes low ↦ inl low
    | no not_low ↦ elim (dec_lt x (start + len)) [
      | yes within ↦ absurd (ground (arith, apart x (omega arith) within, k))
      | no high ↦ inr (omega arith)
    ]
  ]

  pub NewRing-Opened :
      (count : ℕ) (device : DeviceQueue) (tx : RingTx) (off : XdpRingOffsets) (w w' : W)
      → IsReady v device w
      → NewRing v w off count 16 tx.ring.inner tx.ring.mmap_addr w'
      → Opened count device tx w'
  NewRing-Opened count device tx off w w' ready n = record {
    device_ready = Carries-IsReady v n.carries ready;
    tx_start = tx.ring.mmap_addr.start;
    tx_off = off;
    tx_empty = n.empty;
    producer_apart = rw (← n.len) (outside w _ _ _ n.apart ready.cons.fresh.producer_kept);
    consumer_apart = rw (← n.len) (outside w _ _ _ n.apart ready.cons.fresh.consumer_kept);
  }

  module _ (a : Answers libc v) (r : Reports libc v) (p : Profile) (init : Buffer) where
    pub open_device-Succeeds :
        (args : Args) (umem : Umem) (h : Host W)
        → has_nul args.ifname ≡ false
        → length args.ifname < libc.ifnamsiz
        → IsSized umem.config
        → h.sets umem.devices ≡ []
        → Succeeds (open_device libc p init args umem h) (λ (sock, device) h'.
          (sock.fd ≡ umem.fd) × (device.socket ≡ sock) × IsReady v device h'.world)
    unfolding open_device
    open_device-Succeeds args umem h clean fits sized free =
        Succeeds-and_then (λ info h1. Carries v h.world h1.world × (h1.sets ≡ h.sets)) _ _ _
          (call-Succeeds (ifinfo libc args) h (λ _ w1. Carries v h.world w1)
            (ifinfo-Succeeds v a args h.world clean fits))
          λ info h1 (c1, s1).
            Succeeds-and_then
              (λ sock h2.
                ((sock.fd ≡ umem.fd) × IsFor info sock × Carries v h1.world h2.world)
                × (h2.sets ≡ h1.sets))
              _ _ _
              (call-Succeeds (with_shared libc info umem.fd) h1
                (λ s w2. (s.fd ≡ umem.fd) × IsFor info s × Carries v h1.world w2)
                (with_shared-Succeeds v a info umem.fd h1.world))
              λ sock h2 ((fd, is, c2), s2).
                Succeeds-and_then
                  (λ d h3.
                    Built v umem sock h2.world d h3.world
                    × (h3.sets
                        ≡ set_at h2.sets umem.devices (sock.info.ctx ∷ h2.sets umem.devices)))
                  _ _ _
                  (unwrap-Succeeds (fq_cq libc p init umem sock h2)
                    (λ d h3.
                      Built v umem sock h2.world d h3.world
                      × (h3.sets
                          ≡ set_at h2.sets umem.devices (sock.info.ctx ∷ h2.sets umem.devices)))
                    (fq_cq-Succeeds v a r p init umem sock h2 sized
                      (contains-empty sock.info.ctx _ (rw (s2, s1) free))))
                  λ device h3 ((same, devices, ready, c3), s3). (fd, same, ready)

    pub open_tx-Succeeds :
        (device : DeviceQueue) (umem : Umem) (sock : Socket) (h : Host W)
        → IsReady v device h.world
        → Succeeds
            (open_tx libc p init umem sock h)
            (λ (user, tx) h'. Opened (2 ^ 14) device tx h'.world)
    unfolding open_tx
    open_tx-Succeeds device umem sock h ready =
        Succeeds-and_then
          (λ u h1.
            ((u.socket ≡ sock)
              × (u.config ≡ flood_config)
              × AllReported v u.map.inner
              × Carries v h.world h1.world)
            × (h1.sets ≡ h.sets))
          _ _ _
          (call-Succeeds (rx_tx libc p init sock flood_config) h
            (λ u w1.
              (u.socket ≡ sock)
              × (u.config ≡ flood_config)
              × AllReported v u.map.inner
              × Carries v h.world w1)
            (rx_tx-Succeeds v a r p init sock flood_config h.world))
          λ user h1 ((on, config, rep, c1), s1).
            Succeeds-and_then (λ _ h2. (h2.world ≡ h1.world) × (h2.sets ≡ h1.sets)) _ _ _
              (call-Succeeds (λ w. assert_err (map_rx libc p user w)) h1 (λ _ w2. w2 ≡ h1.world)
                (map_rx-refused libc p user h1.world (ap (λ c. c.rx_size) config)))
              λ _ h2 (e2, s2).
                Succeeds-and_then
                  (λ t h3.
                    NewRing v h2.world user.map.inner.tx (2 ^ 14) 16 t.ring.inner t.ring.mmap_addr
                      h3.world
                    × (h3.sets ≡ h2.sets))
                  _ _ _
                  (call-Succeeds (map_tx libc p user) h2
                    (λ t w3.
                      NewRing v h2.world user.map.inner.tx (2 ^ 14) 16 t.ring.inner t.ring.mmap_addr
                        w3)
                    (map_tx-Succeeds v a p user (2 ^ 14) h2.world (ap (λ c. c.tx_size) config) rep
                      pow_14 (omega arith)))
                  λ tx h3 (n3, s3).
                    Succeeds-and_then (λ _ h4. Carries v h3.world h4.world × (h4.sets ≡ h3.sets)) _
                      _ _
                      (call-Succeeds (bind_umem libc umem user) h3 (λ _ w4. Carries v h3.world w4)
                        (bind_at-Succeeds v a user umem.fd h3.world))
                      λ _ h4 (c4, s4). Carries-Opened c4 (
                        NewRing-Opened (2 ^ 14) device tx user.map.inner.tx h2.world h3.world
                          (subst (IsReady v device) (sym e2) (Carries-IsReady v c1 ready)) n3)
