-- ===== src/FloodMt/Connect/Ready.antt =====
-- The loops of examples/flood-mt.rs that create, bind and map the sockets, on a system where every call
-- succeeds.
use xdpilone.Base.{
  ℕ, zero, suc, ◌+◌, ◌≡◌, ◌≢◌, ◌==◌, refl, sym, ap, ap₂, ◌∙◌, subst, true, false, Profile, List, [],
  ◌∷◌, ◌++◌, length, length-append, map, inl, inr, arith, All,
}
use xdpilone.Sys.{Libc, Buffer}
use xdpilone.Sys.Works.{
  Works, Answers, Carries, Carries-trans, Succeeds, Succeeds-and_then, Succeeds-map,
}
use xdpilone.Iface.Info.{IfCtx, IfInfo, same_ctx}
use xdpilone.Socket.{Socket, with_shared, new_socket}
use xdpilone.Ring.Map.Fresh.{AllReported}
use xdpilone.Umem.{Umem}
use xdpilone.Umem.Devices.{DeviceQueue, Host, set_at, fq_cq}
use xdpilone.Umem.Devices.Claim.{set_at-at}
use xdpilone.Umem.Devices.Control.{contains}
use xdpilone.Umem.Devices.Ready.{Reports, IsSized, IsReady, Carries-IsReady, Built, fq_cq-Succeeds}
use xdpilone.Umem.Bind.{User, rx_tx}
use xdpilone.Umem.Bind.Ready.{rx_tx-Succeeds}
use xdpilone.Flood.Connect.Ready.{IsFor, with_shared-Succeeds, new_socket-Succeeds}
use xdpilone.Flood.Connect.Opened.{unwrap-Succeeds, call-Succeeds}
use xdpilone.FloodMt.Connect.{mt_config, socket_for, device_for, create_all}
use xdpilone.FloodMt.Connect.Rounds.{Lacks, Claims, claimed}

abbrev pub info_index : IfInfo → ℕ
info_index info = info.ctx.ifindex

abbrev pub indices : List IfCtx → List ℕ
indices l = map (λ c. c.ifindex) l

pub All-map :
    {A : Type 0} {P Q : A → Type 0} → ((x : A) → P x → Q x) → (l : List A) → All P l → All Q l
All-map f [] h = tt
All-map f (x ∷ l) (h, hs) = (f x h, All-map f l hs)

All-append : {A : Type 0} (P : A → Type 0) (l l' : List A) → All P l → All P l' → All P (l ++ l')
All-append P [] l' h h' = h'
All-append P (x ∷ l) l' (h, hs) h' = (h, All-append P l l' hs h')

-- A context with an index of its own is not in the set.
contains-Lacks :
    (ctx : IfCtx) (l : List IfCtx) → Lacks ctx.ifindex (indices l) → contains ctx l ≡ false
unfolding contains same_ctx
contains-Lacks ctx [] h = refl
contains-Lacks ctx (x ∷ l) (ne, h) = ground (arith, contains-Lacks ctx l h)

module _ {W : Type 0} {libc : Libc W} (v : Works libc) where
  -- What `rx_tx` leaves for `map_tx`.
  abbrev pub IsConfigured : User → Type 0
  IsConfigured user = (user.config ≡ mt_config) × AllReported v user.map.inner

  -- What `device_for` leaves: `n` devices, and the indices of the contexts that are taken.
  record Pushed (umem : Umem) (taken : List ℕ) (n : ℕ) (w : W) (devices : List DeviceQueue)
      (h : Host W) : Type 0 where
    count : length devices ≡ n
    ready : All (λ d. IsReady v d h.world) devices
    same_taken : indices (h.sets umem.devices) ≡ taken
    carries : Carries v w h.world

  -- What `create_all` leaves.
  pub record AllCreated (sockets n : ℕ) (w : W) (devices : List DeviceQueue) (to_binds : List User)
      (w' : W) : Type 0 where
    pub users : length to_binds ≡ sockets
    pub count : length devices ≡ n
    pub ready : All (λ d. IsReady v d w') devices
    pub configured : All IsConfigured to_binds
    pub carries : Carries v w w'

module _ {W : Type 0} {libc : Libc W} (v : Works libc) (a : Answers libc v) (r : Reports libc v)
    (p : Profile) (init : Buffer) (umem : Umem) where
  socket_for-Succeeds :
      (idx : ℕ) (info : IfInfo) (h : Host W)
      → Succeeds
          (socket_for libc p init umem idx info h)
          (λ sock h'. (IsFor info sock × Carries v h.world h'.world) × (h'.sets ≡ h.sets))
  socket_for-Succeeds zero info h =
      call-Succeeds (with_shared libc info umem.fd) h (λ s w'. IsFor info s × Carries v h.world w')
        (Succeeds-map (λ s w'. (s.fd ≡ umem.fd) × IsFor info s × Carries v h.world w') _ _
          (with_shared-Succeeds v a info umem.fd h.world) λ s w' (e, is, c). (is, c))
  socket_for-Succeeds (suc idx) info h =
      let other : (suc idx == 0) ≡ false = ground arith in
      rw other (
        call-Succeeds (new_socket libc info) h (λ s w'. IsFor info s × Carries v h.world w')
          (new_socket-Succeeds v a info h.world))

  -- At a place of the list's own the device is new.
  push-Succeeds :
      (sized : IsSized umem.config) (idx : ℕ) (info : IfInfo) (taken : List ℕ) (sock : Socket)
      (h : Host W)
      → Lacks (info_index info) taken
      → IsFor info sock
      → indices (h.sets umem.devices) ≡ taken
      → Succeeds
          (device_for libc p init umem idx idx sock h)
          (λ ds h'. Pushed v umem (info_index info ∷ taken) 1 h.world ds h')
  push-Succeeds sized idx info taken sock h lacks is e =
      let same : (idx == idx) ≡ true = ground arith in
      let free : contains sock.info.ctx (h.sets umem.devices) ≡ false =
        contains-Lacks sock.info.ctx (h.sets umem.devices) (
          subst (λ i. Lacks i (indices (h.sets umem.devices))) (sym is.same_index)
            (subst (Lacks (info_index info)) (sym e) lacks)) in
      rw same (
        Succeeds-and_then
          (λ d h'.
            Built v umem sock h.world d h'.world
            × (h'.sets ≡ set_at h.sets umem.devices (sock.info.ctx ∷ h.sets umem.devices)))
          _ _ _
          (unwrap-Succeeds (fq_cq libc p init umem sock h) _
            (fq_cq-Succeeds v a r p init umem sock h sized free))
          λ d h' ((on, devices, ready, c), s). record {
            count = refl;
            ready = (ready, tt);
            same_taken =
                ap indices (ap (λ f. f umem.devices) s ∙ set_at-at h.sets umem.devices _)
                ∙ ap₂ ◌∷◌ is.same_index e;
            carries = c;
          })

  -- At another place nothing is done.
  pass-Succeeds :
      (idx dev_idx : ℕ) (taken : List ℕ) (sock : Socket) (h : Host W)
      → idx ≢ dev_idx
      → indices (h.sets umem.devices) ≡ taken
      → Succeeds
          (device_for libc p init umem idx dev_idx sock h)
          (λ ds h'. Pushed v umem taken 0 h.world ds h')
  pass-Succeeds idx dev_idx taken sock h ne e =
      let other : (idx == dev_idx) ≡ false = ground arith in
      rw other (record { count = refl; ready = tt; same_taken = e; carries = λ x k. (k, refl) })

  -- What a place of the list is: the devices it pushes, and what is taken behind it.
  record Turn (idx dev_idx : ℕ) (info : IfInfo) (items : List (ℕ × IfInfo)) (taken : List ℕ)
      : Type 0 where
    taken' : List ℕ
    pushes : ℕ
    further : Claims info_index (suc idx) items taken'
    counted : claimed idx ((dev_idx, info) ∷ items) ≡ pushes + claimed (suc idx) items
    pushing :
        (sock : Socket) (h : Host W)
        → IsFor info sock
        → indices (h.sets umem.devices) ≡ taken
        → Succeeds
            (device_for libc p init umem idx dev_idx sock h)
            (λ ds h'. Pushed v umem taken' pushes h.world ds h')

  turn :
      (sized : IsSized umem.config) (idx dev_idx : ℕ) (info : IfInfo) (items : List (ℕ × IfInfo))
      (taken : List ℕ)
      → Claims info_index idx ((dev_idx, info) ∷ items) taken
      → Turn idx dev_idx info items taken
  turn sized idx dev_idx info items taken (inl (e, lacks, rest)) = record {
    taken' = info_index info ∷ taken;
    pushes = 1;
    further = rest;
    counted = ground (arith, e);
    pushing = λ sock h is same.
        subst
          (λ i.
            Succeeds (device_for libc p init umem idx i sock h)
              (λ ds h'. Pushed v umem (info_index info ∷ taken) 1 h.world ds h'))
          e (push-Succeeds sized idx info taken sock h lacks is same);
  }
  turn sized idx dev_idx info items taken (inr (ne, rest)) = record {
    taken' = taken;
    pushes = 0;
    further = rest;
    counted = ground (arith, ne);
    pushing = λ sock h is same. pass-Succeeds idx dev_idx taken sock h ne same;
  }

  pub create_all-Succeeds :
      (sized : IsSized umem.config) (idx : ℕ) (items : List (ℕ × IfInfo)) (taken : List ℕ)
      (h : Host W)
      → Claims info_index idx items taken
      → indices (h.sets umem.devices) ≡ taken
      → Succeeds
          (create_all libc p init umem idx items h)
          (λ (ds, us) h'. AllCreated v (length items) (claimed idx items) h.world ds us h'.world)
  create_all-Succeeds sized idx [] taken h claims e = record {
    users = refl;
    count = refl;
    ready = tt;
    configured = tt;
    carries = λ x k. (k, refl);
  }
  create_all-Succeeds sized idx ((dev_idx, info) ∷ items) taken h claims e =
      let t = turn sized idx dev_idx info items taken claims in
      Succeeds-and_then
        (λ sock h1. (IsFor info sock × Carries v h.world h1.world) × (h1.sets ≡ h.sets)) _ _ _
        (socket_for-Succeeds idx info h)
        λ sock h1 ((is, c1), s1).
          Succeeds-and_then (λ ds h2. Pushed v umem t.taken' t.pushes h1.world ds h2) _ _ _
            (t.pushing sock h1 is (rw s1 e))
            λ ds h2 pu.
              Succeeds-and_then
                (λ u h3.
                  ((u.socket ≡ sock)
                    × (u.config ≡ mt_config)
                    × AllReported v u.map.inner
                    × Carries v h2.world h3.world)
                  × (h3.sets ≡ h2.sets))
                _ _ _
                (call-Succeeds (rx_tx libc p init sock mt_config) h2
                  (λ u w3.
                    (u.socket ≡ sock)
                    × (u.config ≡ mt_config)
                    × AllReported v u.map.inner
                    × Carries v h2.world w3)
                  (rx_tx-Succeeds v a r p init sock mt_config h2.world))
                λ u h3 ((on, config, rep, c3), s3).
                  Succeeds-and_then
                    (λ (ds', us) h4.
                      AllCreated v (length items) (claimed (suc idx) items) h3.world ds' us
                        h4.world)
                    _ _ _
                    (create_all-Succeeds sized (suc idx) items t.taken' h3 t.further
                      (rw s3 pu.same_taken))
                    λ (ds', us) h4 m. record {
                      users = ap suc m.users;
                      count = omega (arith, length-append ds ds', pu.count, m.count, t.counted);
                      ready =
                          All-append (λ d. IsReady v d h4.world) ds ds'
                            (All-map
                              (λ d ready. Carries-IsReady v m.carries (Carries-IsReady v c3 ready))
                              ds pu.ready)
                            m.ready;
                      configured = ((config, rep), m.configured);
                      carries =
                          Carries-trans v c1
                            (Carries-trans v pu.carries (Carries-trans v c3 m.carries));
                    }
