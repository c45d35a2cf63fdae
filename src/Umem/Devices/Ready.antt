-- ===== src/Umem/Devices/Ready.antt =====
-- A device queue on a system where every call succeeds: `fq_cq` returns it, with two empty rings.
use xdpilone.Base.{
  ℕ, ◌*◌, ◌^◌, ◌<◌, ◌≡◌, refl, sym, subst, true, false, Profile, is_power_of_two, List, ◌∷◌, [],
}
use xdpilone.Xdp.{XdpRingOffsets}
use xdpilone.Sys.{Ran, returned, failed, panicked, Libc, Buffer, sol_xdp, and_then}
use xdpilone.Sys.Works.{
  Works, Answers, Carries, Carries-trans, Succeeds, Succeeds-and_then, Succeeds-map,
}
use xdpilone.Iface.{
  SocketMmapOffsets, latest_of, xdp_mmap_offsets, opt_latest, read_offsets, set_from_fd,
}
use xdpilone.Iface.Info.{IfCtx}
use xdpilone.Ring.{RingProd}
use xdpilone.Ring.Map.{fill, comp, xdp_umem_pgoff_fill_ring, xdp_umem_pgoff_completion_ring}
use xdpilone.Ring.Map.Fresh.{AllReported, NewRing, IsEmpty, Carries-IsEmpty, map_ring-Succeeds}
use xdpilone.Umem.{Umem, UmemConfig}
use xdpilone.Umem.Devices.{
  Socket, DeviceQueue, Host, set_at, set_u32, configure_cq, build_device, or_unmap, or_remove,
  claim_with, fq_cq, xdp_umem_completion_ring, xdp_umem_fill_ring,
}
use xdpilone.Umem.Devices.Control.{contains, insert-new}

-- The sizes of a umem's rings are such as the kernel takes.
pub record IsSized (config : UmemConfig) : Type 0 where
  pub fill_pow : is_power_of_two config.fill_size ≡ true
  pub complete_pow : is_power_of_two config.complete_size ≡ true
  pub fill_small : config.fill_size * 8 < 2 ^ 32
  pub complete_small : config.complete_size * 8 < 2 ^ 32

-- What every kernel reports.
abbrev pub Reports : {W : Type 0} (libc : Libc W) → Works libc → Type 0
Reports {W} libc v =
    (fd : ℕ) (init : Buffer) (w : W)
    → AllReported v (latest_of (libc.getsockopt fd sol_xdp xdp_mmap_offsets init opt_latest w).1)

module _ {W : Type 0} {libc : Libc W} (v : Works libc) where
  -- A device queue with two empty rings, whose heads are kept.
  pub record IsReady (d : DeviceQueue) (w : W) : Type 0 where
    pub prod_start : ℕ
    pub prod_off : XdpRingOffsets
    pub prod_count : ℕ
    pub prod : IsEmpty v w prod_start prod_off prod_count d.fcq.prod.inner
    pub cons_start : ℕ
    pub cons_off : XdpRingOffsets
    pub cons_count : ℕ
    pub cons : IsEmpty v w cons_start cons_off cons_count d.fcq.cons.inner

  pub Carries-IsReady : {d : DeviceQueue} {w w' : W} → Carries v w w' → IsReady d w → IsReady d w'
  Carries-IsReady c d = record {
    prod_start = d.prod_start;
    prod_off = d.prod_off;
    prod_count = d.prod_count;
    prod = Carries-IsEmpty v c d.prod;
    cons_start = d.cons_start;
    cons_off = d.cons_off;
    cons_count = d.cons_count;
    cons = Carries-IsEmpty v c d.cons;
  }

  -- What `fq_cq` leaves of the world.
  abbrev pub Built : Umem → Socket → W → DeviceQueue → W → Type 0
  Built umem interface w d w' =
      (d.socket ≡ interface) × (d.devices ≡ umem.devices) × IsReady d w' × Carries v w w'

module _ {W : Type 0} {libc : Libc W} (v : Works libc) (a : Answers libc v) where
  pub set_u32-Succeeds :
      (fd name value : ℕ) (w : W) → Succeeds (set_u32 libc fd name value w) (λ _ w'. Carries v w w')
  set_u32-Succeeds fd name value w =
      let (e, c) = a.setsockopt_lem fd sol_xdp name (value ∷ []) 4 w in rw e c

  configure_cq-Succeeds :
      (fd : ℕ) (config : UmemConfig) (w : W)
      → Succeeds (configure_cq libc fd config w) (λ _ w'. Carries v w w')
  unfolding configure_cq
  configure_cq-Succeeds fd config w =
      Succeeds-and_then (λ _ w1. Carries v w w1) _ _ _
        (set_u32-Succeeds fd xdp_umem_completion_ring config.complete_size w)
        λ _ w1 c1.
          Succeeds-map (λ _ w2. Carries v w1 w2) _ _
            (set_u32-Succeeds fd xdp_umem_fill_ring config.fill_size w1)
            λ _ w2 c2. Carries-trans v c1 c2

  module _ (r : Reports libc v) (p : Profile) (init : Buffer) where
    pub set_from_fd-Succeeds :
        (fd : ℕ) (w : W)
        → Succeeds (set_from_fd libc p init fd w) (λ o w'. AllReported v o.inner × Carries v w w')
    unfolding set_from_fd read_offsets and_then
    set_from_fd-Succeeds fd w =
        let (e, n, c) = a.getsockopt_lem fd sol_xdp xdp_mmap_offsets init opt_latest w in
        rw (e, n) (r fd init w, c)

    fill-Succeeds :
        (fd : ℕ) (o : SocketMmapOffsets) (count : ℕ)
        → AllReported v o.inner
        → is_power_of_two count ≡ true
        → count * 8 < 2 ^ 32
        → (w : W)
        → Succeeds
            (fill libc p fd o count w)
            (λ q w'. NewRing v w o.inner.fr count 8 q.inner q.mmap_addr w')
    unfolding fill
    fill-Succeeds fd o count rep pow small w =
        Succeeds-and_then (λ x w1. NewRing v w o.inner.fr count 8 x.0 x.1 w1) _ _ _
          (map_ring-Succeeds v a p fd o.inner.fr count 8 xdp_umem_pgoff_fill_ring rep.fr pow small
            w)
          λ x w1 n. n

    comp-Succeeds :
        (fd : ℕ) (o : SocketMmapOffsets) (count : ℕ)
        → AllReported v o.inner
        → is_power_of_two count ≡ true
        → count * 8 < 2 ^ 32
        → (w : W)
        → Succeeds
            (comp libc p fd o count w)
            (λ q w'. NewRing v w o.inner.cr count 8 q.inner q.mmap_addr w')
    unfolding comp
    comp-Succeeds fd o count rep pow small w =
        Succeeds-and_then (λ x w1. NewRing v w o.inner.cr count 8 x.0 x.1 w1) _ _ _
          (map_ring-Succeeds v a p fd o.inner.cr count 8 xdp_umem_pgoff_completion_ring rep.cr pow
            small w)
          λ x w1 n. n

    or_unmap-Succeeds :
        {A : Type 0} (prod : RingProd) (o : Ran W A) (P : A → W → Type 0)
        → Succeeds o P
        → Succeeds (or_unmap libc prod o) P
    or_unmap-Succeeds prod (returned x w) P h = h
    or_unmap-Succeeds prod (failed e w) P h = absurd h
    or_unmap-Succeeds prod panicked P h = absurd h

    build_device-Succeeds :
        (umem : Umem) (interface : Socket) (w : W)
        → IsSized umem.config
        → Succeeds (build_device libc p init umem interface w) (Built v umem interface w)
    unfolding build_device
    build_device-Succeeds umem interface w sized =
        Succeeds-and_then (λ _ w1. Carries v w w1) _ _ _
          (configure_cq-Succeeds interface.fd umem.config w)
          λ _ w1 c1.
            Succeeds-and_then (λ o w2. AllReported v o.inner × Carries v w1 w2) _ _ _
              (set_from_fd-Succeeds interface.fd w1)
              λ o w2 (rep, c2).
                Succeeds-and_then
                  (λ q w3. NewRing v w2 o.inner.fr umem.config.fill_size 8 q.inner q.mmap_addr w3) _
                  _ _
                  (fill-Succeeds interface.fd o umem.config.fill_size rep sized.fill_pow
                    sized.fill_small w2)
                  λ prod w3 n3.
                    Succeeds-and_then
                      (λ q w4.
                        NewRing v w3 o.inner.cr umem.config.complete_size 8 q.inner q.mmap_addr w4)
                      _ _ _
                      (or_unmap-Succeeds prod
                        (comp libc p interface.fd o umem.config.complete_size w3)
                        (λ q w4.
                          NewRing v w3 o.inner.cr umem.config.complete_size 8 q.inner q.mmap_addr
                            w4)
                        (comp-Succeeds interface.fd o umem.config.complete_size rep
                          sized.complete_pow sized.complete_small w3))
                      λ cons w4 n4. (
                        refl,
                        refl,
                        record {
                          prod_start = prod.mmap_addr.start;
                          prod_off = o.inner.fr;
                          prod_count = umem.config.fill_size;
                          prod = Carries-IsEmpty v n4.carries n3.empty;
                          cons_start = cons.mmap_addr.start;
                          cons_off = o.inner.cr;
                          cons_count = umem.config.complete_size;
                          cons = n4.empty;
                        },
                        Carries-trans v c1
                            (Carries-trans v c2 (Carries-trans v n3.carries n4.carries)),
                      )

    or_remove-Succeeds :
        (umem : Umem) (ctx : IfCtx) (sets : ℕ → List IfCtx) (o : Ran W DeviceQueue)
        (P : DeviceQueue → W → Type 0)
        → Succeeds o P
        → Succeeds (or_remove libc p init umem ctx sets o) (λ d h. P d h.world × (h.sets ≡ sets))
    or_remove-Succeeds umem ctx sets (returned d w) P h = (h, refl)
    or_remove-Succeeds umem ctx sets (failed e w) P h = absurd h
    or_remove-Succeeds umem ctx sets panicked P h = absurd h

    -- Where every call succeeds, `fq_cq` returns the queue of a context that is not taken.
    pub fq_cq-Succeeds :
        (umem : Umem) (interface : Socket) (h : Host W)
        → IsSized umem.config
        → contains interface.info.ctx (h.sets umem.devices) ≡ false
        → Succeeds (fq_cq libc p init umem interface h) (λ d h'.
          Built v umem interface h.world d h'.world
          × (h'.sets ≡ set_at h.sets umem.devices (interface.info.ctx ∷ h.sets umem.devices)))
    unfolding fq_cq
    fq_cq-Succeeds umem interface h sized free =
        subst
          (λ o. Succeeds (claim_with libc p init umem interface h o) (λ d h'.
            Built v umem interface h.world d h'.world
            × (h'.sets ≡ set_at h.sets umem.devices (interface.info.ctx ∷ h.sets umem.devices))))
          (sym (insert-new interface.info.ctx (h.sets umem.devices) free))
          (or_remove-Succeeds umem interface.info.ctx _ _ _
            (build_device-Succeeds umem interface h.world sized))
