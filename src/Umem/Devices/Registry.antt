-- ===== src/Umem/Devices/Registry.antt =====
-- What `fq_cq` and the drop of its `DeviceQueue` do to the set of taken queues and to the mappings.
use xdpilone.Base.{ℕ, ◌+◌, ◌≡◌, refl, ◌∙◌, false, Profile, arith, ◌==◌, ◌∷◌, []}
use xdpilone.Sys.{
  Ran, returned, failed, panicked, Libc, Buffer, Ends, Ends-and_then, Ends-map, Ends-if, check,
  sol_xdp,
}
use xdpilone.Sys.Mappings.{
  Mappings, SameHeld, Adds, one_at, Keeps, Keeps->>=, check-Keeps, compute-Keeps,
}
use xdpilone.Iface.{
  set_from_fd, fixup_all, fixup_v1, read_offsets, XdpRingOffsetsV1, XdpMmapOffsetsV1, opt_v1,
  opt_latest, v1_of, xdp_mmap_offsets,
}
use xdpilone.Ring.{RingProd, RingCons}
use xdpilone.Ring.Map.{drop_prod}
use xdpilone.Ring.Map.Held.{fill-Ends, comp-Ends, add_u64-Returns}
use xdpilone.Umem.{Umem, UmemConfig}
use xdpilone.Umem.Devices.{
  Socket, DeviceQueue, set_u32, configure_cq, xdp_umem_completion_ring, xdp_umem_fill_ring,
  build_device, or_unmap,
}

module _ {W : Type 0} {libc : Libc W} (v : Mappings libc) where
  set_u32-Keeps : (fd name value : ℕ) → Keeps v (set_u32 libc fd name value)
  set_u32-Keeps fd name value w0 w h =
      check-Keeps v _ w0 _
        λ b l. v.setsockopt_lem fd sol_xdp name (value ∷ []) 4 w _ _ refl b l ∙ h b l

  configure_cq-Keeps : (fd : ℕ) (config : UmemConfig) → Keeps v (configure_cq libc fd config)
  unfolding configure_cq
  configure_cq-Keeps fd config =
      Keeps->>= v _ _ (set_u32-Keeps fd xdp_umem_completion_ring config.complete_size)
        λ _. set_u32-Keeps fd xdp_umem_fill_ring config.fill_size

module _ {W : Type 0} {libc : Libc W} (v : Mappings libc) (p : Profile) (init : Buffer)
    (hc : p.overflow_checks ≡ false) (hd : p.debug_assertions ≡ false) where
  fixup_v1-Keeps : (v1 : XdpRingOffsetsV1) → Keeps v (fixup_v1 libc p v1)
  fixup_v1-Keeps v1 =
      Keeps->>= v _ _ (compute-Keeps v _ (add_u64-Returns p v1.consumer 4 hc)) λ flags w0 w h. h

  fixup_all-Keeps : (v1 : XdpMmapOffsetsV1) → Keeps v (fixup_all libc p v1)
  unfolding fixup_all
  fixup_all-Keeps v1 = Keeps->>= v _ _ (fixup_v1-Keeps v1.rx) λ rx.
      Keeps->>= v _ _ (fixup_v1-Keeps v1.tx) λ tx.
        Keeps->>= v _ _ (fixup_v1-Keeps v1.fr)
          λ fr. Keeps->>= v _ _ (fixup_v1-Keeps v1.cr) λ cr w0 w h. h

  read_offsets-Keeps : (b : Buffer) (optlen : ℕ) → Keeps v (read_offsets libc p b optlen)
  unfolding read_offsets
  read_offsets-Keeps b optlen w0 w h =
      Ends-if _ _ (optlen == opt_v1) _ _ (fixup_all-Keeps (v1_of b) w0 w h)
        (Ends-if _ _ (optlen == opt_latest) _ _ h h)

  set_from_fd-Keeps : (sock : ℕ) → Keeps v (set_from_fd libc p init sock)
  unfolding set_from_fd
  set_from_fd-Keeps sock w0 w h =
      let o = libc.getsockopt sock sol_xdp xdp_mmap_offsets init opt_latest w in
      Keeps->>= v (check libc o.0) (λ _. read_offsets libc p o.1 o.2) (check-Keeps v o.0)
        (λ _. read_offsets-Keeps o.1 o.2) w0 o.3
        λ b l.
          v.getsockopt_lem sock sol_xdp xdp_mmap_offsets init opt_latest w _ _ _ _ refl b l ∙ h b l

  -- A device that is built is that of the interface, with two mappings more.
  pub record Built (umem : Umem) (interface : Socket) (w : W) (d : DeviceQueue) (w' : W)
      : Type 0 where
    pub socket : d.socket ≡ interface
    pub devices : d.devices ≡ umem.devices
    pub rings :
        (b l : ℕ)
        → v.held w' b l
          ≡ v.held w b l
            + one_at d.fcq.prod.mmap_addr.start d.fcq.prod.mmap_addr.len b l
            + one_at d.fcq.cons.mmap_addr.start d.fcq.cons.mmap_addr.len b l

  -- The drop of a ring gives its mapping back.
  unmap-SameHeld :
      (prod : RingProd) (w w1 w2 : W)
      → Adds v w prod.mmap_addr w1
      → SameHeld v w1 w2
      → SameHeld v w (drop_prod libc prod w2)
  unfolding drop_prod
  unmap-SameHeld prod w w1 w2 adds same b l =
      omega (arith, v.munmap_lem prod.mmap_addr.start prod.mmap_addr.len w2 b l, adds b l, same b l)

  or_unmap-Ends :
      (prod : RingProd) (w w1 : W) (o : Ran W RingCons)
      → Adds v w prod.mmap_addr w1
      → Ends o (λ cons w2. Adds v w1 cons.mmap_addr w2) (λ _ w2. SameHeld v w1 w2)
      → Ends
          (or_unmap libc prod o)
          (λ cons w2. Adds v w1 cons.mmap_addr w2)
          (λ _ w2. SameHeld v w w2)
  or_unmap-Ends prod w w1 (returned cons w2) adds h = h
  or_unmap-Ends prod w w1 (failed e w2) adds h = unmap-SameHeld prod w w1 w2 adds h
  or_unmap-Ends prod w w1 panicked adds h = absurd h

  pub build_device_lem :
      (umem : Umem) (interface : Socket) (w : W)
      → Ends
          (build_device libc p init umem interface w)
          (Built umem interface w)
          (λ _ w'. SameHeld v w w')
  unfolding build_device
  build_device_lem umem interface w =
      Ends-and_then (λ _ w1. SameHeld v w w1) _ _ _ _
        (configure_cq-Keeps v interface.fd umem.config w w λ b l. refl)
        λ _ w1 same1.
          Ends-and_then (λ _ w2. SameHeld v w w2) _ _ _ _
            (set_from_fd-Keeps interface.fd w w1 same1)
            λ map w2 same2.
              Ends-and_then (λ prod w3. Adds v w prod.mmap_addr w3) _ _ _ _
                (Ends-map (λ prod w3. Adds v w2 prod.mmap_addr w3)
                  (λ prod w3. Adds v w prod.mmap_addr w3) (λ _ w3. SameHeld v w2 w3)
                  (λ _ w3. SameHeld v w w3) _
                  (fill-Ends v p hc hd interface.fd map umem.config.fill_size w2)
                  (λ prod w3 adds b l. omega (arith, adds b l, same2 b l))
                  (λ _ w3 same b l. same b l ∙ same2 b l))
                λ prod w3 adds.
                  Ends-and_then (λ cons w4. Adds v w3 cons.mmap_addr w4) _ _ _ _
                    (or_unmap-Ends prod w w3 _ adds
                      (comp-Ends v p hc hd interface.fd map umem.config.complete_size w3))
                    λ cons w4 adds4. record {
                      socket = refl;
                      devices = refl;
                      rings = λ b l. omega (arith, adds b l, adds4 b l);
                    }
