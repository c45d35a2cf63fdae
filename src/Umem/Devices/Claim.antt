-- ===== src/Umem/Devices/Claim.antt =====
-- The device queues of a Umem are taken by one `DeviceQueue` at a time: `fq_cq`, which claims one, and
-- the drop, which gives it back.
use xdpilone.Base.{
  ℕ, ◌+◌, ◌≡◌, refl, ◌∙◌, ap, sym, subst, fun_ext, false, true, Profile, List, ◌∷◌, arith,
}
use xdpilone.Sys.{pos, Ran, returned, failed, panicked, Errno, Libc, Buffer, Ends, Ends-map}
use xdpilone.Sys.Mappings.{Mappings, SameHeld, one_at}
use xdpilone.Iface.Info.{IfCtx}
use xdpilone.Ring.Map.{drop_prod, drop_cons}
use xdpilone.Umem.{Umem}
use xdpilone.Umem.Devices.{
  Socket, DeviceQueue, Host, set_at, or_remove, fq_cq, drop_device, claim_with,
}
use xdpilone.Umem.Devices.Control.{contains, remove, remove-insert, insert-new, insert-taken}
use xdpilone.Umem.Devices.Registry.{Built, build_device_lem}

module _ {W : Type 0} {libc : Libc W} (v : Mappings libc) where
  -- `h'` has the sets and the mappings that `h` has.
  pub record Restored (h h' : Host W) : Type 0 where
    pub sets : (e : ℕ) → h'.sets e ≡ h.sets e
    pub held : SameHeld v h.world h'.world

  -- `d` is a queue on `interface`, which has become the one more that the Umem's set has.
  pub record Claimed (umem : Umem) (interface : Socket) (h : Host W) (d : DeviceQueue) (h' : Host W)
      : Type 0 where
    pub socket : d.socket ≡ interface
    pub devices : d.devices ≡ umem.devices
    pub sets :
        (e : ℕ)
        → h'.sets e ≡ set_at h.sets umem.devices (interface.info.ctx ∷ h.sets umem.devices) e
    pub rings :
        (b l : ℕ)
        → v.held h'.world b l
          ≡ v.held h.world b l
            + one_at d.fcq.prod.mmap_addr.start d.fcq.prod.mmap_addr.len b l
            + one_at d.fcq.cons.mmap_addr.start d.fcq.cons.mmap_addr.len b l

set_at-same : (sets : ℕ → List IfCtx) (d e : ℕ) → set_at sets d (sets d) e ≡ sets e
set_at-same sets d e = ground arith

pub set_at-at : (sets : ℕ → List IfCtx) (d : ℕ) (l : List IfCtx) → set_at sets d l d ≡ l
set_at-at sets d l = ground arith

set_at-twice :
    (sets : ℕ → List IfCtx) (d : ℕ) (l l' : List IfCtx) (e : ℕ)
    → l' ≡ sets d
    → set_at (set_at sets d l) d l' e ≡ sets e
set_at-twice sets d l l' e h = ground arith

-- The sets after the insertion of a new context and its removal.
set_at-remove :
    (sets : ℕ → List IfCtx) (d : ℕ) (ctx : IfCtx)
    → contains ctx (sets d) ≡ false
    → (e : ℕ)
    → set_at (set_at sets d (ctx ∷ sets d)) d (remove ctx (set_at sets d (ctx ∷ sets d) d)) e
      ≡ sets e
set_at-remove sets d ctx free e =
    set_at-twice sets d (ctx ∷ sets d) _ e
      (ap (remove ctx) (set_at-at sets d (ctx ∷ sets d)) ∙ remove-insert ctx (sets d) free)

set_at-remove_same :
    (sets sets' : ℕ → List IfCtx) (d d' : ℕ) (ctx ctx' : IfCtx)
    → contains ctx (sets d) ≡ false
    → d' ≡ d
    → ctx' ≡ ctx
    → sets' ≡ set_at sets d (ctx ∷ sets d)
    → (e : ℕ) → set_at sets' d' (remove ctx' (sets' d')) e ≡ sets e
set_at-remove_same sets sets' d d' ctx ctx' free hd hc hs e =
    rw (hd, hc, hs) (set_at-remove sets d ctx free e)

module _ {W : Type 0} (libc : Libc W) where
  -- The call is refused with EINVAL before it has done anything.
  pub record Refused (h : Host W) (e : Errno) (h' : Host W) : Type 0 where
    pub errno : e.raw ≡ pos libc.einval
    pub world : h'.world ≡ h.world
    pub sets : (d : ℕ) → h'.sets d ≡ h.sets d

module _ {W : Type 0} (libc : Libc W) (p : Profile) (init : Buffer) where
  -- Where the interface's context is in the Umem's set, in every profile and over any calls: fq_cq
  -- does not return but fails with EINVAL, with the world and all sets as before.
  pub fq_cq-taken :
      (umem : Umem) (interface : Socket) (h : Host W)
      → contains interface.info.ctx (h.sets umem.devices) ≡ true
      → Ends (fq_cq libc p init umem interface h) (λ _ _. ⊥) (Refused libc h)
  unfolding fq_cq
  fq_cq-taken umem interface h taken =
      subst (λ o. Ends (claim_with libc p init umem interface h o) (λ _ _. ⊥) (Refused libc h))
        (sym (insert-taken interface.info.ctx (h.sets umem.devices) taken))
        (record { errno = refl; world = refl; sets = set_at-same h.sets umem.devices })

module _ {W : Type 0} {libc : Libc W} (v : Mappings libc) (p : Profile) (init : Buffer)
    (hc : p.overflow_checks ≡ false) (hd : p.debug_assertions ≡ false) where
  or_remove-Ends :
      (umem : Umem) (interface : Socket) (h : Host W)
      → contains interface.info.ctx (h.sets umem.devices) ≡ false
      → (o : Ran W DeviceQueue)
      → Ends o (Built v p init hc hd umem interface h.world) (λ _ w. SameHeld v h.world w)
      → Ends
          (or_remove libc p init umem interface.info.ctx
            (set_at h.sets umem.devices (interface.info.ctx ∷ h.sets umem.devices))
            o)
          (Claimed v umem interface h)
          (λ _ h'. Restored v h h')
  or_remove-Ends umem interface h free (returned d w) built = record {
    socket = built.socket;
    devices = built.devices;
    sets = λ e. refl;
    rings = built.rings;
  }
  or_remove-Ends umem interface h free (failed e w) same = record {
    sets = set_at-remove h.sets umem.devices interface.info.ctx free;
    held = same;
  }
  or_remove-Ends umem interface h free panicked bad = absurd bad

  -- Without overflow checks and debug assertions, over calls that map and unmap as `Mappings`
  -- says, where the interface's context is not in the Umem's set: fq_cq does not panic; if it
  -- returns, the queue is that of the interface, its context is in the set and its two rings are
  -- mapped; if it fails, at whatever call, all sets and mappings are as before.
  pub fq_cq_lem :
      (umem : Umem) (interface : Socket) (h : Host W)
      → contains interface.info.ctx (h.sets umem.devices) ≡ false
      → Ends
          (fq_cq libc p init umem interface h)
          (Claimed v umem interface h)
          (λ _ h'. Restored v h h')
  unfolding fq_cq
  fq_cq_lem umem interface h free =
      subst
        (λ o.
          Ends (claim_with libc p init umem interface h o) (Claimed v umem interface h)
            (λ _ h'. Restored v h h'))
        (sym (insert-new interface.info.ctx (h.sets umem.devices) free))
        (or_remove-Ends umem interface h free _
          (build_device_lem v p init hc hd umem interface h.world))

  -- The queue that was claimed, dropped.
  Claimed-drop :
      (umem : Umem) (interface : Socket) (h : Host W)
      → contains interface.info.ctx (h.sets umem.devices) ≡ false
      → (d : DeviceQueue) (h' : Host W) → Claimed v umem interface h d h'
      → Restored v h (drop_device libc d h')
  unfolding drop_device drop_prod drop_cons
  Claimed-drop umem interface h free d h' c = record {
    sets =
        set_at-remove_same h.sets h'.sets umem.devices d.devices _ _ free c.devices
          (ap (λ s. s.info.ctx) c.socket) (fun_ext c.sets);
    held = λ b l. omega (
      arith,
      v.munmap_lem d.fcq.cons.mmap_addr.start d.fcq.cons.mmap_addr.len
          (drop_prod libc d.fcq.prod h'.world) b l,
      v.munmap_lem d.fcq.prod.mmap_addr.start d.fcq.prod.mmap_addr.len h'.world b l,
      c.rings b l,
    );
  }

  -- Without overflow checks and debug assertions, over calls that map and unmap as `Mappings`
  -- says, where the interface's context is not in the Umem's set: after fq_cq and, if it returns,
  -- the drop of its device queue, all sets and mappings are as before.
  pub drop_device-fq_cq :
      (umem : Umem) (interface : Socket) (h : Host W)
      → contains interface.info.ctx (h.sets umem.devices) ≡ false
      → Ends
          (fq_cq libc p init umem interface h)
          (λ d h'. Restored v h (drop_device libc d h'))
          (λ _ h'. Restored v h h')
  drop_device-fq_cq umem interface h free =
      Ends-map (Claimed v umem interface h) _ (λ _ h'. Restored v h h') _ _
        (fq_cq_lem umem interface h free) (Claimed-drop umem interface h free) (λ e h' r. r)
