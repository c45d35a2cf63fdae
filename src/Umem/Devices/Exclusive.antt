-- ===== src/Umem/Devices/Exclusive.antt =====
-- Device queues of one Umem over time: they are claimed, refused and dropped in any order, while the
-- world changes in between.
use xdpilone.Base.{
  ℕ, ◌≡◌, sym, ◌∙◌, ap, subst, false, not, ◌&&◌, ◌||◌, Bool-cases, inl, inr, Profile, List, ◌∷◌,
  ap₂, All,
}
use xdpilone.Sys.{returned, failed, Errno, Libc, Buffer, Ends}
use xdpilone.Sys.Mappings.{Mappings}
use xdpilone.Iface.Info.{IfCtx, same_ctx}
use xdpilone.Umem.{Umem}
use xdpilone.Umem.Devices.{Socket, DeviceQueue, Host, fq_cq, drop_device}
use xdpilone.Umem.Devices.Control.{contains, contains-remove}
use xdpilone.Umem.Devices.Claim.{Claimed, Restored, Refused, fq_cq_lem, fq_cq-taken, set_at-at}
use xdpilone.Umem.Devices.Live.{
  ctx_of, taken, IsDistinct, Without, Without-at, Without-All, Without-taken, Without-IsDistinct,
}

-- The host, and the device queues of the Umem that have not been dropped.
pub record System (W : Type 0) : Type 0 where
  pub host : Host W
  pub live : List DeviceQueue

module _ {W : Type 0} (libc : Libc W) (p : Profile) (init : Buffer) (umem : Umem) where
  pub data Step : System W → System W → Type 0 where
    claim :
        (s : System W) (interface : Socket) (d : DeviceQueue) (h : Host W)
        → fq_cq libc p init umem interface s.host ≡ returned d h
        → Step s (record { host = h; live = d ∷ s.live })
    refuse :
        (s : System W) (interface : Socket) (e : Errno) (h : Host W)
        → fq_cq libc p init umem interface s.host ≡ failed e h
        → Step s (record s { host = h })
    give_back :
        (s : System W) (d : DeviceQueue) (live : List DeviceQueue)
        → Without d s.live live
        → Step s (record { host = drop_device libc d s.host; live = live })
    change : (s : System W) (w : W) → Step s (record s { host = record s.host { world = w } })

  -- The states that can be reached from `s`.
  pub data Reaches (s : System W) : System W → Type 0 where
    start : Reaches s s
    step : {t u : System W} → Reaches s t → Step t u → Reaches s u

-- The Umem's set has the contexts of its queues, each of which is there once.
pub record IsRegistered {W : Type 0} (umem : Umem) (s : System W) : Type 0 where
  pub registered : (c : IfCtx) → contains c (s.host.sets umem.devices) ≡ contains c (taken s.live)
  pub distinct : IsDistinct (taken s.live)
  pub devices : All (λ d. d.devices ≡ umem.devices) s.live

module _ {W : Type 0} {libc : Libc W} (v : Mappings libc) (p : Profile) (init : Buffer)
    (umem : Umem) (hc : p.overflow_checks ≡ false) (hd : p.debug_assertions ≡ false) where
  -- A queue that is returned was not taken before.
  fq_cq-Claimed :
      (interface : Socket) (h : Host W) (d : DeviceQueue) (h' : Host W)
      → fq_cq libc p init umem interface h ≡ returned d h'
      → (contains interface.info.ctx (h.sets umem.devices) ≡ false)
        × Claimed v umem interface h d h'
  fq_cq-Claimed interface h d h' eq =
      elim (Bool-cases (contains interface.info.ctx (h.sets umem.devices))) [
        | inl t ↦ absurd (
            subst (λ o. Ends o (λ _ _. ⊥) (Refused libc h)) eq
              (fq_cq-taken libc p init umem interface h t))
        | inr f ↦ (
          f,
          subst (λ o. Ends o (Claimed v umem interface h) (λ _ h'. Restored v h h')) eq
              (fq_cq_lem v p init hc hd umem interface h f),
        )
      ]

  fq_cq-failed :
      (interface : Socket) (h : Host W) (e : Errno) (h' : Host W)
      → fq_cq libc p init umem interface h ≡ failed e h'
      → (d : ℕ) → h'.sets d ≡ h.sets d
  fq_cq-failed interface h e h' eq =
      elim (Bool-cases (contains interface.info.ctx (h.sets umem.devices))) [
        | inl t ↦
            (subst (λ o. Ends o (λ _ _. ⊥) (Refused libc h)) eq
              (fq_cq-taken libc p init umem interface h t)).sets
        | inr f ↦
            (subst (λ o. Ends o (Claimed v umem interface h) (λ _ h'. Restored v h h')) eq
              (fq_cq_lem v p init hc hd umem interface h f)).sets
      ]

  claim-IsRegistered :
      (s : System W) (interface : Socket) (d : DeviceQueue) (h : Host W)
      → contains interface.info.ctx (s.host.sets umem.devices) ≡ false
      → Claimed v umem interface s.host d h
      → IsRegistered umem s
      → IsRegistered umem (record { host = h; live = d ∷ s.live })
  unfolding IsDistinct contains
  claim-IsRegistered s interface d h f c i = record {
    registered = λ x.
        ap (contains x) (c.sets umem.devices ∙ set_at-at s.host.sets umem.devices _)
        ∙ ap₂ (λ y b. same_ctx y x || b) (sym (ap (λ k. k.info.ctx) c.socket)) (i.registered x);
    distinct = (
      ap (λ k. contains k.info.ctx (taken s.live)) c.socket
          ∙ sym (i.registered interface.info.ctx)
          ∙ f,
      i.distinct,
    );
    devices = (c.devices, i.devices);
  }

  drop-IsRegistered :
      (s : System W) (d : DeviceQueue) (live : List DeviceQueue)
      → Without d s.live live
      → IsRegistered umem s
      → IsRegistered umem (record { host = drop_device libc d s.host; live = live })
  unfolding drop_device
  drop-IsRegistered s d live w i = record {
    registered = λ x.
        ap (contains x) (
          rw (Without-at (λ d. d.devices ≡ umem.devices) d w i.devices)
            (set_at-at s.host.sets umem.devices _))
        ∙ contains-remove x (ctx_of d) (s.host.sets umem.devices)
        ∙ ap (λ b. not (same_ctx (ctx_of d) x) && b) (i.registered x)
        ∙ sym (Without-taken ctx_of x d w i.distinct);
    distinct = Without-IsDistinct ctx_of d w i.distinct;
    devices = Without-All (λ d. d.devices ≡ umem.devices) d w i.devices;
  }

  -- One step
  Step-IsRegistered :
      {s t : System W} → Step libc p init umem s t → IsRegistered umem s → IsRegistered umem t
  Step-IsRegistered (claim s interface d h eq) i =
      let r = fq_cq-Claimed interface s.host d h eq in claim-IsRegistered s interface d h r.0 r.1 i
  Step-IsRegistered (refuse s interface e h eq) i = record {
    registered =
        λ c. ap (contains c) (fq_cq-failed interface s.host e h eq umem.devices) ∙ i.registered c;
    distinct = i.distinct;
    devices = i.devices;
  }
  Step-IsRegistered (give_back s d live w) i = drop-IsRegistered s d live w i
  Step-IsRegistered (change s w) i = record {
    registered = i.registered;
    distinct = i.distinct;
    devices = i.devices;
  }

  -- Without overflow checks and debug assertions, over a system of calls that maps and unmaps as
  -- `Mappings` says: along any sequence of fq_cq calls on a Umem, granted or refused, drops of its
  -- device queues and changes of the world, the Umem's set goes on to hold exactly the contexts of
  -- its live device queues, no two of which have the same.
  pub Reaches-IsRegistered :
      {s t : System W} → IsRegistered umem s → Reaches libc p init umem s t → IsRegistered umem t
  Reaches-IsRegistered i start = i
  Reaches-IsRegistered i (step r st) = Step-IsRegistered st (Reaches-IsRegistered i r)
