-- ===== src/Umem/Devices/Concurrent.antt =====
-- Threads that call `Umem::fq_cq` of xsk/umem.rs on one Umem at the same time, and drop device queues:
-- the insertion, the calls behind it and the removal on a failure are steps of their own.
mod Tests
use xdpilone.Base.{
  ℕ, ◌≡◌, sym, ◌∙◌, ap, ap₂, subst, true, false, not, ◌&&◌, ◌||◌, Bool-cases, inl, inr, Profile,
  List, ◌∷◌, map, All, arith,
}
use xdpilone.Sys.{returned, failed, Errno, Libc, Buffer, Ends}
use xdpilone.Sys.Mappings.{Mappings, SameHeld}
use xdpilone.Iface.Info.{IfCtx, same_ctx}
use xdpilone.Umem.{Umem}
use xdpilone.Umem.Devices.{Socket, DeviceQueue, Host, set_at, build_device, drop_device}
use xdpilone.Umem.Devices.Control.{
  contains, insert, remove, contains-remove, insert-new, insert-taken,
}
use xdpilone.Umem.Devices.Claim.{set_at-at}
use xdpilone.Umem.Devices.Registry.{Built, build_device_lem}
use xdpilone.Umem.Devices.Live.{
  IsDistinct, Without, Without-at, Without-All, Without-taken, Without-IsDistinct, Without-back,
  Without-absent,
}

-- What has a context: a call of `fq_cq` behind its insertion, with its `DropableDevice`, or a device
-- queue that has not been dropped.
pub data Claim : Type 0 where
  building : (interface : Socket) → Claim
  queue : (device : DeviceQueue) → Claim

abbrev pub claim_ctx : Claim → IfCtx
claim_ctx (building interface) = interface.info.ctx
claim_ctx (queue device) = device.socket.info.ctx

abbrev pub IsOf : Umem → Claim → Type 0
IsOf umem (building interface) = Unit
IsOf umem (queue device) = device.devices ≡ umem.devices

pub record Shared (W : Type 0) : Type 0 where
  pub host : Host W
  pub claims : List Claim

module _ {W : Type 0} (libc : Libc W) (p : Profile) (init : Buffer) (umem : Umem) where
  -- One step of some thread. The world changes at any time, also between the calls of `build_device`,
  -- which is known by how it ends from some world.
  pub data Step : Shared W → Shared W → Type 0 where
    claim :
        (s : Shared W) (interface : Socket) (l : List IfCtx)
        → insert interface.info.ctx (s.host.sets umem.devices) ≡ (true, l)
        → Step s (record {
          host = record s.host { sets = set_at s.host.sets umem.devices l };
          claims = building interface ∷ s.claims;
        })
    refuse :
        (s : Shared W) (interface : Socket) (l : List IfCtx)
        → insert interface.info.ctx (s.host.sets umem.devices) ≡ (false, l)
        → Step s (record s { host = record s.host { sets = set_at s.host.sets umem.devices l } })
    finish :
        (s : Shared W) (interface : Socket) (rest : List Claim) (w w' : W) (d : DeviceQueue)
        → Without (building interface) s.claims rest
        → build_device libc p init umem interface w ≡ returned d w'
        → Step s (record s { claims = queue d ∷ rest })
    give_up :
        (s : Shared W) (interface : Socket) (rest : List Claim) (w w' : W) (e : Errno)
        → Without (building interface) s.claims rest
        → build_device libc p init umem interface w ≡ failed e w'
        → Step s (record {
          host = record s.host {
            sets =
                set_at s.host.sets umem.devices
                  (remove interface.info.ctx (s.host.sets umem.devices));
          };
          claims = rest;
        })
    give_back :
        (s : Shared W) (d : DeviceQueue) (rest : List Claim)
        → Without (queue d) s.claims rest
        → Step s (record { host = drop_device libc d s.host; claims = rest })
    change : (s : Shared W) (w : W) → Step s (record s { host = record s.host { world = w } })

  -- The states that can be reached from `s`.
  pub data Reaches (s : Shared W) : Shared W → Type 0 where
    start : Reaches s s
    step : {t u : Shared W} → Reaches s t → Step t u → Reaches s u

-- The Umem's set has the contexts that are claimed, each of them once.
pub record IsExclusive {W : Type 0} (umem : Umem) (s : Shared W) : Type 0 where
  pub registered :
      (c : IfCtx) → contains c (s.host.sets umem.devices) ≡ contains c (map claim_ctx s.claims)
  pub distinct : IsDistinct (map claim_ctx s.claims)
  pub devices : All (IsOf umem) s.claims

module _ {W : Type 0} {libc : Libc W} (v : Mappings libc) (p : Profile) (init : Buffer)
    (umem : Umem) (hc : p.overflow_checks ≡ false) (hd : p.debug_assertions ≡ false) where
  insert-true :
      (c : IfCtx) (l l' : List IfCtx)
      → insert c l ≡ (true, l')
      → (contains c l ≡ false) × (l' ≡ c ∷ l)
  insert-true c l l' e = elim (Bool-cases (contains c l)) [
    | inl t ↦ absurd (ground (arith, ap (λ r. r.0) (sym (insert-taken c l t) ∙ e)))
    | inr f ↦ (f, ap (λ r. r.1) (sym e ∙ insert-new c l f))
  ]

  insert-false : (c : IfCtx) (l l' : List IfCtx) → insert c l ≡ (false, l') → l' ≡ l
  insert-false c l l' e = elim (Bool-cases (contains c l)) [
    | inl t ↦ ap (λ r. r.1) (sym e ∙ insert-taken c l t)
    | inr f ↦ absurd (ground (arith, ap (λ r. r.0) (sym (insert-new c l f) ∙ e)))
  ]

  claim-IsExclusive :
      (s : Shared W) (interface : Socket) (l : List IfCtx)
      → (contains interface.info.ctx (s.host.sets umem.devices) ≡ false)
      → l ≡ interface.info.ctx ∷ s.host.sets umem.devices
      → IsExclusive umem s
      → IsExclusive umem (record {
        host = record s.host { sets = set_at s.host.sets umem.devices l };
        claims = building interface ∷ s.claims;
      })
  unfolding IsDistinct contains
  claim-IsExclusive s interface l free e i = record {
    registered = λ c.
        ap (contains c) (set_at-at s.host.sets umem.devices l ∙ e)
        ∙ ap (λ b. same_ctx interface.info.ctx c || b) (i.registered c);
    distinct = (sym (i.registered interface.info.ctx) ∙ free, i.distinct);
    devices = (tt, i.devices);
  }

  -- A claim goes, and so does its context.
  remove-IsExclusive :
      (s : Shared W) (x : Claim) (rest : List Claim) (h : Host W)
      → Without x s.claims rest
      → h.sets umem.devices ≡ remove (claim_ctx x) (s.host.sets umem.devices)
      → IsExclusive umem s
      → IsExclusive umem (record { host = h; claims = rest })
  remove-IsExclusive s x rest h w e i = record {
    registered = λ c.
        ap (contains c) e
        ∙ contains-remove c (claim_ctx x) (s.host.sets umem.devices)
        ∙ ap (λ b. not (same_ctx (claim_ctx x) c) && b) (i.registered c)
        ∙ sym (Without-taken claim_ctx c x w i.distinct);
    distinct = Without-IsDistinct claim_ctx x w i.distinct;
    devices = Without-All (IsOf umem) x w i.devices;
  }

  -- A call becomes the device queue that it returns.
  finish-IsExclusive :
      (s : Shared W) (interface : Socket) (rest : List Claim) (d : DeviceQueue)
      → Without (building interface) s.claims rest
      → d.socket ≡ interface
      → d.devices ≡ umem.devices
      → IsExclusive umem s
      → IsExclusive umem (record s { claims = queue d ∷ rest })
  unfolding IsDistinct contains
  finish-IsExclusive s interface rest d w on of i =
      let same : interface.info.ctx ≡ d.socket.info.ctx = ap (λ k. k.info.ctx) (sym on) in
      record {
        registered = λ c.
            i.registered c
            ∙ sym (Without-back claim_ctx c (building interface) w i.distinct)
            ∙ ap (λ y. same_ctx y c || contains c (map claim_ctx rest)) same;
        distinct = (
          subst (λ y. contains y (map claim_ctx rest) ≡ false) same
              (Without-absent claim_ctx (building interface) w i.distinct),
          Without-IsDistinct claim_ctx (building interface) w i.distinct,
        );
        devices = (of, Without-All (IsOf umem) (building interface) w i.devices);
      }

  Step-IsExclusive :
      {s t : Shared W} → Step libc p init umem s t → IsExclusive umem s → IsExclusive umem t
  unfolding drop_device
  Step-IsExclusive (claim s interface l e) i =
      let (free, same) = insert-true interface.info.ctx (s.host.sets umem.devices) l e in
      claim-IsExclusive s interface l free same i
  Step-IsExclusive (refuse s interface l e) i = record {
    registered = λ c.
        ap (contains c) (
          set_at-at s.host.sets umem.devices l
          ∙ insert-false interface.info.ctx (s.host.sets umem.devices) l e)
        ∙ i.registered c;
    distinct = i.distinct;
    devices = i.devices;
  }
  Step-IsExclusive (finish s interface rest w w' d without e) i =
      let b : Built v p init hc hd umem interface w d w' =
        subst (λ o. Ends o (Built v p init hc hd umem interface w) (λ _ w''. SameHeld v w w'')) e
          (build_device_lem v p init hc hd umem interface w) in
      finish-IsExclusive s interface rest d without b.socket b.devices i
  Step-IsExclusive (give_up s interface rest w w' e without ends) i =
      remove-IsExclusive s (building interface) rest _ without
        (set_at-at s.host.sets umem.devices _) i
  Step-IsExclusive (give_back s d rest without) i =
      remove-IsExclusive s (queue d) rest _ without
        (rw (Without-at (IsOf umem) (queue d) without i.devices)
          (set_at-at s.host.sets umem.devices _))
        i
  Step-IsExclusive (change s w) i = record {
    registered = i.registered;
    distinct = i.distinct;
    devices = i.devices;
  }

  -- Without overflow checks and debug assertions, over a system of calls that maps and unmaps as
  -- `Mappings` says: however threads call fq_cq on a Umem at the same time, with the insertion,
  -- its refusal, the end of the calls behind it and the removal on a failure as steps of their
  -- own, and drop its device queues while the world changes, the Umem's set goes on to hold
  -- exactly the contexts of the calls that are between insertion and end and of the live device
  -- queues, no two of which have the same.
  pub Reaches-IsExclusive :
      {s t : Shared W} → IsExclusive umem s → Reaches libc p init umem s t → IsExclusive umem t
  Reaches-IsExclusive i start = i
  Reaches-IsExclusive i (step r st) = Step-IsExclusive st (Reaches-IsExclusive i r)
