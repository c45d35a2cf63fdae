-- ===== src/FloodMt/Connect/Bound.antt =====
-- The bindings of examples/flood-mt.rs, on a system where every call succeeds.
use xdpilone.Base.{
  ℕ, suc, ◌≡◌, ◌==◌, refl, true, false, Profile, List, [], ◌∷◌, Bool, if◌then◌else◌,
}
use xdpilone.Sys.{Libc, Buffer}
use xdpilone.Sys.Works.{
  Works, Answers, Carries, Carries-trans, Succeeds, Succeeds-and_then, Succeeds-map,
}
use xdpilone.Umem.{Umem}
use xdpilone.Umem.Devices.{DeviceQueue, Host}
use xdpilone.Umem.Bind.{User, bind_umem, bind_device}
use xdpilone.Umem.Bind.Ready.{bind_at-Succeeds}
use xdpilone.Flood.Connect.{call}
use xdpilone.Flood.Connect.Opened.{call-Succeeds}
use xdpilone.FloodMt.Connect.{bind_all}

module _ {W : Type 0} {libc : Libc W} (v : Works libc) (a : Answers libc v) (p : Profile)
    (init : Buffer) (umem : Umem) where
  pub bind_all-Succeeds :
      (idx : ℕ) (queues : List (ℕ × DeviceQueue)) (to_binds : List User) (h : Host W)
      → Succeeds
          (bind_all libc p init umem idx queues to_binds h)
          (λ _ h'. Carries v h.world h'.world)
  bind_all-Succeeds idx [] to_binds h = λ x k. (k, refl)
  bind_all-Succeeds idx (queue ∷ queues) [] h = λ x k. (k, refl)
  bind_all-Succeeds idx ((dev_idx, queue) ∷ queues) (rxtx ∷ to_binds) h =
      Succeeds-and_then (λ _ h1. Carries v h.world h1.world × (h1.sets ≡ h.sets)) _ _ _
        (bind_either (idx == dev_idx) queue rxtx h)
        λ _ h1 (c1, s1).
          Succeeds-map (λ _ h2. Carries v h1.world h2.world) _ _
            (bind_all-Succeeds (suc idx) queues to_binds h1) λ _ h2 c2. Carries-trans v c1 c2
    where
      bind_either :
          (b : Bool) (queue : DeviceQueue) (rxtx : User) (h : Host W)
          → Succeeds
              ((if b then call (bind_umem libc umem rxtx) else call (bind_device libc queue rxtx))
                h)
              (λ _ h1. Carries v h.world h1.world × (h1.sets ≡ h.sets))
      bind_either true queue rxtx h =
          call-Succeeds (bind_umem libc umem rxtx) h (λ _ w'. Carries v h.world w')
            (bind_at-Succeeds v a rxtx umem.fd h.world)
      bind_either false queue rxtx h =
          call-Succeeds (bind_device libc queue rxtx) h (λ _ w'. Carries v h.world w')
            (bind_at-Succeeds v a rxtx queue.socket.fd h.world)
