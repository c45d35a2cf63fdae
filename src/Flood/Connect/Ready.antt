-- ===== src/Flood/Connect/Ready.antt =====
-- The connection of examples/flood.rs on a system where every call succeeds: it comes up, with empty
-- rings that lie apart.
use xdpilone.Base.{
  ℕ, zero, suc, ◌≤◌, ◌<◌, ◌≡◌, ◌≢◌, refl, sym, ap, ◌∙◌, subst, true, false, ltb, leb, Profile, List,
  ◌∷◌, [], ◌++◌, length, length-append, Option, arith,
}
use xdpilone.Sys.{Ran, returned, failed, panicked, Libc, sol_xdp}
use xdpilone.Sys.Works.{
  Works, Answers, Carries, Carries-trans, Succeeds, Succeeds-and_then, Succeeds-map, Succeeds-Ends,
}
use xdpilone.Iface.Info.{IfCtx, IfInfo, invalid, from_name, name_reply, zeros}
use xdpilone.Socket.{
  Socket, or_close, new_socket, new_fd, with_xdp_socket, with_shared, cookie_reply, so_netns_cookie,
}
use xdpilone.Ring.{Slice}
use xdpilone.Umem.{Umem, UmemConfig}
use xdpilone.Umem.Devices.{Host, set_at}
use xdpilone.Umem.Create.{new_umem, configure, or_close_umem, reg_of, with_empty_set, xdp_umem_reg}
use xdpilone.Umem.Create.Checked.{IsArea, IsChecked, umem_at, create-IsChecked}
use xdpilone.Flood.Setup.{Args, has_nul, named, ifinfo, Chosen, ifinfo_lem}

pub length-zeros : (n : ℕ) → length (zeros n) ≡ n
length-zeros zero = refl
length-zeros (suc n) = ap suc (length-zeros n)

-- The socket for an interface: only the cookie is new.
pub record IsFor (info : IfInfo) (s : Socket) : Type 0 where
  pub same_index : s.info.ctx.ifindex ≡ info.ctx.ifindex
  pub same_queue : s.info.ctx.queue_id ≡ info.ctx.queue_id

module _ {W : Type 0} {libc : Libc W} (v : Works libc) (a : Answers libc v) where
  new_fd-Succeeds : (w : W) → Succeeds (new_fd libc w) (λ _ w'. Carries v w w')
  unfolding new_fd
  new_fd-Succeeds w = let (fd, e, c) = a.socket_lem libc.af_xdp libc.sock_raw 0 w in rw e c

  configure-Succeeds :
      (umem : Umem) (w : W) → Succeeds (configure libc umem w) (λ _ w'. Carries v w w')
  unfolding configure
  configure-Succeeds umem w =
      let mr = reg_of umem in
      let (e, c) =
        a.setsockopt_lem umem.fd sol_xdp xdp_umem_reg
          (mr.addr ∷ mr.len ∷ mr.chunk_size ∷ mr.headroom ∷ mr.flags ∷ mr.tx_metadata_len ∷ []) 32
          w in
      rw e c

  or_close-Succeeds :
      (umem : Umem) (o : Ran W (Unit {0})) (P : W → Type 0)
      → Succeeds o (λ _ w. P w)
      → Succeeds (or_close_umem libc umem o) (λ u w. (u ≡ umem) × P w)
  or_close-Succeeds umem (returned u w) P h = (refl, h)
  or_close-Succeeds umem (failed e w) P h = absurd h
  or_close-Succeeds umem panicked P h = absurd h

  on_host :
      (sets : ℕ → List IfCtx) (devices : ℕ) (o : Ran W Umem) (P : Umem → W → Type 0)
      → Succeeds o P
      → Succeeds
          (with_empty_set sets devices o)
          (λ u h. P u h.world × (h.sets ≡ set_at sets devices []))
  on_host sets devices (returned u w) P h = (h, refl)
  on_host sets devices (failed e w) P h = absurd h
  on_host sets devices panicked P h = absurd h

  pub new_umem-Succeeds :
      (p : Profile) (devices : ℕ) (config : UmemConfig) (area : Slice) (h : Host W)
      → IsArea libc config area h.world
      → IsChecked libc config area h.world
      → Succeeds (new_umem libc p devices config area h) (λ u h'.
        ((u ≡ umem_at libc p devices config area u.fd) × Carries v h.world h'.world)
        × (h'.sets ≡ set_at h.sets devices []))
  unfolding new_umem
  new_umem-Succeeds p devices config area h is checked =
      on_host h.sets devices _
        (λ u w. (u ≡ umem_at libc p devices config area u.fd) × Carries v h.world w)
        (rw (create-IsChecked libc p devices config area h.world is checked) (
          Succeeds-and_then (λ _ w1. Carries v h.world w1) _ _ _ (new_fd-Succeeds h.world)
            λ fd w1 c1.
              Succeeds-map (λ u w2. (u ≡ umem_at libc p devices config area fd) × Carries v w1 w2) _
                _
                (or_close-Succeeds (umem_at libc p devices config area fd) _ (Carries v w1)
                  (configure-Succeeds (umem_at libc p devices config area fd) w1))
                λ u w2 (e, c2). (
                  e ∙ ap (λ x. umem_at libc p devices config area x.fd) (sym e),
                  Carries-trans v c1 c2,
                )))

  pub with_shared-Succeeds :
      (info : IfInfo) (fd : ℕ) (w : W)
      → Succeeds (with_shared libc info fd w) (λ s w'. (s.fd ≡ fd) × IsFor info s × Carries v w w')
  unfolding with_xdp_socket cookie_reply
  with_shared-Succeeds info fd w =
      let (e, n, c) = a.getsockopt_lem fd libc.sol_socket so_netns_cookie (λ i. 0) 8 w in
      rw e (refl, record { same_index = refl; same_queue = refl }, c)

  or_close_socket-Succeeds :
      (fd : ℕ) (o : Ran W Socket) (P : Socket → W → Type 0)
      → Succeeds o P
      → Succeeds (or_close libc fd o) P
  or_close_socket-Succeeds fd (returned s w) P h = h
  or_close_socket-Succeeds fd (failed e w) P h = absurd h
  or_close_socket-Succeeds fd panicked P h = absurd h

  pub new_socket-Succeeds :
      (info : IfInfo) (w : W)
      → Succeeds (new_socket libc info w) (λ s w'. IsFor info s × Carries v w w')
  unfolding new_socket
  new_socket-Succeeds info w =
      Succeeds-and_then (λ _ w1. Carries v w w1) _ _ _ (new_fd-Succeeds w)
        λ fd w1 c1. or_close_socket-Succeeds fd (with_xdp_socket libc info fd w1) _ (
          Succeeds-map (λ s w2. (s.fd ≡ fd) × IsFor info s × Carries v w1 w2) _ _
            (with_shared-Succeeds info fd w1) λ s w2 (e, is, c2). (is, Carries-trans v c1 c2))

  name_reply-Succeeds :
      (bytes : List ℕ) (info : IfInfo) (o : ℕ × W)
      → o.0 ≢ 0
      → Succeeds (name_reply libc bytes info o) (λ _ _. Unit {0})
  name_reply-Succeeds bytes info (zero, w) ne = ne refl
  name_reply-Succeeds bytes info (suc n, w) ne = tt

  from_name-Succeeds :
      (bytes : List ℕ) (w : W)
      → length bytes ≤ libc.ifnamsiz
      → Succeeds (from_name libc bytes (invalid libc, w)) (λ _ _. Unit {0})
  unfolding from_name
  from_name-Succeeds bytes w fits =
      let below : ltb (length (zeros libc.ifnamsiz)) (length bytes) ≡ false =
        ground (arith, length-zeros libc.ifnamsiz) in
      let within : leb (length bytes) (length (zeros libc.ifnamsiz)) ≡ true =
        ground (arith, length-zeros libc.ifnamsiz) in
      rw (below, within)
        (name_reply-Succeeds bytes (invalid libc) _ (a.if_nametoindex_lem bytes w).0)

  named-Succeeds :
      (queue : Option ℕ) (o : Ran (IfInfo × W) (Unit {0}))
      → Succeeds o (λ _ _. Unit {0})
      → Succeeds (named libc queue o) (λ _ _. Unit {0})
  named-Succeeds queue (returned u s) h = tt
  named-Succeeds queue (failed e s) h = absurd h
  named-Succeeds queue panicked h = absurd h

  pub ifinfo-Chosen :
      (args : Args) (w : W)
      → has_nul args.ifname ≡ false
      → length args.ifname < libc.ifnamsiz
      → Succeeds (ifinfo libc args w) (λ info w'.
        Chosen libc args.queue_id (args.ifname ++ (0 ∷ [])) w info w' × Carries v w w')
  unfolding ifinfo
  ifinfo-Chosen args w clean fits =
      let bytes = args.ifname ++ (0 ∷ []) in
      Succeeds-map (λ info w'. Chosen libc args.queue_id bytes w info w' × Unit {0}) _ _
        (Succeeds-Ends (Chosen libc args.queue_id bytes w) (λ _ _. Unit {0}) (λ _ _. Unit {0}) _
          (ifinfo_lem libc args w clean)
          (rw clean (
            named-Succeeds args.queue_id _
              (from_name-Succeeds bytes w (omega (arith, length-append args.ifname (0 ∷ [])))))))
        λ info w' (chosen, done). (
          chosen,
          subst (Carries v w) (ap (λ o. o.1) chosen.index) (a.if_nametoindex_lem bytes w).1,
        )

  pub ifinfo-Succeeds :
      (args : Args) (w : W)
      → has_nul args.ifname ≡ false
      → length args.ifname < libc.ifnamsiz
      → Succeeds (ifinfo libc args w) (λ _ w'. Carries v w w')
  ifinfo-Succeeds args w clean fits =
      Succeeds-map
        (λ info w'. Chosen libc args.queue_id (args.ifname ++ (0 ∷ [])) w info w' × Carries v w w')
        _ _ (ifinfo-Chosen args w clean fits) λ info w' (chosen, c). c
