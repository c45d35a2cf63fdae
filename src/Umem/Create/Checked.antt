-- ===== src/Umem/Create/Checked.antt =====
-- What `Umem::new` checks, and what it leaves: a Umem to which the theorems on frames apply, with one
-- descriptor more, or no trace.
use native.Mathlib.Decide.{dec_lt, ℕ_discrete}
use xdpilone.Base.{
  ℕ, ◌+◌, ◌%◌, ◌^◌, ◌<◌, ◌≡◌, ◌≢◌, ◌⊎◌, inl, inr, refl, sym, ap, subst, ◌∙◌, arith, List, [], false,
  ok, Profile, lt→ltb, IsU32, IsPow2, IsPow2-pos, bit_and-IsPow2, ◌==◌,
}
use xdpilone.Sys.{Ran, returned, failed, panicked, Libc, Ends, Ends-and_then, Ends-map, and_then}
use xdpilone.Sys.Descriptors.{Descriptors, SameOpened, Opens, check-Ends}
use xdpilone.Socket.Opened.{new_fd-Ends}
use xdpilone.Ring.{Slice}
use xdpilone.Iface.Info.{IfCtx}
use xdpilone.Socket.{new_fd}
use xdpilone.Umem.{Umem, UmemConfig}
use xdpilone.Umem.Frames.{IsUmem}
use xdpilone.Umem.Devices.{Host, set_at}
use xdpilone.Umem.Devices.Claim.{set_at-at}
use xdpilone.Umem.Create.{
  configure, is_page_aligned, or_close_umem, create, with_empty_set, new_umem,
}

-- What the caller of `new` promises, and what is known of the types and of the page size.
pub record IsArea {W : Type 0} (libc : Libc W) (config : UmemConfig) (area : Slice) (w : W)
    : Type 0 where
  pub frame_fits : IsU32 config.frame_size
  pub area_pos : 0 < area.start
  pub area_fits : area.start + area.len < 2 ^ 64
  pub page : IsPow2 (libc.page_size w)

-- The asserts hold: frames are not empty, and the area begins with a page.
pub record IsChecked {W : Type 0} (libc : Libc W) (config : UmemConfig) (area : Slice) (w : W)
    : Type 0 where
  pub frame_pos : 0 < config.frame_size
  pub aligned : area.start % libc.page_size w ≡ 0

set_at-other :
    (sets : ℕ → List IfCtx) (d : ℕ) (l : List IfCtx) (e : ℕ) → e ≢ d → set_at sets d l e ≡ sets e
set_at-other sets d l e ne = ground arith

ne→== : (a : ℕ) → a ≢ 0 → (a == 0) ≡ false
ne→== a h = ground arith

module _ {W : Type 0} (libc : Libc W) (p : Profile) (devices : ℕ) (config : UmemConfig)
    (area : Slice) where
  page_lem :
      (w : W)
      → IsPow2 (libc.page_size w)
      → is_page_aligned libc p area w ≡ ok (area.start % libc.page_size w == 0)
  unfolding is_page_aligned
  page_lem w page = ground (arith, bit_and-IsPow2 page area.start, IsPow2-pos page)

  -- The Umem over a descriptor.
  abbrev pub umem_at : ℕ → Umem
  umem_at fd = record { umem_area = area; config = config; fd = fd; devices = devices }

  -- Behind the asserts there are the two calls.
  pub create-IsChecked :
      (w : W)
      → IsArea libc config area w
      → IsChecked libc config area w
      → create libc p devices config area w
        ≡ and_then
            (new_fd libc w)
            (λ fd w'. or_close_umem libc (umem_at fd) (configure libc (umem_at fd) w'))
  unfolding create and_then
  create-IsChecked w a c =
      rw
        (
          lt→ltb 0 config.frame_size c.frame_pos,
          page_lem w a.page,
          c.aligned,
          lt→ltb area.len (2 ^ 64) (omega (arith, a.area_fits)),
        )
        refl

  create-empty_frames :
      (w : W) → config.frame_size ≡ 0 → create libc p devices config area w ≡ panicked
  unfolding create and_then
  create-empty_frames w e = rw e refl

  create-misaligned :
      (w : W)
      → IsArea libc config area w
      → 0 < config.frame_size
      → area.start % libc.page_size w ≢ 0
      → create libc p devices config area w ≡ panicked
  unfolding create and_then
  create-misaligned w a frame_pos ne =
      rw
        (
          lt→ltb 0 config.frame_size frame_pos,
          page_lem w a.page,
          ne→== (area.start % libc.page_size w) ne,
        )
        refl

module _ {W : Type 0} {libc : Libc W} (v : Descriptors libc) (p : Profile) (devices : ℕ)
    (config : UmemConfig) (area : Slice) where
  -- The Umem that is returned, over the given area, with an empty set of its own.
  pub record Created (h : Host W) (umem : Umem) (h' : Host W) : Type 0 where
    pub valid : IsUmem umem
    pub same_area : umem.umem_area ≡ area
    pub same_config : umem.config ≡ config
    pub same_devices : umem.devices ≡ devices
    pub empty : h'.sets devices ≡ []
    pub others : (d : ℕ) → d ≢ devices → h'.sets d ≡ h.sets d
    pub opens : Opens v h.world umem.fd h'.world

  -- What is left behind where it fails: nothing.
  pub record NotCreated (h h' : Host W) : Type 0 where
    pub sets : (d : ℕ) → h'.sets d ≡ h.sets d
    pub opened : SameOpened v h.world h'.world

  -- The two calls: the descriptor is closed again where the second fails.
  calls-Ends :
      (w w' : W) (fd : ℕ) (o : Ran W (Unit {0}))
      → Opens v w fd w'
      → Ends o (λ _ w''. SameOpened v w' w'') (λ _ w''. SameOpened v w' w'')
      → Ends
          (or_close_umem libc (umem_at libc p devices config area fd) o)
          (λ umem w''. (umem ≡ umem_at libc p devices config area fd) × Opens v w fd w'')
          (λ _ w''. SameOpened v w w'')
  calls-Ends w w' fd (returned u w'') opens h = (refl, λ x. h x ∙ opens x)
  calls-Ends w w' fd (failed e w'') opens h = λ x. omega (arith, v.close_lem fd w'' x, h x, opens x)
  calls-Ends w w' fd panicked opens h = absurd h

  configure-Ends :
      (umem : Umem) (w : W)
      → Ends (configure libc umem w) (λ _ w'. SameOpened v w w') (λ _ w'. SameOpened v w w')
  unfolding configure
  configure-Ends umem w = check-Ends v _ w _ (v.setsockopt_lem umem.fd _ _ _ _ w _ _ refl)

  create-Ends :
      (w : W)
      → IsArea libc config area w
      → IsChecked libc config area w
      → Ends
          (create libc p devices config area w)
          (λ umem w'. (umem ≡ umem_at libc p devices config area umem.fd) × Opens v w umem.fd w')
          (λ _ w'. SameOpened v w w')
  create-Ends w a c = rw (create-IsChecked libc p devices config area w a c) (
      Ends-and_then (λ fd w'. Opens v w fd w') _ _ _ _ (new_fd-Ends v w)
        λ fd w' opens.
          Ends-map (λ umem w''. (umem ≡ umem_at libc p devices config area fd) × Opens v w fd w'') _
            (λ _ w''. SameOpened v w w'') _ _
            (calls-Ends w w' fd _ opens (configure-Ends (umem_at libc p devices config area fd) w'))
            (λ umem w'' (e, h). (
              e ∙ ap (λ u. umem_at libc p devices config area u.fd) (sym e),
              subst (λ u. Opens v w u.fd w'') (sym e) h,
            ))
            (λ _ w'' h. h))

  on_host :
      (h : Host W)
      → IsArea libc config area h.world
      → 0 < config.frame_size
      → (o : Ran W Umem)
      → Ends o
          (λ umem w'.
            (umem ≡ umem_at libc p devices config area umem.fd) × Opens v h.world umem.fd w')
          (λ _ w'. SameOpened v h.world w')
      → Ends (with_empty_set h.sets devices o) (Created h) (λ _ h'. NotCreated h h')
  on_host h a frame_pos (returned umem w) (e, opens) = record {
    valid = subst IsUmem (sym e) (record {
      frame_pos = frame_pos;
      frame_fits = a.frame_fits;
      area_pos = a.area_pos;
      area_fits = a.area_fits;
    });
    same_area = ap (λ u. u.umem_area) e;
    same_config = ap (λ u. u.config) e;
    same_devices = ap (λ u. u.devices) e;
    empty = set_at-at h.sets devices [];
    others = λ d ne. set_at-other h.sets devices [] d ne;
    opens = opens;
  }
  on_host h a frame_pos (failed e w) same = record { sets = λ d. refl; opened = same }
  on_host h a frame_pos panicked bad = absurd bad

  -- Over calls that open and close descriptors as `Descriptors` says, for a frame size that is a
  -- u32, an area that does not start at 0 and ends below 2 ^ 64, and a page size that is a power
  -- of two, in every profile: Umem::new panics exactly where the frame size is 0 or the area does
  -- not start with a page; otherwise, if it returns, the Umem is valid, over that area and
  -- configuration, with an empty set of its own and its descriptor open once more, and if it
  -- fails, at whatever call, all sets and open descriptors are as before.
  pub new_umem_lem :
      (h : Host W)
      → IsArea libc config area h.world
      → (IsChecked libc config area h.world
          × Ends (new_umem libc p devices config area h) (Created h) (λ _ h'. NotCreated h h'))
        ⊎ (((config.frame_size ≡ 0) ⊎ (area.start % libc.page_size h.world ≢ 0))
            × (new_umem libc p devices config area h ≡ panicked))
  unfolding new_umem
  new_umem_lem h a = elim (dec_lt 0 config.frame_size) [
    | no empty ↦
        let is_empty : config.frame_size ≡ 0 = omega arith in
        inr (
          inl is_empty,
          ap (with_empty_set h.sets devices)
              (create-empty_frames libc p devices config area h.world is_empty),
        )
    | yes frame_pos ↦ elim (ℕ_discrete (area.start % libc.page_size h.world) 0) [
      | no ne ↦ inr (
        inr ne,
        ap (with_empty_set h.sets devices)
            (create-misaligned libc p devices config area h.world a frame_pos ne),
      )
      | yes aligned ↦
          let c : IsChecked libc config area h.world = record {
            frame_pos = frame_pos;
            aligned = aligned;
          } in
          inl (c, on_host h a frame_pos _ (create-Ends h.world a c))
    ]
  ]
