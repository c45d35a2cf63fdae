-- ===== src/Umem/Create.antt =====
-- The creation of a Umem: `Umem::new` and `Umem::configure` of xsk/umem.rs.
pub mod Checked
mod Tests
use xdpilone.Base.{
  ℕ, ◌==◌, ◌^◌, bit_and, Bool, List, [], ◌∷◌, Outcome, ok, panic, Profile, assert, ltb,
}
use xdpilone.Sys.{
  Ran, returned, failed, panicked, ◌>>=◌, ◌>>◌, done, compute, sub_u64, Libc, sol_xdp, check,
}
use xdpilone.Iface.Info.{IfCtx}
use xdpilone.Ring.{Slice, ptr_len}
use xdpilone.Socket.{new_fd}
use xdpilone.Umem.{UmemConfig, Umem}
use xdpilone.Umem.Devices.{Host, set_at}

-- `XDP_UMEM_REG`
abbrev pub xdp_umem_reg : ℕ
xdp_umem_reg = 4

-- `struct XdpUmemReg`
pub record XdpUmemReg : Type 0 where
  pub addr : ℕ
  pub len : ℕ
  pub chunk_size : ℕ
  pub headroom : ℕ
  pub flags : ℕ
  pub tx_metadata_len : ℕ

-- The registration that `configure` passes.
unfoldable pub reg_of : Umem → XdpUmemReg
reg_of umem = record {
  addr = umem.umem_area.start;
  len = ptr_len umem.umem_area;
  chunk_size = umem.config.frame_size;
  headroom = umem.config.headroom;
  flags = umem.config.flags;
  tx_metadata_len = 0;
}

module _ {W : Type 0} (libc : Libc W) where
  -- `Umem::configure`
  unfoldable pub configure : Umem → W → Ran W (Unit {0})
  configure umem w =
      let mr = reg_of umem in
      let o =
        libc.setsockopt umem.fd sol_xdp xdp_umem_reg
          (mr.addr ∷ mr.len ∷ mr.chunk_size ∷ mr.headroom ∷ mr.flags ∷ mr.tx_metadata_len ∷ []) 32
          w in
      check libc o.0 o.1

  -- `is_page_aligned`; `&` of two `u64`
  unfoldable pub is_page_aligned : Profile → Slice → W → Outcome Bool
  is_page_aligned p area w = elim (sub_u64 p (libc.page_size w) 1) [
    | ok low ↦ ok (bit_and area.start low == 0)
    | panic ↦ panic
  ]

  -- The end of the scope of a Umem whose configuration has failed: the last use of its descriptor.
  abbrev pub or_close_umem : Umem → Ran W (Unit {0}) → Ran W Umem
  or_close_umem umem (returned u w) = returned umem w
  or_close_umem umem (failed e w) = failed e (libc.close umem.fd w)
  or_close_umem umem panicked = panicked

  -- `Umem::new`, for the name `devices` of its new `DeviceControl`.
  unfoldable pub create : Profile → ℕ → UmemConfig → Slice → W → Ran W Umem
  create p devices config area = do
    compute (assert (ltb 0 config.frame_size))
    aligned ← (λ w. compute (is_page_aligned p area w) w)
    compute (assert aligned)
    compute (assert (ltb (ptr_len area) (2 ^ 64)))
    fd ← new_fd libc
    (λ w.
        let umem : Umem = record {
          umem_area = area;
          config = config;
          fd = fd;
          devices = devices;
        } in
        or_close_umem umem (configure umem w))

-- The sets with an empty one for the new Umem: `SpinLockedControlSet::default()`
abbrev pub with_empty_set : {W : Type 0} → (ℕ → List IfCtx) → ℕ → Ran W Umem → Ran (Host W) Umem
with_empty_set sets devices (returned umem w) =
    returned umem (record { world = w; sets = set_at sets devices [] })
with_empty_set sets devices (failed e w) = failed e (record { world = w; sets = sets })
with_empty_set sets devices panicked = panicked

-- `Umem::new` on a host
unfoldable pub new_umem :
    {W : Type 0} → Libc W → Profile → ℕ → UmemConfig → Slice → Host W → Ran (Host W) Umem
new_umem libc p devices config area h =
    with_empty_set h.sets devices (create libc p devices config area h.world)
