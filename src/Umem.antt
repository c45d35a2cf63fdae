-- ===== src/Umem.antt =====
-- The memory area of xsk/umem.rs: `UmemConfig`, `UmemChunk` and the address arithmetic of `Umem`.
pub mod Frames
pub mod Devices
pub mod Create
pub mod Bind
mod Tests
use xdpilone.Base.{
  ℕ, ◌+◌, ◌-◌, ◌*◌, ◌/◌, ◌%◌, ◌^◌, Outcome, ok, panic, ◌>>=◌, ◌>>◌, Profile, debug_assert, mul_u64,
  u32_max, ltb, leb, ◌==◌, not, Bool, true, Option, none, some, if◌then◌else◌, List, map,
}
use xdpilone.Xdp.{XdpDesc}
use xdpilone.Ring.{BufIdx, Slice, ptr_len}

-- `struct UmemConfig`
pub record UmemConfig : Type 0 where
  pub fill_size : ℕ
  pub complete_size : ℕ
  pub frame_size : ℕ
  pub headroom : ℕ
  pub flags : ℕ

-- `UmemConfig::default`
abbrev pub default_config : UmemConfig
default_config = record {
  fill_size = 2 ^ 11;
  complete_size = 2 ^ 11;
  frame_size = 2 ^ 12;
  headroom = 0;
  flags = 0;
}

-- `struct Umem`: `fd` is the socket's descriptor, `devices` names the shared set of `DeviceControl`.
pub record Umem : Type 0 where
  pub umem_area : Slice
  pub config : UmemConfig
  pub fd : ℕ
  pub devices : ℕ

-- `struct UmemChunk`
pub record UmemChunk : Type 0 where
  pub addr : Slice
  pub offset : ℕ

-- `a.checked_sub(b) < Some(c)`, where `None` is below every `Some`.
abbrev pub checked_sub_lt : ℕ → ℕ → ℕ → Bool
checked_sub_lt a b c = if leb b a then ltb (a - b) c else true

-- `Umem::frame`
unfoldable pub frame : Profile → Umem → BufIdx → Outcome (Option UmemChunk)
frame p u idx = do
  let pitch = u.config.frame_size
  let area_size = ptr_len u.umem_area
  offset ← mul_u64 p pitch idx
  if checked_sub_lt area_size pitch offset then ok none else do
    let base = u.umem_area.start + offset
    debug_assert p (not (base == 0))
    ok (some (record { addr = record { start = base; len = pitch }; offset = offset }))

-- `Umem::len_frames`; a division by zero panics.
unfoldable pub len_frames : Umem → Outcome ℕ
len_frames u =
    if u.config.frame_size == 0
    then panic
    else (let count = ptr_len u.umem_area / u.config.frame_size in
        ok (if leb count u32_max then count else u32_max))

-- `UmemChunk::as_xdp_with_len`; `as u32` cuts the chunk's length off.
unfoldable pub as_xdp_with_len : Profile → UmemChunk → ℕ → Outcome XdpDesc
as_xdp_with_len p chunk len = do
  debug_assert p (leb len (ptr_len chunk.addr % 2 ^ 32))
  ok (record { addr = chunk.offset; len = len; options = 0 })

-- `UmemChunk::as_xdp`
unfoldable pub as_xdp : Profile → UmemChunk → Outcome XdpDesc
unfolding as_xdp_with_len
as_xdp p chunk = as_xdp_with_len p chunk (ptr_len chunk.addr % 2 ^ 32)
