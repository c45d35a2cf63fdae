-- ===== src/Umem/Frames.antt =====
-- The frames of xsk/umem.rs: which there are, where they lie, and the descriptors made from them.
use native.Mathlib.Nat.{mul-le-mul, mul-le-mul_left, div-add-mod, mod-lt}
use native.Mathlib.Decide.{dec_lt}
use xdpilone.Base.{
  ℕ, suc, ◌+◌, ◌-◌, ◌*◌, ◌/◌, ◌^◌, ◌≤◌, ◌<◌, ◌≡◌, ◌≢◌, ◌⊎◌, inl, inr, arith, ok, panic, Returns,
  Profile, none, some, IsU32, u32_max, if◌then◌else◌,
}
use xdpilone.Ring.{BufIdx}
use xdpilone.Umem.{Umem, UmemChunk, frame, len_frames, as_xdp, as_xdp_with_len}

-- What `Umem::new` asserts and its caller promises: the frame size is a positive `u32`, and the area
-- is a part of the address space that does not hold the null address.
pub record IsUmem (u : Umem) : Type 0 where
  pub frame_pos : 0 < u.config.frame_size
  pub frame_fits : IsU32 u.config.frame_size
  pub area_pos : 0 < u.umem_area.start
  pub area_fits : u.umem_area.start + u.umem_area.len < 2 ^ 64

-- The frame at `idx` ends within the area.
abbrev pub HasFrame : Umem → BufIdx → Type 0
HasFrame u idx = u.config.frame_size * idx + u.config.frame_size ≤ u.umem_area.len

-- The frame at `idx`.
abbrev pub chunk_at : Umem → BufIdx → UmemChunk
chunk_at u idx = record {
  addr = record {
    start = u.umem_area.start + u.config.frame_size * idx;
    len = u.config.frame_size;
  };
  offset = u.config.frame_size * idx;
}

u32_product : (a b : ℕ) → IsU32 a → IsU32 b → a * b < 2 ^ 64
u32_product a b ha hb = omega (
  arith,
  mul-le-mul {n₁ = a} {m₁ = b} {n₂ = 2 ^ 32 - 1} {m₂ = 2 ^ 32 - 1} (omega arith) (omega arith),
)

module _ {u : Umem} (v : IsUmem u) (p : Profile) (idx : BufIdx) (fits : IsU32 idx) where
  -- In every profile `frame` returns the chunk of a frame that ends within the area, and `None` for
  -- any other: the multiplication does not overflow and the address is not null.
  pub frame_lem :
      (HasFrame u idx × (frame p u idx ≡ ok (some (chunk_at u idx))))
      ⊎ ((u.umem_area.len < u.config.frame_size * idx + u.config.frame_size)
          × (frame p u idx ≡ ok none))
  unfolding frame
  frame_lem = elim (dec_lt u.umem_area.len (u.config.frame_size * idx + u.config.frame_size)) [
    | yes beyond ↦
        inr (beyond, ground (arith, u32_product u.config.frame_size idx v.frame_fits fits))
    | no within ↦
        inl (omega arith, ground (arith, u32_product u.config.frame_size idx v.frame_fits fits))
  ]

  -- A chunk that `frame` returns lies within the area, and is as long as a frame.
  pub frame-within :
      (chunk : UmemChunk)
      → frame p u idx ≡ ok (some chunk)
      → (u.umem_area.start ≤ chunk.addr.start)
        × (chunk.addr.start + chunk.addr.len ≤ u.umem_area.start + u.umem_area.len)
        × (chunk.addr.start ≡ u.umem_area.start + chunk.offset)
        × (chunk.addr.len ≡ u.config.frame_size)
  frame-within chunk e = ground (arith, frame_lem)

-- For a valid Umem, in every profile, the chunks that frame returns for two different u32 indices
-- overlap neither by their addresses nor by their offsets.
pub frame-apart :
    {u : Umem} (v : IsUmem u) (p : Profile) (i j : BufIdx) (a b : UmemChunk)
    → IsU32 i
    → IsU32 j
    → i ≢ j
    → frame p u i ≡ ok (some a)
    → frame p u j ≡ ok (some b)
    → ((a.addr.start + a.addr.len ≤ b.addr.start) × (a.offset + a.addr.len ≤ b.offset))
      ⊎ ((b.addr.start + b.addr.len ≤ a.addr.start) × (b.offset + b.addr.len ≤ a.offset))
frame-apart {u} v p i j a b i_fits j_fits ne ea eb = elim (dec_lt i j) [
  | yes lt ↦ inl (
      ground (
        arith,
        frame_lem v p i i_fits,
        frame_lem v p j j_fits,
        mul-le-mul_left {m = suc i} {n = j} u.config.frame_size lt,
      ))
  | no ge ↦ inr (
      ground (
        arith,
        frame_lem v p i i_fits,
        frame_lem v p j j_fits,
        mul-le-mul_left {m = suc j} {n = i} u.config.frame_size (omega arith),
      ))
]

-- The quotient counts the frames.
frame_count :
    {u : Umem} (v : IsUmem u) (idx : BufIdx)
    → ((idx < u.umem_area.len / u.config.frame_size) × HasFrame u idx)
      ⊎ ((u.umem_area.len / u.config.frame_size ≤ idx)
          × (u.umem_area.len < u.config.frame_size * idx + u.config.frame_size))
frame_count {u} v idx =
    let size = u.config.frame_size in
    let len = u.umem_area.len in
    elim (dec_lt idx (len / size)) [
      | yes below ↦ inl (
        below,
        omega (
          arith,
          mul-le-mul_left {m = suc idx} {n = len / size} size below,
          div-add-mod len size,
        ),
      )
      | no above ↦ inr (
        omega arith,
        omega (
          arith,
          mul-le-mul_left {m = len / size} {n = idx} size (omega arith),
          div-add-mod len size,
          mod-lt len v.frame_pos,
        ),
      )
    ]

-- `len_frames` returns, and counts the frames: an index has a frame exactly if it is below the
-- count, unless the count is `u32::MAX`, where further indices may have one.
pub len_frames_lem :
    {u : Umem}
    → IsUmem u
    → (idx : BufIdx)
    → Returns (len_frames u) λ n.
      (n ≤ u32_max)
      × (((idx < n) × HasFrame u idx)
          ⊎ ((n ≤ idx)
              × ((u.umem_area.len < u.config.frame_size * idx + u.config.frame_size)
                  ⊎ (n ≡ u32_max))))
unfolding len_frames
len_frames_lem {u} v idx = ground (arith, frame_count v idx)

-- The descriptor of a frame's chunk, in every profile: it names the whole frame, within the area.
pub as_xdp-frame :
    {u : Umem} (v : IsUmem u) (p : Profile) (idx : BufIdx) (chunk : UmemChunk)
    → IsU32 idx
    → frame p u idx ≡ ok (some chunk)
    → Returns (as_xdp p chunk) λ desc.
      (desc.addr ≡ u.config.frame_size * idx)
      × (desc.len ≡ u.config.frame_size)
      × (desc.addr + desc.len ≤ u.umem_area.len)
unfolding as_xdp
as_xdp-frame {u} v p idx chunk fits e = ground (arith, frame_lem v p idx fits)

-- With debug assertions a length above the chunk's is refused; without, it is taken as it is.
pub as_xdp_with_len-too_long :
    (p : Profile) (chunk : UmemChunk) (len : ℕ)
    → IsU32 chunk.addr.len
    → chunk.addr.len < len
    → as_xdp_with_len p chunk len ≡ (
        if p.debug_assertions
        then panic
        else ok (record { addr = chunk.offset; len = len; options = 0 }))
unfolding as_xdp_with_len
as_xdp_with_len-too_long p chunk len fits long = ground arith
