-- ===== src/Umem/Tests.antt =====
-- Tests of the frames, and the theorems about them at a concrete area.
use xdpilone.Base.{
  ◌+◌, ◌*◌, ◌≤◌, ◌<◌, ◌≡◌, ◌⊎◌, refl, arith, ok, Returns, some, none, debug_profile, u32_max,
}
use xdpilone.Umem.{UmemChunk, Umem, default_config, frame, len_frames, as_xdp}
use xdpilone.Umem.Frames.{
  IsUmem, HasFrame, chunk_at, frame_lem, frame-within, frame-apart, len_frames_lem, as_xdp-frame,
}

-- Three frames and a half.
abbrev umem : Umem
umem = record {
  umem_area = record { start = 8192; len = 14336 };
  config = default_config;
  fd = 3;
  devices = 0;
}

umem-IsUmem : IsUmem umem
umem-IsUmem = omega arith

third_and_fourth :
    (frame debug_profile umem 2 ≡ ok (some (chunk_at umem 2)))
    × (frame debug_profile umem 3 ≡ ok none)
    × (len_frames umem ≡ ok 3)
unfolding frame len_frames
third_and_fourth = (refl, refl, refl)

frame_two : frame debug_profile umem 2 ≡ ok (some (chunk_at umem 2))
frame_two = third_and_fourth.0

frame_one : frame debug_profile umem 1 ≡ ok (some (chunk_at umem 1))
unfolding frame
frame_one = refl

frame_lem_example :
    (HasFrame umem 2 × (frame debug_profile umem 2 ≡ ok (some (chunk_at umem 2))))
    ⊎ ((14336 < 4096 * 2 + 4096) × (frame debug_profile umem 2 ≡ ok none))
frame_lem_example = frame_lem umem-IsUmem debug_profile 2 (omega arith)

frame-within_example :
    (8192 ≤ (chunk_at umem 2).addr.start)
    × ((chunk_at umem 2).addr.start + (chunk_at umem 2).addr.len ≤ 8192 + 14336)
    × ((chunk_at umem 2).addr.start ≡ 8192 + (chunk_at umem 2).offset)
    × ((chunk_at umem 2).addr.len ≡ 4096)
frame-within_example =
    frame-within umem-IsUmem debug_profile 2 (omega arith) (chunk_at umem 2) frame_two

frame-apart_example :
    let a : UmemChunk = chunk_at umem 1 in
    let b : UmemChunk = chunk_at umem 2 in
    ((a.addr.start + a.addr.len ≤ b.addr.start) × (a.offset + a.addr.len ≤ b.offset))
    ⊎ ((b.addr.start + b.addr.len ≤ a.addr.start) × (b.offset + b.addr.len ≤ a.offset))
frame-apart_example =
    frame-apart umem-IsUmem debug_profile 1 2 (chunk_at umem 1) (chunk_at umem 2) (omega arith)
      (omega arith) (omega arith) frame_one frame_two

len_frames_lem_example : Returns (len_frames umem) λ n.
    (n ≤ u32_max)
    × (((2 < n) × HasFrame umem 2) ⊎ ((n ≤ 2) × ((14336 < 4096 * 2 + 4096) ⊎ (n ≡ u32_max))))
len_frames_lem_example = len_frames_lem umem-IsUmem 2

as_xdp-frame_example :
    Returns
      (as_xdp debug_profile (chunk_at umem 2))
      λ desc. (desc.addr ≡ 4096 * 2) × (desc.len ≡ 4096) × (desc.addr + desc.len ≤ 14336)
as_xdp-frame_example =
    as_xdp-frame umem-IsUmem debug_profile 2 (chunk_at umem 2) (omega arith) frame_two
