-- ===== src/Iface/Offsets.antt =====
-- What `SocketMmapOffsets::set_from_fd` of xsk/iface.rs reads of what old and new kernels write.
mod Tests
use xdpilone.Base.{
  ℕ, ◌+◌, ◌^◌, ◌≡◌, ◌<◌, ◌⊎◌, inl, inr, zero, suc, refl, sym, ap, ltb, true, ◌∙◌, arith, ok,
  Profile, List, [], ◌∷◌,
}
use xdpilone.Xdp.{XdpRingOffsets}
use xdpilone.Sys.{ℤ, pos, Ran, returned, compute, add_u64, and_then, Buffer, Libc, sol_xdp, check}
use xdpilone.Iface.{
  XdpMmapOffsets, SocketMmapOffsets, ring_at, ring_v1_at, v1_of, latest_of, opt_latest, opt_v1,
  xdp_mmap_offsets, fixup_v1, fixup_all, read_offsets, offsets_reply, set_from_fd,
}

-- The words of a list, and what is in the buffer behind them.
abbrev pub words : List ℕ → Buffer → Buffer
words [] rest i = rest i
words (x ∷ xs) rest zero = x
words (x ∷ xs) rest (suc i) = words xs (λ j. rest (suc j)) i

-- What a kernel writes for the offsets of four rings: with the flags, and without them.
abbrev pub latest_words : XdpMmapOffsets → List ℕ
latest_words o =
    o.rx.producer ∷ o.rx.consumer ∷ o.rx.desc ∷ o.rx.flags ∷ o.tx.producer ∷ o.tx.consumer
    ∷ o.tx.desc ∷ o.tx.flags ∷ o.fr.producer ∷ o.fr.consumer ∷ o.fr.desc ∷ o.fr.flags
    ∷ o.cr.producer ∷ o.cr.consumer ∷ o.cr.desc ∷ o.cr.flags ∷ []

abbrev pub v1_words : XdpMmapOffsets → List ℕ
v1_words o =
    o.rx.producer ∷ o.rx.consumer ∷ o.rx.desc ∷ o.tx.producer ∷ o.tx.consumer ∷ o.tx.desc
    ∷ o.fr.producer ∷ o.fr.consumer ∷ o.fr.desc ∷ o.cr.producer ∷ o.cr.consumer ∷ o.cr.desc ∷ []

-- The flags follow the consumer head.
pub record FlagsFollow (r : XdpRingOffsets) : Type 0 where
  pub follow : r.flags ≡ r.consumer + 4
  pub fits : r.consumer + 4 < 2 ^ 64

pub record AllFollow (o : XdpMmapOffsets) : Type 0 where
  pub rx : FlagsFollow o.rx
  pub tx : FlagsFollow o.tx
  pub fr : FlagsFollow o.fr
  pub cr : FlagsFollow o.cr

fixup_v1_lem :
    {W : Type 0} (libc : Libc W) (p : Profile) (r : XdpRingOffsets) (w : W)
    → FlagsFollow r
    → fixup_v1 libc p (record { producer = r.producer; consumer = r.consumer; desc = r.desc }) w
      ≡ returned r w
unfolding and_then
fixup_v1_lem libc p r w f =
    let below : ltb (r.consumer + 4) (2 ^ 64) ≡ true = ground (arith, f.fits) in
    rw below (ap (λ x. returned (record r { flags = x }) w) (sym f.follow))

fixup_all_lem :
    {W : Type 0} (libc : Libc W) (p : Profile) (o : XdpMmapOffsets) (rest : Buffer) (w : W)
    → AllFollow o
    → fixup_all libc p (v1_of (words (v1_words o) rest)) w ≡ returned (record { inner = o }) w
unfolding fixup_all and_then
fixup_all_lem libc p o rest w a =
    rw
      (
        fixup_v1_lem libc p o.rx w a.rx,
        fixup_v1_lem libc p o.tx w a.tx,
        fixup_v1_lem libc p o.fr w a.fr,
        fixup_v1_lem libc p o.cr w a.cr,
      )
      refl

-- Where getsockopt returns 0 and has written the offsets of four rings, in the current layout, or,
-- where each ring's flags follow its consumer head and are offset by less than 2 ^ 64, in the old
-- layout without the flags: in every profile set_from_fd returns just these offsets.
pub set_from_fd_lem :
    {W : Type 0} (libc : Libc W) (p : Profile) (init : Buffer) (sock : ℕ) (o : XdpMmapOffsets)
    (rest : Buffer) (w w' : W)
    → (libc.getsockopt sock sol_xdp xdp_mmap_offsets init opt_latest w
        ≡ (pos 0, words (latest_words o) rest, opt_latest, w'))
      ⊎ (AllFollow o
          × (libc.getsockopt sock sol_xdp xdp_mmap_offsets init opt_latest w
              ≡ (pos 0, words (v1_words o) rest, opt_v1, w')))
    → set_from_fd libc p init sock w ≡ returned (record { inner = o }) w'
unfolding set_from_fd read_offsets and_then
set_from_fd_lem libc p init sock o rest w w' (inl e) = rw e refl
set_from_fd_lem libc p init sock o rest w w' (inr (f, e)) = rw e (fixup_all_lem libc p o rest w' f)
