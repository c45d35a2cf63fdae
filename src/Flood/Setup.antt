-- ===== src/Flood/Setup.antt =====
-- What examples/flood.rs does before its loop with the options of its command line: the interface, and
-- the packet in the frame. `examples/flood-mt.rs` repeats both.
mod Tests
use xdpilone.Base.{
  ℕ, zero, suc, ◌+◌, ◌-◌, ◌*◌, ◌≤◌, ◌≡◌, refl, ap, ◌∙◌, arith, Bool, true, false, ◌==◌, List, [],
  ◌∷◌, ◌++◌, length, length-append, length-drop, take, drop, take-append, ltb, if◌then◌else◌, max,
  Option, inl, inr, ◌⊎◌, none, some, Outcome, ok, panic, ◌>>=◌, Returns, Returns->>=, Profile,
  add_u32, IsU32,
}
use xdpilone.Xdp.{XdpDesc, IsDesc}
use xdpilone.Sys.{Errno, Ran, returned, failed, panicked, Libc, Ends}
use xdpilone.Iface.Info.{IfInfo, set_queue, invalid, from_name}
use xdpilone.Iface.Info.Set.{Named, from_name_lem}
use xdpilone.Ring.{BufIdx}
use xdpilone.Umem.{Umem, UmemChunk, frame}
use xdpilone.Umem.Frames.{IsUmem, HasFrame, chunk_at, frame_lem}

-- `struct Args`; the name is the list of its bytes.
pub record Args : Type 0 where
  pub ifname : List ℕ
  pub queue_id : Option ℕ
  pub batch : Option ℕ
  pub total : Option ℕ
  pub length_of : Option ℕ

abbrev pub unwrap_or : ℕ → Option ℕ → ℕ
unwrap_or d none = d
unwrap_or d (some n) = n

-- `ARP`
abbrev pub arp : List ℕ
arp =
    0x11 ∷ 0x12 ∷ 0x13 ∷ 0x14 ∷ 0x15 ∷ 0x16 ∷ 0x31 ∷ 0x32 ∷ 0x33 ∷ 0x34 ∷ 0x35 ∷ 0x36 ∷ 0x08 ∷ 0x06
    ∷ 0x00 ∷ 0x01 ∷ 0x08 ∷ 0x00 ∷ 0x06 ∷ 0x04 ∷ 0x00 ∷ 0x01 ∷ 0x11 ∷ 0x12 ∷ 0x13 ∷ 0x14 ∷ 0x15
    ∷ 0x16 ∷ 0x21 ∷ 0x22 ∷ 0x23 ∷ 0x24 ∷ 0x31 ∷ 0x32 ∷ 0x33 ∷ 0x34 ∷ 0x35 ∷ 0x36 ∷ 0x41 ∷ 0x42
    ∷ 0x43 ∷ 0x44 ∷ []

-- `prepare_buffer`, which also changes the buffer
unfoldable pub prepare_buffer : Profile → ℕ → List ℕ → Args → Outcome (XdpDesc × List ℕ)
prepare_buffer p offset buffer args = if ltb (length buffer) (length arp) then panic else (do
  let extra = unwrap_or 0 args.length_of - length arp
  len ← add_u32 p (length arp) extra
  ok (record { addr = offset; len = len; options = 0 }, arp ++ drop (length arp) buffer))

-- `umem.frame(idx).unwrap()`, and the packet in it; `bytes` are those of the umem's memory.
abbrev pub packet_in :
    Profile → (UmemChunk → List ℕ) → Args → Option UmemChunk → Outcome (XdpDesc × List ℕ)
packet_in p bytes args none = panic
packet_in p bytes args (some chunk) = prepare_buffer p chunk.offset (bytes chunk) args

unfoldable pub packet :
    Profile → Umem → BufIdx → (UmemChunk → List ℕ) → Args → Outcome (XdpDesc × List ℕ)
packet p umem idx bytes args = do chunk ← frame p umem idx; packet_in p bytes args chunk

abbrev pub has_nul : List ℕ → Bool
has_nul [] = false
has_nul (x ∷ xs) = let rest = has_nul xs in if x == 0 then true else rest

abbrev pub with_queue : Option ℕ → IfInfo → IfInfo
with_queue none info = info
with_queue (some q) info = set_queue q info

module _ {W : Type 0} (libc : Libc W) where
  -- What follows `from_name` in `ifinfo`.
  abbrev pub named : Option ℕ → Ran (IfInfo × W) (Unit {0}) → Ran W IfInfo
  named queue (returned u (info, w)) = returned (with_queue queue info) w
  named queue (failed e (info, w)) = failed e w
  named queue panicked = panicked

  -- `ifinfo`: `from_bytes_with_nul` refuses a NUL before the last byte, and `unwrap` panics.
  unfoldable pub ifinfo : Args → W → Ran W IfInfo
  ifinfo args w =
      if has_nul args.ifname
      then panicked
      else named args.queue_id (from_name libc (args.ifname ++ (0 ∷ [])) (invalid libc, w))

-- What the interface is that was asked for, by its name and its queue.
pub record Chosen {W : Type 0} (libc : Libc W) (asked : Option ℕ) (bytes : List ℕ) (w : W)
    (info : IfInfo) (w' : W) : Type 0 where
  pub index : libc.if_nametoindex bytes w ≡ (info.ctx.ifindex, w')
  pub queue : info.ctx.queue_id ≡ unwrap_or 0 asked
  pub cookie : info.ctx.netnscookie ≡ 0
  pub name : take (length bytes) info.ifname ≡ bytes

-- What the descriptor and the frame's bytes are for a packet of `asked` bytes.
pub record Prepared (offset asked : ℕ) (buffer : List ℕ) (desc : XdpDesc) (buffer' : List ℕ)
    : Type 0 where
  pub addr : desc.addr ≡ offset
  pub len : desc.len ≡ max (length arp) asked
  pub options : desc.options ≡ 0
  pub header : take (length arp) buffer' ≡ arp
  pub same_size : length buffer' ≡ length buffer

prepare_buffer_lem :
    (p : Profile) (offset : ℕ) (buffer : List ℕ) (args : Args)
    → length arp ≤ length buffer
    → IsU32 (unwrap_or 0 args.length_of)
    → Returns
        (prepare_buffer p offset buffer args)
        (λ (d, b). Prepared offset (unwrap_or 0 args.length_of) buffer d b)
unfolding prepare_buffer
prepare_buffer_lem p offset buffer args h fits = ground (
  arith,
  take-append arp (drop (length arp) buffer),
  length-append arp (drop (length arp) buffer),
  length-drop (length arp) buffer,
)

-- For a valid Umem, a frame that ends within the area and is no shorter than the ARP packet, whose
-- bytes are those of the frame, and an asked length that is a u32 (0 where there is none): in
-- every profile the descriptor of the packet has the frame's offset, the longer of the asked
-- length and the ARP packet's, and no options, the frame begins with the ARP packet, and its
-- length is as before.
pub packet_lem :
    (p : Profile) {u : Umem} (v : IsUmem u) (idx : BufIdx) (bytes : UmemChunk → List ℕ)
    (args : Args)
    → IsU32 idx
    → HasFrame u idx
    → length arp ≤ u.config.frame_size
    → length (bytes (chunk_at u idx)) ≡ u.config.frame_size
    → IsU32 (unwrap_or 0 args.length_of)
    → Returns (packet p u idx bytes args) (λ (d, b).
      Prepared
        (u.config.frame_size * idx)
        (unwrap_or 0 args.length_of)
        (bytes (chunk_at u idx))
        d
        b)
unfolding packet
packet_lem p {u} v idx bytes args fits has header size asked = elim (frame_lem v p idx fits) [
  | inl (h, e) ↦
      Returns->>= (λ o. o ≡ some (chunk_at u idx)) _ (frame p u idx) _ (rw e refl)
        λ o same. rw same (
          prepare_buffer_lem p (u.config.frame_size * idx) (bytes (chunk_at u idx)) args
            (omega (arith, header, size)) asked)
  | inr (beyond, e) ↦ absurd (omega (arith, has, beyond))
]

named-Ends :
    {W : Type 0} (libc : Libc W) (queue : Option ℕ) (bytes : List ℕ) (info : IfInfo) (w : W)
    (r : Ran (IfInfo × W) (Unit {0}))
    → Ends r (λ _ s. Named libc bytes info w s) (λ _ s. s.0 ≡ info)
    → Ends (named libc queue r) (λ i w'. Chosen libc queue bytes w i w') (λ _ _. Unit {0})
named-Ends libc none bytes info w (returned u (i, w')) n = record {
  index = n.index;
  queue = n.queue;
  cookie = n.cookie;
  name = n.name;
}
named-Ends libc (some q) bytes info w (returned u (i, w')) n = record {
  index = n.index;
  queue = refl;
  cookie = n.cookie;
  name = n.name;
}
named-Ends libc queue bytes info w (failed e s) n = tt
named-Ends libc queue bytes info w panicked n = absurd n

-- For a name without NUL: ifinfo does not panic; if it returns, the interface has the index that
-- if_nametoindex gave for the name, the queue asked for (0 where there is none), no namespace, and
-- the name at the start of its array.
pub ifinfo_lem :
    {W : Type 0} (libc : Libc W) (args : Args) (w : W)
    → has_nul args.ifname ≡ false
    → Ends
        (ifinfo libc args w)
        (λ info w'. Chosen libc args.queue_id (args.ifname ++ (0 ∷ [])) w info w')
        (λ e w'. Unit {0})
unfolding ifinfo
ifinfo_lem libc args w clean = rw clean (
    named-Ends libc args.queue_id (args.ifname ++ (0 ∷ [])) (invalid libc) w _
      (from_name_lem libc (args.ifname ++ (0 ∷ [])) (invalid libc) w))
