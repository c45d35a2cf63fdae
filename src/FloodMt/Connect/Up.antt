-- ===== src/FloodMt/Connect/Up.antt =====
-- The connection of examples/flood-mt.rs comes up on a system where every call succeeds.
use xdpilone.Base.{
  ℕ, ◌^◌, ◌≤◌, ◌<◌, ◌≡◌, refl, sym, ap, subst, Profile, List, [], ◌∷◌, length, some, min, arith,
  IsU32,
}
use xdpilone.Sys.{Libc, Buffer}
use xdpilone.Sys.Works.{Works, Answers, Carries, Succeeds, Succeeds-and_then, compute-Succeeds}
use xdpilone.Iface.Info.{IfInfo}
use xdpilone.Ring.{Slice}
use xdpilone.Umem.{Umem, UmemChunk, default_config}
use xdpilone.Umem.Create.{new_umem}
use xdpilone.Umem.Create.Checked.{IsArea, IsChecked, umem_at}
use xdpilone.Umem.Devices.{Host, set_at}
use xdpilone.Umem.Devices.Claim.{set_at-at}
use xdpilone.Umem.Devices.Ready.{Reports, IsSized, Carries-IsReady}
use xdpilone.Flood.Setup.{unwrap_or}
use xdpilone.Flood.Connect.Ready.{new_umem-Succeeds}
use xdpilone.Flood.Connect.Opened.{unwrap-Succeeds, call-Succeeds}
use xdpilone.Flood.Connect.Packet.{IsPacket, packet-Returns}
use xdpilone.Flood.Connect.Up.{default_config-IsSized}
use xdpilone.FloodMt.Setup.{MtArgs, args_for, ifinfos}
use xdpilone.FloodMt.Connect.Names.{AreNames, SameIndices, SameIndices-Differ, ifinfos-Succeeds}
use xdpilone.FloodMt.Connect.{MtConnection, around, queues_for, connect_over, mt_connect}
use xdpilone.FloodMt.Connect.Rounds.{around-Claims, claimed, claimed-around, length-around_from}
use xdpilone.FloodMt.Connect.Ready.{info_index, indices, AllCreated, create_all-Succeeds, All-map}
use xdpilone.FloodMt.Connect.Bound.{bind_all-Succeeds}
use xdpilone.FloodMt.Connect.Mapped.{AllOpened, AllMapped, map_all-Succeeds}

-- What `main` is run with: an area that can hold a frame, names of interfaces, and options that fit.
pub record IsMtRun {W : Type 0} (libc : Libc W) (index_of : List ℕ → ℕ) (area : Slice)
    (bytes : UmemChunk → List ℕ) (args : MtArgs) (w : W) : Type 0 where
  pub is_area : IsArea libc default_config area w
  pub checked : IsChecked libc default_config area w
  pub one_frame : 2 ^ 12 ≤ area.len
  pub filled : (chunk : UmemChunk) → length (bytes chunk) ≡ chunk.addr.len
  pub named : 0 < length args.ifname
  pub names : AreNames libc index_of args.ifname
  pub length_fits : IsU32 (unwrap_or 0 args.length_of)

-- The connection is up: a transmit ring for each thread, a device queue for each interface that has a
-- socket, empty rings that lie apart, and the descriptor of a packet in frame 0.
pub record IsMtUp {W : Type 0} {libc : Libc W} (v : Works libc) (args : MtArgs) (c : MtConnection)
    (h : Host W) : Type 0 where
  pub sockets : length c.tx_queues ≡ unwrap_or 1 args.threads
  pub queues : length c.devices ≡ min (unwrap_or 1 args.threads) (length args.ifname)
  pub opened : AllOpened v c.devices c.tx_queues h.world
  pub packet : IsPacket (args_for args []) 0 c.desc

module _ {W : Type 0} {libc : Libc W} (v : Works libc) (a : Answers libc v) (r : Reports libc v)
    (p : Profile) (init : Buffer) (devices : ℕ) (area : Slice) (bytes : UmemChunk → List ℕ)
    (args : MtArgs) (index_of : List ℕ → ℕ) where
  connect_over-Succeeds :
      (w : W) (umem : Umem) (infos : List IfInfo) (h : Host W)
      → IsMtRun libc index_of area bytes args w
      → umem ≡ umem_at libc p devices default_config area umem.fd
      → SameIndices index_of args.ifname infos
      → h.sets umem.devices ≡ []
      → Succeeds
          (connect_over libc p init umem bytes args infos h)
          (λ o h'. (c : MtConnection) × (o ≡ some c) × IsMtUp v args c h')
  connect_over-Succeeds w umem [] h i at same free =
      let (d, n) = SameIndices-Differ index_of args.ifname [] [] same i.names.differ in
      absurd (omega (arith, n, i.named))
  connect_over-Succeeds w umem (info ∷ infos) h i at same free =
      let threads = unwrap_or 1 args.threads in
      let (d, n) = SameIndices-Differ index_of args.ifname (info ∷ infos) [] same i.names.differ in
      Succeeds-and_then
        (λ (ds, us) h1.
          AllCreated v (length (around info infos threads)) (claimed 0 (around info infos threads))
            h.world ds us h1.world)
        _ _ _
        (create_all-Succeeds v a r p init umem
          (subst (λ u. IsSized u.config) (sym at) default_config-IsSized) 0
          (around info infos threads) [] h (around-Claims info_index info infos threads d)
          (ap indices free))
        λ (ds, us) h1 m.
          Succeeds-and_then (λ _ h2. Carries v h1.world h2.world) _ _ _
            (bind_all-Succeeds v a p init umem 0 (queues_for libc p init ds (length us)) us h1)
            λ _ h2 c2.
              Succeeds-and_then (λ txs h3. AllMapped v ds (length us) h2.world txs h3.world) _ _ _
                (map_all-Succeeds v a p init ds us h2
                  (All-map (λ d ready. Carries-IsReady v c2 ready) ds m.ready) m.configured)
                λ txs h3 t.
                  Succeeds-and_then (λ (d, b) h4. IsPacket (args_for args []) 0 d × (h4 ≡ h3)) _ _ _
                    (compute-Succeeds (λ (d, b). IsPacket (args_for args []) 0 d)
                      (λ (d, b) h4. IsPacket (args_for args []) 0 d × (h4 ≡ h3)) _ h3
                      (packet-Returns libc p devices area bytes (args_for args []) 0 w umem
                        i.is_area i.one_frame i.filled i.length_fits (omega arith) at)
                      λ (d, b) pr. (pr, refl))
                    λ (d, b) h4 (pr, e4). (
                      _,
                      refl,
                      record {
                        sockets =
                            omega
                              (arith, t.count, m.users, length-around_from info infos [] 0 threads);
                        queues = omega (arith, m.count, claimed-around info infos threads, n);
                        opened = subst (λ g. AllOpened v ds txs g.world) (sym e4) t.opened;
                        packet = pr;
                      },
                    )

  -- On a system on which every call succeeds, as `Answers` says, and reports the offsets of the
  -- rings as `Reports` says, for an area that begins with a page and can hold a frame, at least
  -- one name, names that fit and stand for interfaces of different indices, and a length that is a
  -- u32, in every profile: the calls of flood-mt.rs up to its threads neither fail nor panic;
  -- there is a transmit ring for each thread and a device queue for each name that a thread is
  -- left for, all rings are empty and as mapped, the heads of every completion ring lie outside of
  -- every transmit ring, and the descriptor is that of a packet in the frame at 0.
  pub mt_connect-Succeeds :
      (h : Host W)
      → IsMtRun libc index_of area bytes args h.world
      → Succeeds
          (mt_connect libc p init devices area bytes args h)
          (λ o h'. (c : MtConnection) × (o ≡ some c) × IsMtUp v args c h')
  unfolding mt_connect
  mt_connect-Succeeds h i =
      Succeeds-and_then
        (λ u h1.
          ((u ≡ umem_at libc p devices default_config area u.fd) × Carries v h.world h1.world)
          × (h1.sets ≡ set_at h.sets devices []))
        _ _ _
        (unwrap-Succeeds (new_umem libc p devices default_config area h) _
          (new_umem-Succeeds v a p devices default_config area h i.is_area i.checked))
        λ umem h1 ((at, c1), s1).
          Succeeds-and_then
            (λ o h2.
              ((infos : List IfInfo) × (o ≡ some infos)
                × SameIndices index_of args.ifname infos
                × Carries v h1.world h2.world)
              × (h2.sets ≡ h1.sets))
            _ _ _
            (call-Succeeds (ifinfos libc args) h1
              (λ o w2.
                (infos : List IfInfo) × (o ≡ some infos)
                × SameIndices index_of args.ifname infos
                × Carries v h1.world w2)
              (ifinfos-Succeeds v a args index_of i.names.indexed h1.world i.named i.names.clean
                i.names.fit))
            λ o h2 ((infos, e, same, c2), s2). rw e (
              connect_over-Succeeds h.world umem infos h2 i at same (
                subst (λ u. h2.sets u.devices ≡ []) (sym at)
                  (rw (s2, s1) (set_at-at h.sets devices []))))
