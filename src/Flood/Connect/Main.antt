-- ===== src/Flood/Connect/Main.antt =====
-- `main` of examples/flood.rs ends, on a system where every call succeeds and with a kernel that works.
use xdpilone.Base.{
  ℕ, ◌+◌, ◌-◌, ◌*◌, ◌^◌, ◌≤◌, ◌<◌, ◌≡◌, refl, subst, false, Profile, List, some, arith, IsU32,
}
use xdpilone.Sys.{Libc, Buffer}
use xdpilone.Sys.Works.{Works, Answers, Succeeds, Succeeds-and_then}
use xdpilone.Ring.{Slice, RingProd, RingCons}
use xdpilone.Umem.{UmemChunk}
use xdpilone.Umem.Devices.{Host}
use xdpilone.Umem.Devices.Ready.{Reports}
use xdpilone.Flood.{Kernel, Loop, start_loop}
use xdpilone.Flood.Promise.{IsSeparate, IsApart, IsKernel}
use xdpilone.Flood.Finish.{flood-Returns}
use xdpilone.Flood.Setup.{Args, unwrap_or}
use xdpilone.Flood.Connect.{connect, main}
use xdpilone.Flood.Connect.Rings.{Opened-IsApart, Opened-IsSeparate, Opened-IsLoop}
use xdpilone.Flood.Connect.Up.{IsRun, IsUp, connect-Succeeds}

to_go : (total : ℕ) → 2 * total ≡ 2 * total - (0 + 0)
to_go total = omega arith

module _ {W : Type 0} {libc : Libc W} (v : Works libc) (a : Answers libc v) (r : Reports libc v)
    (p : Profile) (init : Buffer) (devices : ℕ) (area : Slice) (bytes : UmemChunk → List ℕ)
    (args : Args) {E : Type 0} (kernel : RingProd → RingCons → Kernel E) (e : E) (rank : E → ℕ)
    (bound : ℕ)
    (works : (tx : RingProd) (cq : RingCons)
      → IsApart tx cq
      → IsSeparate tx cq
      → IsKernel tx cq (kernel tx cq) rank bound)
    (wraps : p.overflow_checks ≡ false) where
  abbrev batch : ℕ
  batch = unwrap_or (2 ^ 10) args.batch

  abbrev total : ℕ
  total = unwrap_or (2 ^ 20) args.total

  -- On a system on which every call succeeds, as `Answers` says, and reports the offsets of the
  -- rings as `Reports` says, in a build without overflow checks, for an area that begins with a
  -- page and can hold two frames, a name that fits, a length and a total that are u32 and a batch
  -- that is not 0: where the kernel works as `IsKernel` says on any two rings that lie apart, main
  -- of flood.rs, from Umem::new to the end of its loop, neither fails nor panics, and any fuel of
  -- at least `bound * (2 * total) + bound` rounds ends the loop with exactly the total of packets
  -- sent and completed.
  pub main-Succeeds :
      (fuel : ℕ) (h : Host W)
      → IsRun libc area bytes args h.world
      → 0 < batch
      → IsU32 total
      → bound * (2 * total) + bound ≤ fuel
      → Succeeds
          (main libc p init kernel e devices area bytes args fuel h)
          (λ o h'. (s : Loop E) × (o ≡ some s) × (s.sent ≡ total) × (s.completed ≡ total))
  unfolding main
  main-Succeeds fuel h i batch_pos total_fits enough =
      Succeeds-and_then (IsUp v args) _ (connect libc p init devices area bytes args h) _
        (connect-Succeeds v a r p init devices area bytes args h i)
        λ c h1 up.
          let tx = c.tx.ring in
          let cq = c.device.fcq.cons in
          let apart = Opened-IsApart v (2 ^ 14) c.device c.tx h1.world up.opened in
          let begin = Opened-IsLoop v e total (2 ^ 14) c.device c.tx h1.world up.opened in
          let ker =
            works tx cq apart (Opened-IsSeparate v (2 ^ 14) c.device c.tx h1.world up.opened) in
          let near : bound * (2 * total) + rank e < fuel = omega (arith, ker.bounded e) in
          let (s, ends, sent, completed, good) =
            flood-Returns apart ker p wraps batch total batch_pos total_fits c.desc up.desc_fits
              fuel (start_loop e (libc.memory h1.world) tx cq) begin
              (subst (λ x. bound * x + rank e < fuel) (to_go total) near) in
          rw ends (s, refl, sent, completed)
