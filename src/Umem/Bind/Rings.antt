-- ===== src/Umem/Bind/Rings.antt =====
-- How a socket comes to its rings, and what that does to the mappings.
use xdpilone.Base.{ℕ, ◌≡◌, refl, ◌⊎◌, arith, ◌∙◌, inl, inr, false, Profile, Option, none, some}
use xdpilone.Sys.{neg, Errno, Libc, Ends, Ends-and_then, Ends-map}
use xdpilone.Sys.Mappings.{Mappings, SameHeld, Adds}
use xdpilone.Ring.Map.Held.{map_ring-Ends}
use xdpilone.Ring.Map.{tx, xdp_pgoff_tx_ring}
use xdpilone.Iface.{SocketMmapOffsets}
use xdpilone.Umem.Bind.{User, map_tx, ok_or_einval}

-- A ring is configured with a size.
pub record IsSized (size : Option ℕ) : Type 0 where
  pub count : ℕ
  pub sized : size ≡ some count

-- A ring is not configured, which is reported as the negative of EINVAL before any call.
pub record Unsized {W : Type 0} (libc : Libc W) (size : Option ℕ) (w : W) (e : Errno) (w' : W)
    : Type 0 where
  pub unsized : size ≡ none
  pub errno : e.raw ≡ neg libc.einval
  pub world : w' ≡ w

module _ {W : Type 0} {libc : Libc W} (v : Mappings libc) (p : Profile)
    (hc : p.overflow_checks ≡ false) (hd : p.debug_assertions ≡ false) where
  tx-Ends :
      (fd : ℕ) (off : SocketMmapOffsets) (count : ℕ) (w : W)
      → Ends (tx libc p fd off count w) (λ r w'. Adds v w r.mmap_addr w') (λ _ w'. SameHeld v w w')
  unfolding tx
  tx-Ends fd off count w =
      Ends-and_then (λ r w'. Adds v w r.1 w') _ _ _ _
        (map_ring-Ends v p hc hd fd off.inner.tx count 16 xdp_pgoff_tx_ring w) λ r w' adds. adds

  -- The size is there, and nothing has happened.
  ok_or_einval-Ends :
      (size : Option ℕ) (w : W)
      → Ends
          (ok_or_einval libc size w)
          (λ _ w'. IsSized size × SameHeld v w w')
          (λ e w'. Unsized libc size w e w' ⊎ (IsSized size × SameHeld v w w'))
  ok_or_einval-Ends none w = inl (record { unsized = refl; errno = refl; world = refl })
  ok_or_einval-Ends (some n) w = (record { count = n; sized = refl }, λ b l. refl)

  -- Without overflow checks and debug assertions, over calls that map and unmap as `Mappings`
  -- says: map_tx does not panic; if it returns, a size is configured, the ring has the socket's
  -- descriptor, and its mapping is the only one more; if it fails, either no size is configured,
  -- the error is -EINVAL and the world is as before, or a size is configured and the mappings are
  -- as before.
  pub map_tx_lem :
      (user : User) (w : W)
      → Ends
          (map_tx libc p user w)
          (λ r w'.
            IsSized user.config.tx_size × (r.fd ≡ user.socket.fd) × Adds v w r.ring.mmap_addr w')
          (λ e w'.
            Unsized libc user.config.tx_size w e w'
            ⊎ (IsSized user.config.tx_size × SameHeld v w w'))
  unfolding map_tx
  map_tx_lem user w =
      Ends-and_then (λ _ w1. IsSized user.config.tx_size × SameHeld v w w1) _ _ _ _
        (ok_or_einval-Ends user.config.tx_size w)
        λ size w1 (sized, same).
          Ends-and_then (λ r w2. Adds v w r.mmap_addr w2) _ _ _ _
            (Ends-map (λ r w2. Adds v w1 r.mmap_addr w2) (λ r w2. Adds v w r.mmap_addr w2)
              (λ _ w2. SameHeld v w1 w2)
              (λ e w2.
                Unsized libc user.config.tx_size w e w2
                ⊎ (IsSized user.config.tx_size × SameHeld v w w2))
              _ (tx-Ends user.socket.fd user.map size w1)
              (λ r w2 adds b l. omega (arith, adds b l, same b l))
              (λ e w2 held. inr (sized, λ b l. held b l ∙ same b l)))
            λ ring w2 adds. (sized, refl, adds)
