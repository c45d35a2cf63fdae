-- ===== src/Socket/Cookie.antt =====
-- The namespace of a socket, where `getsockopt` returns 0 or -1, as it documents.
use xdpilone.Base.{ℕ, ◌≡◌, refl, ◌⊎◌, inl, inr}
use xdpilone.Sys.{ℤ, pos, negsuc, Libc, Buffer, Ends}
use xdpilone.Iface.Info.{IfInfo}
use xdpilone.Socket.{so_netns_cookie, set_cookie, cookie_reply, with_xdp_socket}

-- `getsockopt` returns 0 or -1.
unfoldable pub IsGetsockopt : {W : Type 0} → Libc W → Type 0
IsGetsockopt {W} libc =
    (fd level name : ℕ) (buffer : Buffer) (size : ℕ) (w : W)
    → ((libc.getsockopt fd level name buffer size w).0 ≡ pos 0)
      ⊎ ((libc.getsockopt fd level name buffer size w).0 ≡ negsuc 0)

module _ {W : Type 0} (libc : Libc W) where
  -- The call for the cookie.
  abbrev pub ask : ℕ → W → ℤ × Buffer × ℕ × W
  ask fd w = libc.getsockopt fd libc.sol_socket so_netns_cookie (λ i. 0) 8 w

  -- with_xdp_socket, where getsockopt returns 0 or -1: the socket has the given descriptor, and
  -- the interface's information with the cookie that the kernel wrote, if the call returned 0;
  -- otherwise, whatever errno is, it fails with it, and the fallback for ENOPROTOOPT is not taken;
  -- there is no other call.
  pub with_xdp_socket_lem :
      (interface : IfInfo) (fd : ℕ) (w : W)
      → IsGetsockopt libc
      → Ends
          (with_xdp_socket libc interface fd w)
          (λ s w'.
            ((ask fd w).0 ≡ pos 0)
            × (s.fd ≡ fd)
            × (s.info ≡ set_cookie ((ask fd w).1 0) interface)
            × (w' ≡ (ask fd w).3))
          (λ e w'.
            ((ask fd w).0 ≡ negsuc 0) × (e.raw ≡ libc.errno (ask fd w).3) × (w' ≡ (ask fd w).3))
  unfolding with_xdp_socket IsGetsockopt cookie_reply
  with_xdp_socket_lem interface fd w documented =
      elim (documented fd libc.sol_socket so_netns_cookie (λ i. 0) 8 w) [
        | inl h ↦ rw h (refl, refl, refl, refl)
        | inr h ↦ rw h (refl, refl, refl)
      ]
