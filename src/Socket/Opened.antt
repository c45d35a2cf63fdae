-- ===== src/Socket/Opened.antt =====
-- The descriptors that the creation of a socket opens.
use xdpilone.Base.{◌≡◌, refl}
use xdpilone.Sys.{ℤ, pos, negsuc, Libc, Ends}
use xdpilone.Sys.Descriptors.{Descriptors, SameOpened, Opens}
use xdpilone.Socket.{new_fd, fd_reply}

module _ {W : Type 0} {libc : Libc W} (v : Descriptors libc) where
  fd_reply-Ends :
      (w : W) (o : ℤ × W)
      → libc.socket libc.af_xdp libc.sock_raw 0 w ≡ o
      → Ends (fd_reply libc o) (λ fd w'. Opens v w fd w') (λ _ w'. SameOpened v w w')
  fd_reply-Ends w (pos fd, w') h = v.socket_pos libc.af_xdp libc.sock_raw 0 w w' fd h
  fd_reply-Ends w (negsuc n, w') h = v.socket_negsuc libc.af_xdp libc.sock_raw 0 w w' n h

  -- `SocketFd::new` opens one descriptor, or none where it fails.
  pub new_fd-Ends :
      (w : W) → Ends (new_fd libc w) (λ fd w'. Opens v w fd w') (λ _ w'. SameOpened v w w')
  unfolding new_fd
  new_fd-Ends w = fd_reply-Ends w (libc.socket libc.af_xdp libc.sock_raw 0 w) refl
