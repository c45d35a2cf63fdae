-- ===== src/Socket.antt =====
-- xsk/socket.rs: a socket for an interface, with the namespace that the kernel tells of it.
pub mod Cookie
pub mod Opened
mod Tests
use xdpilone.Base.{ℕ, zero, suc, Bool, true, false, ◌==◌, if◌then◌else◌}
use xdpilone.Sys.{ℤ, pos, negsuc, Ran, returned, failed, panicked, ◌>>=◌, Libc, Buffer, fail}
use xdpilone.Iface.Info.{IfCtx, IfInfo}

-- `struct Socket`; the descriptor is that of the shared `SocketFd`.
pub record Socket : Type 0 where
  pub info : IfInfo
  pub fd : ℕ

-- `SO_NETNS_COOKIE` and `INIT_NS`
abbrev pub so_netns_cookie : ℕ
so_netns_cookie = 71

abbrev pub init_ns : ℕ
init_ns = 1

-- `Arc::make_mut(&mut info).ctx.netnscookie = netnscookie` on a copy of the information
abbrev pub set_cookie : ℕ → IfInfo → IfInfo
set_cookie netnscookie info = record info { ctx = record info.ctx { netnscookie = netnscookie } }

module _ {W : Type 0} (libc : Libc W) where
  -- What follows the call of `socket`: a negative result is a failure.
  abbrev pub fd_reply : ℤ × W → Ran W ℕ
  fd_reply (pos fd, w) = returned fd w
  fd_reply (negsuc n, w) = fail libc w

  -- `SocketFd::new`
  unfoldable pub new_fd : W → Ran W ℕ
  new_fd w = fd_reply (libc.socket libc.af_xdp libc.sock_raw 0 w)

  -- `match err`, and the rest of `with_xdp_socket`.
  unfoldable pub cookie_reply : IfInfo → ℕ → ℤ → ℕ → W → Ran W Socket
  cookie_reply interface fd (pos zero) netnscookie w =
      returned (record { info = set_cookie netnscookie interface; fd = fd }) w
  cookie_reply interface fd (pos (suc n)) netnscookie w =
      if suc n == libc.enoprotoopt
      then returned (record { info = set_cookie init_ns interface; fd = fd }) w
      else fail libc w
  cookie_reply interface fd (negsuc n) netnscookie w = fail libc w

  -- `Socket::with_xdp_socket`. The cookie, a `u64` that starts at 0, is the buffer's only word.
  unfoldable pub with_xdp_socket : IfInfo → ℕ → W → Ran W Socket
  with_xdp_socket interface fd w =
      let o = libc.getsockopt fd libc.sol_socket so_netns_cookie (λ i. 0) 8 w in
      cookie_reply interface fd o.0 (o.1 0) o.3

  -- `Socket::with_shared`, for the descriptor of the Umem
  abbrev pub with_shared : IfInfo → ℕ → W → Ran W Socket
  with_shared interface umem_fd = with_xdp_socket interface umem_fd

  -- What follows the creation of the descriptor: a failure drops it.
  abbrev pub or_close : ℕ → Ran W Socket → Ran W Socket
  or_close fd (returned s w) = returned s w
  or_close fd (failed e w) = failed e (libc.close fd w)
  or_close fd panicked = panicked

  -- `Socket::new`
  unfoldable pub new_socket : IfInfo → W → Ran W Socket
  new_socket interface = do fd ← new_fd; (λ w. or_close fd (with_xdp_socket interface fd w))
