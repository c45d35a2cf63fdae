-- ===== src/Socket/Tests.antt =====
-- A socket on a kernel that does not know of namespace cookies.
use xdpilone.Base.{◌≡◌, refl, inr, none, true, [], ◌∷◌}
use xdpilone.Sys.{pos, negsuc, Libc, failed, Ends, and_then}
use xdpilone.Iface.Info.{IfInfo}
use xdpilone.Socket.{set_cookie, with_xdp_socket, new_socket, new_fd, cookie_reply}
use xdpilone.Socket.Cookie.{IsGetsockopt, ask, with_xdp_socket_lem}

abbrev old_kernel : Libc (Unit {0})
old_kernel = record {
  einval = 22;
  enoprotoopt = 92;
  af_xdp = 44;
  sock_raw = 3;
  sol_socket = 1;
  ifnamsiz = 16;
  msg_dontwait = 64;
  page_size = λ w. 4096;
  memory = λ w a. 0;
  errno = λ w. pos 92;
  socket = λ domain kind protocol w. (pos 3, w);
  close = λ fd w. w;
  setsockopt = λ fd level name value size w. (pos 0, w);
  getsockopt = λ fd level name buffer size w. (negsuc 0, buffer, size, w);
  mmap = λ len fd offset w. (none, w);
  munmap = λ a len w. w;
  poll = λ fd events time w. (pos 0, w);
  sendto = λ fd flags w. (pos 0, w);
  bind = λ fd addr size w. (pos 0, w);
  if_nametoindex = λ name w. (1, w);
  if_indextoname = λ index buffer w. (true, buffer, w);
}

old_kernel-IsGetsockopt : IsGetsockopt old_kernel
unfolding IsGetsockopt
old_kernel-IsGetsockopt fd level name buffer size w = inr refl

abbrev lo : IfInfo
lo = record {
  ctx = record { ifindex = 1; queue_id = 0; netnscookie = 0 };
  ifname = 108 ∷ 111 ∷ 0 ∷ [];
}

-- The error is ENOPROTOOPT, and the socket is not created.
no_socket : new_socket old_kernel lo tt ≡ failed (record { raw = pos 92 }) tt
unfolding new_socket new_fd with_xdp_socket cookie_reply and_then
no_socket = refl

with_xdp_socket_lem_example :
    Ends
      (with_xdp_socket old_kernel lo 3 tt)
      (λ s w'.
        ((ask old_kernel 3 tt).0 ≡ pos 0)
        × (s.fd ≡ 3)
        × (s.info ≡ set_cookie ((ask old_kernel 3 tt).1 0) lo)
        × (w' ≡ (ask old_kernel 3 tt).3))
      (λ e w'.
        ((ask old_kernel 3 tt).0 ≡ negsuc 0)
        × (e.raw ≡ old_kernel.errno (ask old_kernel 3 tt).3)
        × (w' ≡ (ask old_kernel 3 tt).3))
with_xdp_socket_lem_example = with_xdp_socket_lem old_kernel lo 3 tt old_kernel-IsGetsockopt
