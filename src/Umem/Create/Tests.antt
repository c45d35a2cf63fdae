-- ===== src/Umem/Create/Tests.antt =====
-- Umems over a small world that counts its descriptors.
use xdpilone.Base.{
  ℕ, ◌+◌, ◌-◌, ◌≡◌, ◌≢◌, ◌⊎◌, refl, ap, sym, arith, ◌%◌, true, [], none, release_profile,
  debug_profile,
}
use xdpilone.Sys.{ℤ, pos, negsuc, Libc, Ran, returned, failed, panicked, Ends, and_then}
use xdpilone.Sys.Descriptors.{Descriptors, one_for}
use xdpilone.Ring.{Slice}
use xdpilone.Socket.{new_fd}
use xdpilone.Umem.{Umem, default_config}
use xdpilone.Umem.Devices.{Host}
use xdpilone.Umem.Create.{new_umem, create, configure, is_page_aligned}
use xdpilone.Umem.Create.Checked.{IsArea, IsChecked, Created, NotCreated, new_umem_lem}

-- What is open, and what the registration of an area returns.
record World : Type 0 where
  open_count : ℕ → ℕ
  answer : ℤ

abbrev libc : Libc World
libc = record {
  einval = 22;
  enoprotoopt = 92;
  af_xdp = 44;
  sock_raw = 3;
  sol_socket = 1;
  ifnamsiz = 16;
  msg_dontwait = 64;
  page_size = λ w. 4096;
  memory = λ w a. 0;
  errno = λ w. pos 105;
  socket = λ domain kind protocol w.
      (pos 3, record w { open_count = λ x. w.open_count x + one_for 3 x });
  close = λ fd w. record w { open_count = λ x. w.open_count x - one_for fd x };
  setsockopt = λ fd level name value size w. (w.answer, w);
  getsockopt = λ fd level name buffer size w. (pos 0, buffer, size, w);
  mmap = λ len fd offset w. (none, w);
  munmap = λ a len w. w;
  poll = λ fd events time w. (pos 0, w);
  sendto = λ fd flags w. (pos 0, w);
  bind = λ fd addr size w. (pos 0, w);
  if_nametoindex = λ name w. (1, w);
  if_indextoname = λ index buffer w. (true, buffer, w);
}

descriptors : Descriptors libc
descriptors = record {
  opened = λ w. w.open_count;
  socket_pos = λ domain kind protocol w w' fd h x.
      ground (arith, ap (λ o. o.0) h, ap (λ o. o.1.open_count x) h);
  socket_negsuc = λ domain kind protocol w w' n h x. ground (arith, ap (λ o. o.0) h);
  close_lem = λ fd w x. refl;
  setsockopt_lem = λ fd level name value size w w' err h x. ap (λ o. o.1.open_count x) (sym h);
}

abbrev world : ℤ → World
world answer = record { open_count = λ x. 0; answer = answer }

abbrev host : ℤ → Host World
host answer = record { world = world answer; sets = λ d. [] }

abbrev area : ℕ → Slice
area start = record { start = start; len = 14336 }

area-IsArea : (answer : ℤ) → IsArea libc default_config (area 8192) (world answer)
area-IsArea answer = record {
  frame_fits = omega arith;
  area_pos = omega arith;
  area_fits = omega arith;
  page = record { exponent = 12; small = omega arith; value = omega arith };
}

-- One that is created, one whose registration fails, and two that do not get so far.
abbrev ends_with : Ran (Host World) Umem → ℕ × ℕ
ends_with (returned umem h) = (0, h.world.open_count 3)
ends_with (failed e h) = (1, h.world.open_count 3)
ends_with panicked = (2, 0)

four_ways :
    (ends_with (new_umem libc release_profile 7 default_config (area 8192) (host (pos 0))) ≡ (0, 1))
    × (ends_with (new_umem libc release_profile 7 default_config (area 8192) (host (negsuc 0)))
        ≡ (1, 0))
    × (ends_with (new_umem libc debug_profile 7 default_config (area 8200) (host (pos 0))) ≡ (2, 0))
    × (ends_with (
          new_umem libc release_profile 7
            (record default_config { frame_size = 0 })
            (area 8192)
            (host (pos 0)))
        ≡ (2, 0))
unfolding new_umem create configure is_page_aligned new_fd and_then
four_ways = (refl, refl, refl, refl)

new_umem_lem_example :
    (IsChecked libc default_config (area 8192) (world (negsuc 0))
      × Ends
          (new_umem libc debug_profile 7 default_config (area 8192) (host (negsuc 0)))
          (Created descriptors debug_profile 7 default_config (area 8192) (host (negsuc 0)))
          (λ _ h'.
            NotCreated descriptors debug_profile 7 default_config (area 8192) (host (negsuc 0)) h'))
    ⊎ (((default_config.frame_size ≡ 0)
          ⊎ ((area 8192).start % libc.page_size (world (negsuc 0)) ≢ 0))
        × (new_umem libc debug_profile 7 default_config (area 8192) (host (negsuc 0)) ≡ panicked))
new_umem_lem_example =
    new_umem_lem descriptors debug_profile 7 default_config (area 8192) (host (negsuc 0))
      (area-IsArea (negsuc 0))
