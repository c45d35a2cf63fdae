-- ===== src/Umem/Bind/Tests.antt =====
-- Addresses of sockets with their own and with a shared Umem, and the transmit ring of a socket over a
-- world that has no more mappings to give.
use xdpilone.Base.{ℕ, ◌≡◌, ◌⊎◌, refl, Option, none, some, release_profile}
use xdpilone.Sys.{negsuc, failed, Ends, and_then}
use xdpilone.Sys.Mappings.{SameHeld, Adds}
use xdpilone.Iface.{default_offsets}
use xdpilone.Umem.Bind.{User, address_of, map_tx}
use xdpilone.Umem.Bind.Rings.{IsSized, Unsized, map_tx_lem}
use xdpilone.Umem.Devices.Tests.{libc, world, mappings, interface}

abbrev user : Option ℕ → User
user tx_size = record {
  socket = interface 1;
  config = record { rx_size = none; tx_size = tx_size; bind_flags = 8 };
  map = default_offsets;
}

own_and_shared :
    (address_of 44 (user none) 4
      ≡ record { family = 44; flags = 8; ifindex = 2; queue_id = 1; shared_umem_fd = 0 })
    × (address_of 44 (user none) 3
        ≡ record { family = 44; flags = 9; ifindex = 2; queue_id = 1; shared_umem_fd = 3 })
unfolding address_of
own_and_shared = (refl, refl)

-- The error is that of no documented number.
no_size :
    map_tx libc release_profile (user none) (world 2)
    ≡ failed (record { raw = negsuc 21 }) (world 2)
unfolding map_tx and_then
no_size = refl

map_tx_lem_example :
    Ends
      (map_tx libc release_profile (user (some 8)) (world 1))
      (λ r w'. IsSized (some 8) × (r.fd ≡ 4) × Adds mappings (world 1) r.ring.mmap_addr w')
      (λ e w'.
        Unsized libc (some 8) (world 1) e w' ⊎ (IsSized (some 8) × SameHeld mappings (world 1) w'))
map_tx_lem_example = map_tx_lem mappings release_profile refl refl (user (some 8)) (world 1)
