-- ===== src/Iface/Info/Tests.antt =====
-- Names and indices at a small system of one interface, `lo` with index 1.
use xdpilone.Base.{◌≡◌, refl, [], ◌∷◌}
use xdpilone.Samples.{lo, libc}
use xdpilone.Sys.{returned, Ends}
use xdpilone.Iface.Info.{from_name, from_ifindex, invalid}
use xdpilone.Iface.Info.Set.{from_ifindex-ctx}

by_name :
    from_name libc lo (invalid libc, tt)
    ≡ returned tt (
      record {
        ctx = record { ifindex = 1; queue_id = 0; netnscookie = 0 };
        ifname = 108 ∷ 111 ∷ 0 ∷ 0 ∷ 0 ∷ 0 ∷ 0 ∷ 0 ∷ 0 ∷ 0 ∷ 0 ∷ 0 ∷ 0 ∷ 0 ∷ 0 ∷ 0 ∷ [];
      },
      tt,
    )
unfolding from_name
by_name = refl

-- The index that was asked for is not kept.
by_index :
    from_ifindex libc 1 (invalid libc, tt)
    ≡ returned tt
        (record { ctx = record { ifindex = 0; queue_id = 0; netnscookie = 0 }; ifname = lo }, tt)
unfolding from_ifindex
by_index = refl

from_ifindex-ctx_example :
    Ends
      (from_ifindex libc 1 (invalid libc, tt))
      (λ _ s. s.0.ctx ≡ (invalid libc).ctx)
      (λ _ s. s.0.ctx ≡ (invalid libc).ctx)
from_ifindex-ctx_example = from_ifindex-ctx libc 1 (invalid libc) tt
