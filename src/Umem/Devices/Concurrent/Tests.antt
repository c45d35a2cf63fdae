-- ===== src/Umem/Devices/Concurrent/Tests.antt =====
-- Two threads that call `fq_cq` for the same context at the same time.
use xdpilone.Base.{◌≡◌, refl, List, [], ◌∷◌, release_profile}
use xdpilone.Sys.{returned, and_then}
use xdpilone.Iface.{set_from_fd}
use xdpilone.Iface.Info.{IfCtx, same_ctx}
use xdpilone.Ring.{new}
use xdpilone.Ring.Map.{fill, map_ring, comp}
use xdpilone.Umem.Devices.{DeviceQueue, build_device, configure_cq, set_at, drop_device}
use xdpilone.Umem.Devices.Control.{contains, insert}
use xdpilone.Umem.Devices.Live.{IsDistinct, here}
use xdpilone.Umem.Devices.Concurrent.{
  Shared, building, queue, Reaches, start, step, claim, refuse, finish, give_back, IsExclusive,
  Reaches-IsExclusive,
}
use xdpilone.Umem.Devices.Tests.{World, libc, world, mappings, umem, interface, init, start_host}

-- Two threads race for the same context: the first builds its queue and drops it.
first_build :
    (d : DeviceQueue) × (w : World) × (build_device libc release_profile init umem
        (interface 1)
        (world 2)
      ≡ returned d w)
unfolding build_device and_then configure_cq set_from_fd fill map_ring new comp
first_build = (_, _, refl)

abbrev built : DeviceQueue
built = first_build.0

abbrev idle : Shared World
idle = record { host = start_host; claims = [] }

idle-IsExclusive : IsExclusive umem idle
unfolding IsDistinct contains
idle-IsExclusive = record { registered = λ c. refl; distinct = tt; devices = tt }

abbrev one_ctx : List IfCtx
one_ctx = (interface 1).info.ctx ∷ []

abbrev raced : Shared World
raced = record {
  host = record start_host { sets = set_at start_host.sets umem.devices one_ctx };
  claims = building (interface 1) ∷ [];
}

abbrev lost : Shared World
lost = record raced {
  host = record raced.host { sets = set_at raced.host.sets umem.devices one_ctx };
}

abbrev done_building : Shared World
done_building = record lost { claims = queue built ∷ [] }

abbrev dropped : Shared World
dropped = record { host = drop_device libc built done_building.host; claims = [] }

dropped_reached : Reaches libc release_profile init umem idle dropped
unfolding insert contains same_ctx
dropped_reached =
    step
      (step
        (step (step start (claim idle (interface 1) one_ctx refl))
          (refuse raced (interface 1) one_ctx refl))
        (finish lost (interface 1) [] (world 2) first_build.1 built here first_build.2))
      (give_back done_building built [] here)

Reaches-IsExclusive_example : IsExclusive umem dropped
Reaches-IsExclusive_example =
    Reaches-IsExclusive mappings release_profile init umem refl refl idle-IsExclusive
      dropped_reached
