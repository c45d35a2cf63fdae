-- ===== src/Umem/Devices/Tests.antt =====
-- The device queues of a Umem over a small world that has nothing but mappings.
use xdpilone.Base.{
  ℕ, zero, suc, ◌<◌, ◌+◌, ◌-◌, ◌*◌, ◌≡◌, refl, ap, sym, true, false, [], ◌∷◌, some, none, Option,
  arith, release_profile,
}
use xdpilone.Sys.{pos, Libc, Ran, returned, failed, panicked, Buffer, Ends}
use xdpilone.Sys.Mappings.{Mappings, one_at}
use xdpilone.Umem.{Umem, default_config}
use xdpilone.Umem.Devices.{Socket, Host, fq_cq, DeviceQueue, drop_device}
use xdpilone.Umem.Devices.Control.{contains}
use xdpilone.Umem.Devices.Live.{IsDistinct, here}
use xdpilone.Ring.Map.{drop_prod}
use xdpilone.Umem.Devices.Claim.{
  fq_cq_lem, fq_cq-taken, drop_device-fq_cq, Claimed, Restored, Refused,
}
use xdpilone.Umem.Devices.Exclusive.{
  System, Reaches, start, step, claim, give_back, IsRegistered, Reaches-IsRegistered,
}
use xdpilone.Umem.Devices.Control.{insert}
use xdpilone.Iface.Info.{same_ctx}
use xdpilone.Umem.Devices.{build_device, configure_cq}
use xdpilone.Sys.{and_then}
use xdpilone.Iface.{set_from_fd}
use xdpilone.Ring.Map.{fill, map_ring, comp}
use xdpilone.Ring.{new}

-- The mappings, where the next goes, and how many more there may be.
pub record World : Type 0 where
  pub mapped : ℕ → ℕ → ℕ
  pub next : ℕ
  pub left : ℕ

abbrev map_at : ℕ → ℕ → World → Option ℕ × World
map_at zero len w = (none, w)
map_at (suc n) len w = (
  some (suc w.next),
  record {
    mapped = λ b l. w.mapped b l + one_at (suc w.next) len b l;
    next = suc w.next + len;
    left = n;
  },
)

abbrev pub libc : Libc World
libc = record {
  einval = 22;
  enoprotoopt = 92;
  af_xdp = 44;
  sock_raw = 3;
  sol_socket = 1;
  ifnamsiz = 16;
  msg_dontwait = 64;
  page_size = λ w. 4096;
  memory = λ w a. 0;
  errno = λ w. pos 12;
  socket = λ domain kind protocol w. (pos 3, w);
  close = λ fd w. w;
  setsockopt = λ fd level name value size w. (pos 0, w);
  getsockopt = λ fd level name buffer size w. (pos 0, buffer, size, w);
  mmap = λ len fd offset w. map_at w.left len w;
  munmap = λ a len w. record w { mapped = λ b l. w.mapped b l - one_at a len b l };
  poll = λ fd events time w. (pos 0, w);
  sendto = λ fd flags w. (pos 0, w);
  bind = λ fd addr size w. (pos 0, w);
  if_nametoindex = λ name w. (2, w);
  if_indextoname = λ index buffer w. (true, buffer, w);
}

abbrev pub world : ℕ → World
world left = record { mapped = λ b l. 0; next = 4095; left = left }

pub map_at-some :
    (n len : ℕ) (w w' : World) (a : ℕ)
    → map_at n len w ≡ (some a, w')
    → (0 < a) × ((b l : ℕ) → w'.mapped b l ≡ w.mapped b l + one_at a len b l)
map_at-some zero len w w' a h = ground (arith, ap (λ r. r.0) h)
map_at-some (suc n) len w w' a h = (
  ground (arith, ap (λ r. r.0) h),
  λ b l. ground (arith, ap (λ r. r.0) h, ap (λ r. r.1.mapped b l) h),
)

pub map_at-none :
    (n len : ℕ) (w w' : World)
    → map_at n len w ≡ (none, w')
    → (b l : ℕ) → w'.mapped b l ≡ w.mapped b l
map_at-none zero len w w' h b l = ap (λ r. r.1.mapped b l) (sym h)
map_at-none (suc n) len w w' h b l = ground (arith, ap (λ r. r.0) h)

abbrev pub mappings : Mappings libc
mappings = record {
  held = λ w. w.mapped;
  mmap_some = λ len fd offset w w' a. map_at-some w.left len w w' a;
  mmap_none = λ len fd offset w w'. map_at-none w.left len w w';
  munmap_lem = λ a len w b l. refl;
  setsockopt_lem = λ fd level name value size w w' err h b l. ap (λ r. r.1.mapped b l) (sym h);
  getsockopt_lem =
      λ fd level name buffer size w w' err reply n h b l. ap (λ r. r.3.mapped b l) (sym h);
}

abbrev pub umem : Umem
umem = record {
  umem_area = record { start = 8192; len = 14336 };
  config = default_config;
  fd = 3;
  devices = 0;
}

abbrev pub interface : ℕ → Socket
interface queue = record {
  info = record {
    ctx = record { ifindex = 2; queue_id = queue; netnscookie = 1 };
    ifname = 108 ∷ 111 ∷ 0 ∷ [];
  };
  fd = 4;
}

-- Queue 0 is taken already, and there is room for `left` mappings.
abbrev host : ℕ → Host World
host left = record { world = world left; sets = λ d. (interface 0).info.ctx ∷ [] }

abbrev pub init : Buffer
init i = 64 * i

-- A call that returns, two that run out of memory, and one for a taken queue.
abbrev ends_well : Ran (Host World) DeviceQueue → ℕ
ends_well (returned d h) = 0
ends_well (failed e h) = 1
ends_well panicked = 2

queue_free : contains (interface 1).info.ctx ((host 2).sets umem.devices) ≡ false
unfolding contains same_ctx
queue_free = refl

queue_taken : contains (interface 0).info.ctx ((host 2).sets umem.devices) ≡ true
unfolding contains same_ctx
queue_taken = refl

two_mappings : ends_well (fq_cq libc release_profile init umem (interface 1) (host 2)) ≡ 0
unfolding fq_cq insert contains same_ctx build_device and_then configure_cq set_from_fd fill
    map_ring new comp
two_mappings = refl

no_memory :
    (ends_well (fq_cq libc release_profile init umem (interface 1) (host 0)) ≡ 1)
    × (ends_well (fq_cq libc release_profile init umem (interface 1) (host 1)) ≡ 1)
    × (ends_well (fq_cq libc release_profile init umem (interface 0) (host 2)) ≡ 1)
unfolding fq_cq insert contains same_ctx build_device and_then configure_cq set_from_fd fill
    map_ring new comp drop_prod
no_memory = (refl, refl, refl)

fq_cq_lem_example :
    Ends
      (fq_cq libc release_profile init umem (interface 1) (host 2))
      (Claimed mappings umem (interface 1) (host 2))
      (λ _ h'. Restored mappings (host 2) h')
fq_cq_lem_example =
    fq_cq_lem mappings release_profile init refl refl umem (interface 1) (host 2) queue_free

fq_cq-taken_example :
    Ends
      (fq_cq libc release_profile init umem (interface 0) (host 2))
      (λ _ _. ⊥)
      (Refused libc (host 2))
fq_cq-taken_example = fq_cq-taken libc release_profile init umem (interface 0) (host 2) queue_taken

drop_device-fq_cq_example :
    Ends
      (fq_cq libc release_profile init umem (interface 1) (host 1))
      (λ d h'. Restored mappings (host 1) (drop_device libc d h'))
      (λ _ h'. Restored mappings (host 1) h')
drop_device-fq_cq_example =
    drop_device-fq_cq mappings release_profile init refl refl umem (interface 1) (host 1) queue_free

-- At the start no queue is taken.
abbrev pub start_host : Host World
start_host = record { world = world 2; sets = λ d. [] }

abbrev first : System World
first = record { host = start_host; live = [] }

first-IsRegistered : IsRegistered umem first
unfolding IsDistinct contains
first-IsRegistered = record { registered = λ c. refl; distinct = tt; devices = tt }

first_claim :
    (d : DeviceQueue) × (h : Host World) × (fq_cq libc release_profile init umem
        (interface 1)
        start_host
      ≡ returned d h)
unfolding fq_cq insert contains same_ctx build_device and_then configure_cq set_from_fd fill
    map_ring new comp
first_claim = (_, _, refl)

abbrev first_queue : DeviceQueue
first_queue = first_claim.0

abbrev second : System World
second = record { host = first_claim.1; live = first_queue ∷ [] }

abbrev third : System World
third = record { host = drop_device libc first_queue second.host; live = [] }

-- The queue is claimed and dropped.
third_reached : Reaches libc release_profile init umem first third
third_reached =
    step (step start (claim first (interface 1) first_queue first_claim.1 first_claim.2))
      (give_back second first_queue [] here)

Reaches-IsRegistered_example : IsRegistered umem third
Reaches-IsRegistered_example =
    Reaches-IsRegistered mappings release_profile init umem refl refl first-IsRegistered
      third_reached
