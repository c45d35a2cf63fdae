-- ===== src/Flood/Connect/Samples.antt =====
-- A system that maps one new area behind the other, for the tests of the examples.
use xdpilone.Base.{
  ℕ, ◌+◌, ◌<◌, ◌%◌, ◌^◌, ◌==◌, refl, arith, true, if◌then◌else◌, ltb, List, [], ◌∷◌, some,
}
use xdpilone.Sys.{pos, Libc, Buffer}
use xdpilone.Sys.Works.{Works, Answers, Carries}
use xdpilone.Iface.Info.{zeros}
use xdpilone.Ring.{Slice}
use xdpilone.Ring.Map.Fresh.{IsReported}
use xdpilone.Umem.{UmemChunk}
use xdpilone.Umem.Devices.{Host}
use xdpilone.Umem.Devices.Ready.{Reports}

-- Each ring has its heads and its flags below offset 128, where its entries begin.
abbrev pub reported : Buffer
reported i = if i % 4 == 0 then 0 else (if i % 4 == 1 then 64 else (if i % 4 == 2 then 128 else 68))

-- The index of an interface is the sum of its name's letters, and 1.
abbrev pub index_of : List ℕ → ℕ
index_of [] = 1
index_of (c ∷ name) = let rest = index_of name in rest + c

pub index_of-pos : (name : List ℕ) → 0 < index_of name
index_of-pos [] = omega arith
index_of-pos (c ∷ name) = omega (arith, index_of-pos name)

-- The world is the last address that is in use.
abbrev pub libc : Libc ℕ
libc = record {
  einval = 22;
  enoprotoopt = 92;
  af_xdp = 44;
  sock_raw = 3;
  sol_socket = 1;
  ifnamsiz = 16;
  msg_dontwait = 64;
  page_size = λ w. 4096;
  memory = λ w a. 0;
  errno = λ w. pos 12;
  socket = λ domain kind protocol w. (pos 3, w);
  close = λ fd w. w;
  setsockopt = λ fd level name value size w. (pos 0, w);
  getsockopt = λ fd level name buffer size w. (pos 0, reported, size, w);
  mmap = λ len fd offset w. (some (w + 1), w + 1 + len);
  munmap = λ a len w. w;
  poll = λ fd events time w. (pos 0, w);
  sendto = λ fd flags w. (pos 0, w);
  bind = λ fd addr size w. (pos 0, w);
  if_nametoindex = λ name w. (index_of name, w);
  if_indextoname = λ index buffer w. (true, buffer, w);
}

abbrev pub view : Works libc
view = record { kept = λ w x. ltb x (w + 1); flags_of = λ offset. 68 }

stays : (w : ℕ) → Carries view w w
stays w x h = (h, refl)

grows : (len w : ℕ) → Carries view w (w + 1 + len)
grows len w x h = (ground (arith, h), refl)

pub libc-Answers : Answers libc view
libc-Answers = record {
  socket_lem = λ domain kind protocol w. (3, refl, stays w);
  setsockopt_lem = λ fd level name value size w. (refl, stays w);
  getsockopt_lem = λ fd level name buffer size w. (refl, refl, stays w);
  bind_lem = λ fd addr size w. (refl, stays w);
  if_nametoindex_lem = λ name w. (omega (arith, index_of-pos name), stays w);
  mmap_lem = λ len fd offset w. (
    w + 1,
    refl,
    omega arith,
    λ x low high. (ground (arith, low), λ ne. (ground (arith, high), refl)),
    grows len w,
  );
}

ring-IsReported :
    (offset : ℕ)
    → IsReported view offset (record { producer = 0; consumer = 64; desc = 128; flags = 68 })
ring-IsReported offset = record {
  ordered = record {
    producer_below = omega arith;
    consumer_below = omega arith;
    heads_apart = omega arith;
  };
  flags = refl;
  flags_producer = omega arith;
  flags_consumer = omega arith;
  small = omega arith;
}

pub libc-Reports : Reports libc view
libc-Reports fd init w = record {
  fr = ring-IsReported _;
  cr = ring-IsReported _;
  tx = ring-IsReported _;
}

-- The umem of the example, 1 MB, and a system that has mapped nothing behind it.
abbrev pub area : Slice
area = record { start = 4096; len = 2 ^ 20 }

abbrev pub host : Host ℕ
host = record { world = 2 ^ 21; sets = λ d. [] }

abbrev pub bytes : UmemChunk → List ℕ
bytes chunk = zeros chunk.addr.len
