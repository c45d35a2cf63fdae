-- ===== src/Lib.antt =====
-- xdpilone, user space rings of AF_XDP sockets (src/): a model of the library and its correctness.
--
-- A program creates a Umem, an area of frames; for each device queue it owns a fill and a completion
-- ring, and for each socket a receive and a transmit ring. A ring is shared with the kernel: each side
-- moves one head. User space reserves (or peeks at) entries through a short-lived adapter, writes (or
-- reads) them, commits (or releases) them, and drops the adapter.
--
-- - Base: shared names, words, the panic monad `Outcome`, masks of powers of two. A `Profile` holds the
--   two switches on which plain arithmetic and debug_assert! depend.
-- - Memory: the shared memory as 32-bit words at 4-aligned byte addresses, and the interface `Slot` of
--   the types of entries. A u64 has its low word first, as on the little-endian targets. Relaxed,
--   acquire and release accesses are plain ones here: an operation with two loads takes the memory at
--   each, and the kernel may have moved between them.
-- - Xdp: src/xdp.rs, the descriptor and its representation, the offsets of a ring.
-- - Ring, Ring/Prod, Ring/Cons: src/xsk/ring.rs and the structs of src/xsk.rs. `new`, `count_free`,
--   `reserve`, `cancel`, `submit`, `count_available`, `peek`, `release` and so on keep their names.
--   Ring/Entries places the entries in memory; Ring/Prod/Inv and Ring/Cons/Inv have the invariants;
--   Ring/New and Ring/Overflow are about new rings and builds with overflow checks.
-- - User/Iter, User/Write, User/Read: src/xsk/user.rs. WriteFill and WriteTx are one `Writer`,
--   ReadComplete and ReadRx one `Reader`, whose operations take the `Slot` of the entries. An iterator
--   of items is the list of them; of an endless one, any prefix longer than the writer's capacity.
--   User/Write/Send and User/Read/Receive are whole batches as in examples/flood.rs; User/Write/Again
--   and User/Read/Again use an adapter beyond its first commit or release. User/Write/Stream and
--   User/Read/Stream have the steps of user space and of the kernel on one ring, over any number of
--   batches. User/Handle has the counts, flags, descriptors and wake-ups of the rings.
-- - Umem, Umem/Frames: the address arithmetic of src/xsk/umem.rs. An address is a number.
-- - Umem/Create: `Umem::new` of src/xsk/umem.rs, with its asserts, its two calls and what is dropped.
-- - Sys, Sys/Mappings, Sys/Descriptors, Sys/Works: src/lib.rs, and the calls of libc as a
--   parameter, a record `Libc` over a type of worlds. `Ran` is a Result with the world it leaves;
--   `Mappings` and `Descriptors` say what mmap and munmap, socket and close document; `Answers` of
--   Sys/Works is about a system where every call succeeds and new mappings hold 0. The modules
--   Ready and Ring/Map/Fresh follow the calls of the library on such a system. Kernel and libc
--   constants are fields of `Libc`. Sys/Message has the texts of errors.
-- - Iface, Iface/Info: src/xsk/iface.rs, with the structs of src/xdp.rs and src/xsk.rs that it fills.
--   Iface/Statistics reads the two layouts of the statistics, Iface/Offsets is about those of the
--   offsets.
-- - Ring/Map: XskRing::map, the four rings over it, and the drops that unmap.
-- - Umem/Devices: the set of taken device queues, `Umem::fq_cq` with the drops on its failure paths, and
--   the drop of a DeviceQueue, in src/xsk/umem.rs and src/xsk/user.rs. A `Host` is the world with the
--   set behind each DeviceControl. Umem/Devices/Exclusive has the steps of a Umem's device queues,
--   Umem/Devices/Concurrent those of threads within `fq_cq`.
-- - Socket: src/xsk/socket.rs. Umem/Bind: rx_tx, map_rx, map_tx and bind of src/xsk/umem.rs.
-- - Flood: examples/flood.rs. Flood/Setup has the options, the interface and the packet; `round` is the
--   body of the main loop and `flood` the loop. What the kernel does to the memory before, within and
--   after the batches is a parameter, a `Kernel`, which is told whether it was woken; Flood/Promise
--   says what is relied on of it. The table of batch sizes is a function. Flood/Connect has the calls
--   before the loop and `main`, whose loop has its own copy of the shared memory.
-- - FloodMt: examples/flood-mt.rs, its threads as steps from one access of a shared counter to the
--   next. The accesses are atomic; a relaxed load may give an earlier value of a counter that grows.
--   FloodMt/Setup collects the interfaces; FloodMt/Connect has the calls before the threads, whose
--   loops over lists are recursions on them (`around` is a list repeated without end, as far as it
--   is taken); FloodMt/Weight and FloodMt/Progress measure how far the threads are from the end.
-- - Samples and the modules Tests: concrete rings, tests, and the theorems at them.
--
-- Other loops recur on the list of items or on the number of reads. `flood` takes fuel, one unit for a
-- round: with a kernel that reports a packet within `bound` rounds, more than `bound` times the packets
-- to be sent and to be completed, and the kernel's rank, is enough (`distance` in Flood/Round).
-- Not modelled: the reference counts of Arc, the state after a panic, the casts of slices between u32
-- and BufIdx, output and its measurements, and of flood-mt.rs the statistics.
pub mod Base
pub mod Memory
pub mod Xdp
pub mod Ring
pub mod User
pub mod Umem
mod Samples
pub mod Sys
pub mod Iface
pub mod Socket
pub mod Flood
pub mod FloodMt
