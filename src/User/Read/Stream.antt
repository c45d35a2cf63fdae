-- ===== src/User/Read/Stream.antt =====
-- A consumer ring over time: user space goes through the stages of a reader of xsk/user.rs, batch
-- after batch, while the kernel puts entries into the ring between any two of its steps, and between
-- the two loads with which a reader starts.
pub mod Stages
pub mod Moves
pub mod Order
mod Tests
use xdpilone.Base.{
  ℕ, ◌+◌, ◌≡◌, ◌≤◌, ok, ◌>>=◌, Outcome, Profile, List, [], ◌∷◌, ◌++◌, wrapping_add, some, Option,
}
use xdpilone.Memory.{Memory, Slot}
use xdpilone.Ring.{RingCons}
use xdpilone.Ring.Entries.{entries}
use xdpilone.Ring.Cons.Inv.{produced}
use xdpilone.User.Read.{Reader, start_read, read, release_read, drop_reader}
use xdpilone.User.Read.Batch.{waiting}

-- The kernel puts entries behind those that wait, where there is room, and leaves those and user
-- space's head alone.
pub record Puts {A : Type 0} (slot : Slot A) (q : RingCons) (m m' : Memory) : Type 0 where
  pub count : ℕ
  pub room : produced m q + count ≤ q.size
  pub moved : m' q.producer ≡ wrapping_add (m q.producer) count
  pub consumer : m' q.consumer ≡ m q.consumer
  pub kept : entries slot q.inner m' (m q.consumer) (produced m q) ≡ waiting slot m q

-- The entries that it has put.
abbrev pub added : {A : Type 0} (slot : Slot A) (q : RingCons) (m m' : Memory) → ℕ → List A
added slot q m m' count = entries slot q.inner m' (m q.producer) count

-- No reader is there, one from which the items have been read, or one that has released: what a read
-- then does is the subject of User/Read/Again.
pub data Stage (A : Type 0) : Type 0 where
  idle : RingCons → Stage A
  open_reader : Reader → List A → Stage A
  spent_reader : Reader → Stage A

abbrev pub queue_of : {A : Type 0} → Stage A → RingCons
queue_of (idle q) = q
queue_of (open_reader r items) = r.queue
queue_of (spent_reader r) = r.queue

-- `put`: all that the kernel has put into the ring. `released`: all items that were read and released.
pub record Stream (A : Type 0) : Type 0 where
  pub memory : Memory
  pub stage : Stage A
  pub put : List A
  pub released : List A

module _ {A : Type 0} (slot : Slot A) (p : Profile) where
  pub data Step : Stream A → Stream A → Type 0 where
    -- `receive` or `complete`, with the kernel's work between its loads
    start :
        (m m' : Memory) (q : RingCons) (c t : List A) (n : ℕ) (r : Reader) (k : Puts slot q m m')
        → start_read p m m' n q ≡ ok r
        → Step
            (record { memory = m; stage = idle q; put = c; released = t })
            (record {
              memory = m';
              stage = open_reader r [];
              put = c ++ added slot q m m' k.count;
              released = t;
            })
    -- `read`
    read_item :
        (m : Memory) (r : Reader) (items c t : List A) (x : A) (r' : Reader)
        → read slot m r ≡ some (x, r')
        → Step
            (record { memory = m; stage = open_reader r items; put = c; released = t })
            (record {
              memory = m;
              stage = open_reader r' (items ++ (x ∷ []));
              put = c;
              released = t;
            })
    -- `release`
    release_items :
        (m : Memory) (r : Reader) (items c t : List A) (r' : Reader) (m' : Memory)
        → release_read p m r ≡ ok (r', m')
        → Step
            (record { memory = m; stage = open_reader r items; put = c; released = t })
            (record { memory = m'; stage = spent_reader r'; put = c; released = t ++ items })
    -- The drop of a reader that has not released.
    abandon :
        (m : Memory) (r : Reader) (items c t : List A) (q : RingCons)
        → drop_reader p r ≡ ok q
        → Step
            (record { memory = m; stage = open_reader r items; put = c; released = t })
            (record { memory = m; stage = idle q; put = c; released = t })
    -- The drop of a reader that has released.
    drop_spent :
        (m : Memory) (r : Reader) (c t : List A) (q : RingCons)
        → drop_reader p r ≡ ok q
        → Step
            (record { memory = m; stage = spent_reader r; put = c; released = t })
            (record { memory = m; stage = idle q; put = c; released = t })
    -- The kernel, at any stage
    put_entries :
        (m : Memory) (s : Stage A) (c t : List A) (m' : Memory) (k : Puts slot (queue_of s) m m')
        → Step
            (record { memory = m; stage = s; put = c; released = t })
            (record {
              memory = m';
              stage = s;
              put = c ++ added slot (queue_of s) m m' k.count;
              released = t;
            })

  -- What can be reached from a stream, whatever the two sides do.
  pub data Reaches (s : Stream A) : Stream A → Type 0 where
    here : Reaches s s
    later : {t u : Stream A} → Reaches s t → Step t u → Reaches s u
