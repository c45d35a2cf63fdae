-- ===== src/User/Write/Stream.antt =====
-- A producer ring over time: user space goes through the stages of a writer of xsk/user.rs, batch
-- after batch, while the kernel takes entries between any two of its steps. One step is what user
-- space does between two accesses to what it shares with the kernel.
pub mod Stages
pub mod Kernel
pub mod Order
mod Tests
use xdpilone.Base.{
  ℕ, ◌≡◌, ◌≢◌, ◌≤◌, ◌⊎◌, ok, ◌>>=◌, Outcome, Profile, List, [], ◌++◌, take, All, wrapping_add,
}
use xdpilone.Memory.{Memory, Slot}
use xdpilone.Ring.{RingProd}
use xdpilone.Ring.Entries.{entries, IsInside}
use xdpilone.Ring.Prod.Inv.{given}
use xdpilone.User.Write.{Writer, start_write, insert, commit, drop_writer}

-- The kernel takes entries that it has been given, and moves its head behind them. Other memory may
-- change, but not the entries and not user space's head.
pub record Takes {A : Type 0} (slot : Slot A) (q : RingProd) (m m' : Memory) : Type 0 where
  pub count : ℕ
  pub at_most : count ≤ given m q
  pub moved : m' q.consumer ≡ wrapping_add (m q.consumer) count
  pub producer : m' q.producer ≡ m q.producer
  pub inside : (h : ℕ) → IsInside slot q.inner h → m' h ≡ m h

-- No writer is there, one into which the items have been inserted, or one that has committed: what an
-- insertion then does is the subject of User/Write/Again.
pub data Stage (A : Type 0) : Type 0 where
  idle : RingProd → Stage A
  open_writer : Writer → List A → Stage A
  spent_writer : Writer → Stage A

abbrev pub queue_of : {A : Type 0} → Stage A → RingProd
queue_of (idle q) = q
queue_of (open_writer w items) = w.queue
queue_of (spent_writer w) = w.queue

-- `committed`: all items that were inserted and committed. `taken`: all that the kernel has taken.
pub record Stream (A : Type 0) : Type 0 where
  pub memory : Memory
  pub stage : Stage A
  pub committed : List A
  pub taken : List A

module _ {A : Type 0} (slot : Slot A) (p : Profile) where
  pub data Step : Stream A → Stream A → Type 0 where
    -- `transmit` or `fill`
    start :
        (m : Memory) (q : RingProd) (c t : List A) (n : ℕ) (w : Writer)
        → start_write p m n q ≡ ok w
        → Step
            (record { memory = m; stage = idle q; committed = c; taken = t })
            (record { memory = m; stage = open_writer w []; committed = c; taken = t })
    -- `insert` or `insert_once`
    insert_items :
        (m : Memory) (w : Writer) (staged c t items : List A) (k : ℕ) (rest : List A) (m' : Memory)
        (w' : Writer)
        → All slot.IsValue items
        → insert slot p m w items ≡ ok (k, rest, m', w')
        → Step
            (record { memory = m; stage = open_writer w staged; committed = c; taken = t })
            (record {
              memory = m';
              stage = open_writer w' (staged ++ take k items);
              committed = c;
              taken = t;
            })
    -- `commit`
    commit_items :
        (m : Memory) (w : Writer) (staged c t : List A) (w' : Writer) (m' : Memory)
        → commit p m w ≡ ok (w', m')
        → Step
            (record { memory = m; stage = open_writer w staged; committed = c; taken = t })
            (record { memory = m'; stage = spent_writer w'; committed = c ++ staged; taken = t })
    -- The drop of a writer that has not committed.
    abandon :
        (m : Memory) (w : Writer) (staged c t : List A) (q : RingProd)
        → drop_writer p w ≡ ok q
        → Step
            (record { memory = m; stage = open_writer w staged; committed = c; taken = t })
            (record { memory = m; stage = idle q; committed = c; taken = t })
    -- The drop of a writer that has committed.
    drop_spent :
        (m : Memory) (w : Writer) (c t : List A) (q : RingProd)
        → drop_writer p w ≡ ok q
        → Step
            (record { memory = m; stage = spent_writer w; committed = c; taken = t })
            (record { memory = m; stage = idle q; committed = c; taken = t })
    -- The kernel, at any stage
    take_entries :
        (m : Memory) (s : Stage A) (c t : List A) (m' : Memory) (k : Takes slot (queue_of s) m m')
        → Step
            (record { memory = m; stage = s; committed = c; taken = t })
            (record {
              memory = m';
              stage = s;
              committed = c;
              taken = t ++ entries slot (queue_of s).inner m (m (queue_of s).consumer) k.count;
            })

  -- What can be reached from a stream, whatever the two sides do.
  pub data Reaches (s : Stream A) : Stream A → Type 0 where
    here : Reaches s s
    later : {t u : Stream A} → Reaches s t → Step t u → Reaches s u
