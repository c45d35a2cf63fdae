-- ===== src/FloodMt/Finish.antt =====
-- From every state that the threads of examples/flood-mt.rs reach, they can all come to their end.
use xdpilone.Base.{◌≡◌, length}
use xdpilone.FloodMt.{Threads}

-- The threads are always the same.
abbrev SameThreads : Threads → Threads → Type 0
SameThreads s t =
    (length t.senders ≡ length s.senders) × (length t.completers ≡ length s.completers)
