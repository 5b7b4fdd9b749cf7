-- ===== src/Transport/Refinement.antt =====
-- A connection of lab4 against what it is for: a pipe of bytes, first in, first out.
use cs.Base.{ℕ, ◌≤◌, List, ◌++◌, length, take, drop}
use cs.Server.Tcb.{Tcb}
use cs.Client.Handler as Client
use cs.Transport.System.{System}

-- The bytes that are in the pipe, and those that have come out of it.
pub record Pipe : Type 0 where
  pub waiting : List ℕ
  pub delivered : List ℕ

-- Bytes go in at the end, and come out at the front.
pub data Flow (p : Pipe) : Pipe → Type 0 where
  still : Flow p p
  put : {q : Pipe} (bytes : List ℕ) → Flow p q → Flow p (record q { waiting = q.waiting ++ bytes })
  take_out :
      {q : Pipe} (n : ℕ)
      → n ≤ length q.waiting
      → Flow p q
      → Flow p (record { waiting = drop n q.waiting; delivered = q.delivered ++ take n q.waiting })

-- What a connection is as a pipe.
abbrev pub view : System → Pipe
view s = record { waiting = drop (length s.got) s.kept; delivered = s.got }
