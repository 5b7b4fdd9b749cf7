-- ===== src/Lab2/Server/Lookup.antt =====
-- Which block seghandler of lab2's server changes.
use cs.Base.{ℕ, ◌≡◌, List, Option, none, some, Run, get_elem?}
use cs.Server.Tcb.{Tcb}
use cs.Server.Handler.Machine.{IfOk}
use cs.Lab2.Server.{Slot, live, Output, Loop}

-- What fetch_TCB finds has the port.
abbrev Found : ℕ → List Slot → Option (ℕ × Tcb) → Type 0
Found port table none = Unit
Found port table (some (i, t)) = (get_elem? table i ≡ some (live t)) × (t.svr_port ≡ port)

-- The entry of another block stays.
abbrev Keeps : ℕ → Tcb → Run (Loop × List Output) → Type 0
Keeps j u r = IfOk (λ q. get_elem? q.0.table j ≡ some (live u)) r
