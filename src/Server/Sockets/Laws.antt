-- ===== src/Server/Sockets/Laws.antt =====
-- What every run of the server's calls keeps of the table.
pub mod Index
pub mod Small
pub mod Overflow
use cs.Base.{
  ℕ, ◌≡◌, List, [], ◌∷◌, Option, none, some, All, and_then, Bool-cases, inl, inr, is_negative,
  get_elem?,
}
use cs.Server.Tcb.{State, closed, listening, connected, closewait, Tcb, Run, ok, fault}
use cs.Server.Handler.Machine.{IfOk}
use cs.Server.Sockets.{
  Slot, null, live, Table, block_of, write_back, close_in, close_block, mrt_server_close,
  after_close, Event, on_event, on_events,
}

-- What each event keeps, a sequence of them keeps.
pub on_events-keeps :
    (P : Table → Type 0)
    → ((table : Table) (event : Event) → P table → IfOk P (on_event table event))
    → (r : Run Table) (events : List Event) → IfOk P r
    → IfOk P (on_events r events)
unfolding on_events
on_events-keeps P keeps fault events h = tt
on_events-keeps P keeps (ok table) [] h = h
on_events-keeps P keeps (ok table) (event ∷ events) h =
    on_events-keeps P keeps (on_event table event) events (keeps table event h)

close_block-keeps :
    (P : Table → Type 0) (table : Table) (r : Run Tcb)
    → P table
    → IfOk P (after_close (close_block table r))
unfolding close_block after_close
close_block-keeps P table fault h = tt
close_block-keeps P table (ok t) h = in_state t.state
  where
    in_state :
        (s : State) → IfOk P (after_close (and_then (close_in s) (λ done. Run.ok (table, done))))
    in_state closed = unfold close_in in tt
    in_state listening = unfold close_in in h
    in_state connected = unfold close_in in h
    in_state closewait = unfold close_in in h

-- mrt_server_close leaves the table as it is, or faults.
pub mrt_server_close-keeps :
    (P : Table → Type 0) (table : Table) (fd : ℕ)
    → P table
    → IfOk P (after_close (mrt_server_close table fd))
mrt_server_close-keeps P table fd h = elim (Bool-cases (is_negative fd)) [
  | inl e ↦ unfold mrt_server_close after_close in rw e h
  | inr e ↦
      unfold mrt_server_close in rw e (close_block-keeps P table (block_of (get_elem? table fd)) h)
]
