-- ===== src/Server/Sockets.antt =====
-- lab4/server/mrt_server.c: the table of sockets, and the calls of the application and of the
-- threads that go through it.
pub mod Laws
use cs.Base.{
  ℕ, zero, suc, ◌+◌, List, [], ◌∷◌, ◌++◌, Bool, true, false, ◌&&◌, ◌==◌, ltb, if◌then◌else◌, length,
  set, get_elem?, Option, none, some, replicate, take, is_negative, and_then,
}
use cs.Wire.Layout.{Segment}
use cs.Server.Tcb.{
  State, closed, listening, connected, closewait, Tcb, Run, ok, fault, Recv, sleeps, copied,
  refused, mrt_server_recv, end_closewait,
}
use cs.Server.Handler.{Output, on_segment}

-- An entry of p_server_tcb_table: NULL, or a pointer to a block.
pub data Slot : Type 0 where
  null : Slot
  live : Tcb → Slot

abbrev pub Table : Type 0
Table = List Slot

-- MAX_TRANSPORT_CONNECTIONS
abbrev pub max_connections : ℕ
max_connections = 10

-- The loop of mrt_server_init.
unfoldable pub mrt_server_init : Table
mrt_server_init = replicate max_connections null

-- The rest of a loop over the table, one entry further on.
unfoldable pub later : Slot → Option (ℕ × Table) → Option (ℕ × Table)
later slot none = none
later slot (some (i, slots)) = some (suc i, slot ∷ slots)

-- create_TCB_table: the index of the first NULL entry, and the table with `block` there. `none` is
-- -1.
unfoldable pub create_tcb_table : Tcb → Table → Option (ℕ × Table)
create_tcb_table block [] = none
create_tcb_table block (null ∷ slots) = some (0, live block ∷ slots)
create_tcb_table block (live t ∷ slots) = later (live t) (create_tcb_table block slots)

-- sizeof(RECEIVE_BUF_SIZE), the size of an int.
abbrev pub sizeof_receive_buf_size : ℕ
sizeof_receive_buf_size = 4

-- mrt_server_sock. `block` and `memory` are what the two blocks that malloc hands out hold; `node`
-- is what topology_getMyNodeID returns.
unfoldable pub mrt_server_sock : ℕ → Tcb → List ℕ → ℕ → Table → Option (ℕ × Table)
mrt_server_sock node block memory port table =
    let opened = record block {
      svr_port = port;
      state = closed;
      svr_node = node;
      used_buf_len = 0;
      recv_buf = take sizeof_receive_buf_size memory;
    } in
    create_tcb_table opened table

-- p_server_tcb_table[fd], read through.
unfoldable pub block_of : Option Slot → Run Tcb
block_of none = fault
block_of (some null) = fault
block_of (some (live t)) = ok t

-- The switch of mrt_server_accept, up to its wait for the state SVR_CONNECTED. `none` is -1.
unfoldable pub accept_from : State → Tcb → Option Tcb
accept_from closed t = some (record t { state = listening })
accept_from listening t = none
accept_from connected t = none
accept_from closewait t = none

-- What a call writes back to the block at `fd`.
unfoldable pub write_back : ℕ → Table → Run (Option Tcb) → Run Table
write_back fd table fault = fault
write_back fd table (ok none) = ok table
write_back fd table (ok (some t)) = ok (set table fd (live t))

-- mrt_server_accept, of the block at its socket.
unfoldable pub mrt_server_accept : Run Tcb → Run (Option Tcb)
mrt_server_accept fault = fault
mrt_server_accept (ok t) = ok (accept_from t.state t)

-- What mrt_server_recv leaves in the block: nothing, if it sleeps or refuses.
unfoldable pub left_by : Run Recv → Run (Option Tcb)
left_by fault = fault
left_by (ok sleeps) = ok none
left_by (ok refused) = ok none
left_by (ok (copied bytes t)) = ok (some t)

unfoldable pub recv_at : ℕ → Run Tcb → Run (Option Tcb)
recv_at n fault = fault
recv_at n (ok t) = left_by (mrt_server_recv t.state t n)

-- mrt_server_close in each state. Where it frees the block, it writes to it afterwards.
unfoldable pub close_in : State → Run Bool
close_in closed = fault
close_in listening = ok false
close_in connected = ok false
close_in closewait = ok false

unfoldable pub close_block : Table → Run Tcb → Run (Table × Bool)
close_block table fault = fault
close_block table (ok t) = and_then (close_in t.state) (λ done. ok (table, done))

-- mrt_server_close: `true` is 1, `false` is -1. It sets its own variable to NULL, not the entry.
unfoldable pub mrt_server_close : Table → ℕ → Run (Table × Bool)
mrt_server_close table fd =
    if is_negative fd then ok (table, false) else close_block table (block_of (get_elem? table fd))

unfoldable pub counted : Option (ℕ × Tcb) → Option (ℕ × Tcb)
counted none = none
counted (some (i, t)) = some (suc i, t)

-- fetch_server_TCB, with the index in the table. `none` is NULL.
unfoldable pub fetch_server_tcb : ℕ → Table → Option (ℕ × Tcb)
fetch_server_tcb port [] = none
fetch_server_tcb port (null ∷ slots) = counted (fetch_server_tcb port slots)
fetch_server_tcb port (live t ∷ slots) =
    let rest = counted (fetch_server_tcb port slots) in
    if t.svr_port == port then some (0, t) else rest

unfoldable pub store : Table → ℕ → Run (Tcb × List Output) → Run (Table × List Output)
store table fd fault = fault
store table fd (ok (t, out)) = ok (set table fd (live t), out)

unfoldable pub handle_at : Table → ℕ → Segment → Option (ℕ × Tcb) → Run (Table × List Output)
handle_at table src seg none = fault
handle_at table src seg (some (fd, t)) = store table fd (on_segment t.state t src seg)

-- One round of seghandler, for a segment from the node `src`.
unfoldable pub seghandler : Table → ℕ → Segment → Run (Table × List Output)
seghandler table src seg = handle_at table src seg (fetch_server_tcb seg.header.dest_port table)

-- The thread closewait, which runs only while its block is in SVR_CLOSEWAIT.
unfoldable pub closewait_in : State → Tcb → Option Tcb
closewait_in closewait t = some (end_closewait t)
closewait_in closed t = none
closewait_in listening t = none
closewait_in connected t = none

unfoldable pub closewait_at : Run Tcb → Run (Option Tcb)
closewait_at fault = fault
closewait_at (ok t) = ok (closewait_in t.state t)

-- What happens to the table: a call of the application, a segment from the network, or the end of
-- a second in SVR_CLOSEWAIT.
pub data Event : Type 0 where
  sock : ℕ → Tcb → List ℕ → ℕ → Event
  accept : ℕ → Event
  recv : ℕ → ℕ → Event
  arrive : ℕ → Segment → Event
  wait_over : ℕ → Event
  close : ℕ → Event

-- The table that a call of mrt_server_sock leaves.
unfoldable pub after_sock : Table → Option (ℕ × Table) → Table
after_sock table none = table
after_sock table (some (fd, table')) = table'

unfoldable pub after_segment : Run (Table × List Output) → Run Table
after_segment fault = fault
after_segment (ok (table, out)) = ok table

unfoldable pub after_close : Run (Table × Bool) → Run Table
after_close fault = fault
after_close (ok (table, done)) = ok table

unfoldable pub on_event : Table → Event → Run Table
on_event table (sock node block memory port) =
    ok (after_sock table (mrt_server_sock node block memory port table))
on_event table (accept fd) = write_back fd table (mrt_server_accept (block_of (get_elem? table fd)))
on_event table (recv fd n) = write_back fd table (recv_at n (block_of (get_elem? table fd)))
on_event table (arrive src seg) = after_segment (seghandler table src seg)
on_event table (wait_over fd) = write_back fd table (closewait_at (block_of (get_elem? table fd)))
on_event table (close fd) = after_close (mrt_server_close table fd)

-- A sequence of events, up to the first fault.
unfoldable pub on_events : Run Table → List Event → Run Table
on_events fault events = fault
on_events (ok table) [] = ok table
on_events (ok table) (event ∷ events) = on_events (on_event table event) events
