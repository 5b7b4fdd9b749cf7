-- ===== src/Client/Sockets.antt =====
-- lab4/client/mrt_client.c: the table of sockets, mrt_client_connect, mrt_client_disconnect and
-- mrt_client_close, and the thread sendingBuffer_timer.
pub mod Connect
pub mod Disconnect
pub mod Table
pub mod Timer
use cs.Base.{
  ℕ, zero, suc, ◌+◌, List, [], ◌∷◌, Bool, true, false, not, ◌&&◌, ◌==◌, ltb, if◌then◌else◌, set,
  get_elem?, Option, none, some, replicate, minus_one, Run, ok, fault, and_then,
}
use cs.Wire.Layout.{Segment, syn, fin, control_segment}
use cs.Client.Buffer.{
  SegBuf, SendBuffer, Output, null, ClientState, closed, synsent, connected, finwait,
  sendbuffer_destroy, sendbuffer_timeout,
}
use cs.Client.Handler.{ClientTcb, seghandler_rounds}

-- An entry of p_client_tcb_table: NULL, or a pointer to a block, with its client_portNum.
pub data Slot : Type 0 where
  free : Slot
  live : ℕ → ClientTcb → Slot

abbrev pub Sockets : Type 0
Sockets = List Slot

-- The loop of mrt_client_init.
unfoldable pub mrt_client_init : Sockets
mrt_client_init = replicate 10 free

-- The rest of a loop over the table, one entry further on.
unfoldable pub later : Slot → Option (ℕ × Sockets) → Option (ℕ × Sockets)
later slot none = none
later slot (some (i, slots)) = some (suc i, slot ∷ slots)

-- create_TCB_table: the index of the first NULL entry, and the table with a block there. `none` is
-- -1.
unfoldable pub create_tcb_table : ℕ → ClientTcb → Sockets → Option (ℕ × Sockets)
create_tcb_table port block [] = none
create_tcb_table port block (free ∷ slots) = some (0, live port block ∷ slots)
create_tcb_table port block (live p t ∷ slots) =
    later (live p t) (create_tcb_table port block slots)

-- The block that mrt_client_sock initializes; svr_portNum keeps what the memory held.
unfoldable pub fresh_block : ClientTcb → ClientTcb
fresh_block memory = record {
  svr_node = minus_one;
  svr_port = memory.svr_port;
  state = closed;
  buffer = record { next_seq = 0; chain = []; tail_set = false; unsent = null; unack = 0 };
}

unfoldable pub mrt_client_sock : ℕ → ClientTcb → Sockets → Option (ℕ × Sockets)
mrt_client_sock port memory table = create_tcb_table port (fresh_block memory) table

-- fetch_client_TCB: the index of the first block with this client_portNum
unfoldable pub fetch_client_tcb : ℕ → ℕ → Sockets → Option ℕ
fetch_client_tcb port i [] = none
fetch_client_tcb port i (free ∷ slots) = fetch_client_tcb port (suc i) slots
fetch_client_tcb port i (live p t ∷ slots) =
    if p == port then some i else fetch_client_tcb port (suc i) slots

-- What a call returns and leaves in its block, and the segments it has sent, with their nodes.
abbrev pub Called : Type 0
Called = Run (ℕ × (ClientTcb × List (ℕ × Segment)))

-- mrt_client_connect after its wait: the body of its loop ends in a `break`, so there is one round.
unfoldable pub after_wait :
    ClientState → ClientTcb → ℕ → Segment → ℕ × (ClientTcb × List (ℕ × Segment))
after_wait connected t node seg = (1, (t, (node, seg) ∷ []))
after_wait closed t node seg = (minus_one, (t, (node, seg) ∷ (t.svr_node, seg) ∷ []))
after_wait synsent t node seg = (minus_one, (t, (node, seg) ∷ (t.svr_node, seg) ∷ []))
after_wait finwait t node seg = (minus_one, (t, (node, seg) ∷ (t.svr_node, seg) ∷ []))

-- A block that is connecting to a server.
unfoldable pub dialling : ClientTcb → ℕ → ℕ → ClientTcb
dialling t node port = record t { svr_node = node; svr_port = port; state = synsent }

-- The `switch` of mrt_client_connect; `segs` are the segments that seghandler handles in the wait.
unfoldable pub connect_from :
    (ℕ → ℕ → ℕ) → List (ℕ × Segment) → ClientState → ℕ → ClientTcb → ℕ → ℕ → Called
connect_from clock segs closed client_port t node port =
    and_then (seghandler_rounds clock 0 (dialling t node port) segs)
      (λ u. ok (after_wait u.state u node (control_segment syn client_port port 0)))
connect_from clock segs synsent client_port t node port = ok (minus_one, (t, []))
connect_from clock segs connected client_port t node port = ok (minus_one, (t, []))
connect_from clock segs finwait client_port t node port = ok (minus_one, (t, []))

-- FIN_MAX_RETRY
abbrev pub fin_max_retry : ℕ
fin_max_retry = 5

-- What mrt_client_disconnect resets when the connection is closed.
unfoldable pub reset : ClientTcb → ClientTcb
reset t = record {
  svr_node = minus_one;
  svr_port = 0;
  state = t.state;
  buffer = sendbuffer_destroy (record t.buffer { next_seq = 0 });
}

unfoldable pub is_closed : ClientState → Bool
is_closed closed = true
is_closed synsent = false
is_closed connected = false
is_closed finwait = false

-- The loop of mrt_client_disconnect with `n` rounds left, after the FINs in `sent`; `segs i` are the
-- segments that come in the wait of round `i`.
unfoldable pub fin_rounds :
    (ℕ → ℕ → ℕ)
    → (ℕ → List (ℕ × Segment))
    → Segment
    → ℕ
    → ℕ
    → ClientTcb
    → List (ℕ × Segment)
    → Called
fin_rounds clock segs seg zero i t sent = ok (minus_one, (record t { state = closed }, sent))
fin_rounds clock segs seg (suc n) i t sent = and_then (seghandler_rounds clock 0 t (segs i)) (λ u.
    if is_closed u.state
    then ok (1, (reset u, sent))
    else fin_rounds clock segs seg n (suc i) u ((u.svr_node, seg) ∷ sent))

-- The `switch` of mrt_client_disconnect.
unfoldable pub disconnect_from :
    (ℕ → ℕ → ℕ) → (ℕ → List (ℕ × Segment)) → ClientState → ℕ → ClientTcb → Called
disconnect_from clock segs connected client_port t =
    let seg = control_segment fin client_port t.svr_port 0 in
    fin_rounds clock segs seg fin_max_retry 0 (record t { state = finwait })
      ((t.svr_node, seg) ∷ [])
disconnect_from clock segs closed client_port t = ok (minus_one, (t, []))
disconnect_from clock segs synsent client_port t = ok (minus_one, (t, []))
disconnect_from clock segs finwait client_port t = ok (minus_one, (t, []))

-- What a call writes back to the table.
unfoldable pub write_back : ℕ → ℕ → Sockets → Called → Run (ℕ × (Sockets × List (ℕ × Segment)))
write_back fd port table fault = fault
write_back fd port table (ok (value, (t, sent))) = ok (value, (set table fd (live port t), sent))

-- mrt_client_connect, of the entry at its socket; no other call looks for NULL.
unfoldable pub mrt_client_connect :
    (ℕ → ℕ → ℕ)
    → List (ℕ × Segment)
    → ℕ
    → ℕ
    → ℕ
    → Sockets
    → Option Slot
    → Run (ℕ × (Sockets × List (ℕ × Segment)))
mrt_client_connect clock segs fd node port table none = fault
mrt_client_connect clock segs fd node port table (some free) = ok (minus_one, (table, []))
mrt_client_connect clock segs fd node port table (some (live p t)) =
    write_back fd p table (connect_from clock segs t.state p t node port)

unfoldable pub mrt_client_disconnect :
    (ℕ → ℕ → ℕ)
    → (ℕ → List (ℕ × Segment))
    → ℕ
    → Sockets
    → Option Slot
    → Run (ℕ × (Sockets × List (ℕ × Segment)))
mrt_client_disconnect clock segs fd table none = fault
mrt_client_disconnect clock segs fd table (some free) = fault
mrt_client_disconnect clock segs fd table (some (live p t)) =
    write_back fd p table (disconnect_from clock segs t.state p t)

-- mrt_client_close: the value, and the table.
unfoldable pub mrt_client_close : ℕ → Sockets → Option Slot → Run (ℕ × Sockets)
mrt_client_close fd table none = fault
mrt_client_close fd table (some free) = fault
mrt_client_close fd table (some (live p t)) =
    if is_closed t.state then ok (1, set table fd free) else ok (minus_one, table)

-- DATA_TIMEOUT
abbrev pub data_timeout : ℕ
data_timeout = 100000

-- What a round of sendingBuffer_timer does when segments are unacknowledged; `now` is the time in
-- microseconds, a `long`.
unfoldable pub check_head :
    (ℕ → ℕ) → ℕ → SendBuffer → List SegBuf → Run (Option (SendBuffer × List Output))
check_head clock now b [] = fault
check_head clock now b (n ∷ ns) =
    if ltb 0 n.sent_time && ltb (n.sent_time + data_timeout) now
    then and_then (sendbuffer_timeout clock b) (λ r. ok (some r))
    else ok (some (b, []))

-- A round of sendingBuffer_timer; `none` is the end of the thread.
unfoldable pub timer_round : (ℕ → ℕ) → ℕ → SendBuffer → Run (Option (SendBuffer × List Output))
timer_round clock now b = if b.unack == 0 then ok none else check_head clock now b b.chain
