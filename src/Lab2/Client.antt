-- ===== src/Lab2/Client.antt =====
-- lab2/client/mrt_client.c: the table of sockets, connect, disconnect and close, and the thread
-- seghandler. Its block has the fields and states of lab4's.
pub mod Calls
pub mod Send
use cs.Base.{
  ℕ, zero, suc, ◌+◌, List, [], ◌∷◌, Bool, true, false, ◌&&◌, ◌||◌, ◌==◌, ltb, is_negative,
  if◌then◌else◌, set, get_elem?, Option, none, some, replicate, minus_one, Run, ok, fault, and_then,
}
use cs.Wire.Layout.{Segment, syn, synack, finack, dataack}
use cs.Client.Buffer.{
  SegBuf, SendBuffer, null, ClientState, closed, synsent, connected, finwait, last_seq,
}
use cs.Client.Handler.{ClientTcb}

-- An entry of p_client_tcb_table: NULL, a pointer to a block, with its client_portNum, or one to a
-- block that was freed.
pub data Slot : Type 0 where
  empty : Slot
  live : ℕ → ClientTcb → Slot
  freed : Slot

unfoldable pub mrt_client_init : List Slot
mrt_client_init = replicate 10 empty

-- The loop of mrt_client_sock, one entry further on.
unfoldable pub later : Slot → Option (ℕ × List Slot) → Option (ℕ × List Slot)
later slot none = none
later slot (some (i, slots)) = some (suc i, slot ∷ slots)

-- mrt_client_sock; `memory` is what malloc gives. `none` is -1.
unfoldable pub mrt_client_sock : ClientTcb → ℕ → List Slot → Option (ℕ × List Slot)
mrt_client_sock memory port [] = none
mrt_client_sock memory port (empty ∷ slots) = some (
  0,
  live port (record memory {
    state = closed;
    buffer = record { next_seq = 0; chain = []; tail_set = false; unsent = null; unack = 0 };
  })
      ∷ slots,
)
mrt_client_sock memory port (live p t ∷ slots) =
    later (live p t) (mrt_client_sock memory port slots)
mrt_client_sock memory port (freed ∷ slots) = later freed (mrt_client_sock memory port slots)

unfoldable pub is_connected : ClientState → Bool
is_connected connected = true
is_connected closed = false
is_connected synsent = false
is_connected finwait = false

-- The SYN of mrt_client_connect, in memory that is not cleared.
unfoldable pub syn_over : Segment → ℕ → ℕ → Segment
syn_over memory port server_port = record memory {
  header = record memory.header {
    length = 0;
    type = syn;
    src_port = port;
    dest_port = server_port;
    seq_num = 0;
  };
}

-- The loop of mrt_client_connect with `n` rounds left: the segments it sends. `states i` is the state
-- that the block has in round `i`, which seghandler may have changed.
unfoldable pub syn_rounds : (ℕ → ClientState) → Segment → ℕ → ℕ → List Segment
syn_rounds states seg zero i = []
syn_rounds states seg (suc n) i =
    let rest = syn_rounds states seg n (suc i) in
    if is_connected (states i) then seg ∷ [] else seg ∷ rest

-- mrt_client_connect of the entry at its socket; it does not wait between its rounds. `last` is the
-- state that seghandler has left when it returns.
unfoldable pub connect_at :
    (ℕ → ClientState)
    → ClientState
    → Segment
    → ℕ
    → ℕ
    → List Slot
    → Option Slot
    → Run (ℕ × (List Slot × List Segment))
connect_at states last memory fd server_port table none = fault
connect_at states last memory fd server_port table (some empty) = fault
connect_at states last memory fd server_port table (some freed) = fault
connect_at states last memory fd server_port table (some (live p t)) =
    let seg = syn_over memory p server_port in
    ok (
      1,
      (
        set table fd (live p (record t { svr_port = server_port; state = last })),
        seg ∷ syn_rounds states seg 5 0,
      ),
    )

-- The test of the socket lets 10 through, which is past the table.
unfoldable pub mrt_client_connect :
    (ℕ → ClientState)
    → ClientState
    → Segment
    → ℕ
    → ℕ
    → List Slot
    → Run (ℕ × (List Slot × List Segment))
mrt_client_connect states last memory fd server_port table =
    if ltb 10 fd || is_negative fd
    then ok (minus_one, (table, []))
    else connect_at states last memory fd server_port table (get_elem? table fd)

-- mrt_client_disconnect of the entry at its socket: it fills in a FIN that it does not send, and frees
-- the buffer.
unfoldable pub mrt_client_disconnect : ℕ → List Slot → Option Slot → Run (ℕ × List Slot)
mrt_client_disconnect fd table none = fault
mrt_client_disconnect fd table (some empty) = fault
mrt_client_disconnect fd table (some freed) = fault
mrt_client_disconnect fd table (some (live p t)) = ok (
  1,
  set table fd (
      live p (record t {
        state = closed;
        buffer = record t.buffer { chain = []; tail_set = false; unsent = null; unack = 0 };
      })),
)

unfoldable pub close_in : ClientState → ℕ → List Slot → ℕ × List Slot
close_in closed fd table = (1, set table fd freed)
close_in synsent fd table = (minus_one, table)
close_in connected fd table = (minus_one, table)
close_in finwait fd table = (minus_one, table)

-- mrt_client_close of the entry at its socket: only its own variable is set to NULL.
unfoldable pub mrt_client_close : ℕ → List Slot → Option Slot → Run (ℕ × List Slot)
mrt_client_close fd table none = fault
mrt_client_close fd table (some empty) = fault
mrt_client_close fd table (some freed) = fault
mrt_client_close fd table (some (live p t)) = ok (close_in t.state fd table)

-- What the switch of seghandler does: it goes on with a block, or waits without end for a mutex that
-- it holds itself.
pub data Outcome : Type 0 where
  goes_on : ClientTcb → Outcome
  blocked : Outcome

-- A DATAACK in CLIENT_CONNECTED: its sequence number is compared with the last segment's; send_buff
-- then locks bufMutex once more.
unfoldable pub on_dataack : ClientTcb → Segment → Run Outcome
on_dataack t seg =
    if t.buffer.tail_set
    then if ltb (last_seq t.buffer.chain) seg.header.seq_num then ok blocked else ok (goes_on t)
    else fault

unfoldable pub on_segment : ClientState → ClientTcb → Segment → Run Outcome
on_segment closed t seg = ok (goes_on t)
on_segment synsent t seg =
    if seg.header.type == synack && t.svr_port == seg.header.src_port
    then ok (goes_on (record t { state = connected }))
    else ok (goes_on t)
on_segment connected t seg =
    if seg.header.type == dataack && t.svr_port == seg.header.src_port
    then on_dataack t seg
    else ok (goes_on t)
on_segment finwait t seg =
    if seg.header.type == finack && t.svr_port == seg.header.src_port
    then ok (goes_on (record t { state = closed }))
    else ok (goes_on t)

unfoldable pub counted : Run (Option (ℕ × ClientTcb)) → Run (Option (ℕ × ClientTcb))
counted fault = fault
counted (ok none) = ok none
counted (ok (some (i, t))) = ok (some (suc i, t))

-- fetch_TCB, with the index in the table; it reads through the pointer of a freed block.
unfoldable pub fetch_tcb : ℕ → List Slot → Run (Option (ℕ × ClientTcb))
fetch_tcb port [] = ok none
fetch_tcb port (empty ∷ slots) = counted (fetch_tcb port slots)
fetch_tcb port (freed ∷ slots) = fault
fetch_tcb port (live p t ∷ slots) =
    let rest = counted (fetch_tcb port slots) in if p == port then ok (some (0, t)) else rest
