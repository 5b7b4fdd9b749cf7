-- ===== src/Lab2/Server.antt =====
-- lab2/server/mrt_server.c. Its block has the fields and states of lab4's.
pub mod Stream
pub mod Lookup
use cs.Base.{
  ℕ, zero, suc, ◌+◌, ◌-◌, List, [], ◌∷◌, ◌++◌, Bool, true, false, ◌&&◌, ◌||◌, ◌==◌, ltb, leb, u32,
  if◌then◌else◌, length, take, set, get_elem?, Option, none, some, replicate, is_negative, Run, ok,
  fault, and_then,
}
use cs.Wire.Layout.{
  Segment, syn, synack, fin, finack, data_segment, dataack, control_segment, max_seg_len,
}
use cs.Server.Tcb.{State, closed, listening, connected, closewait, Tcb, receive_buf_size, write_at}

-- An entry of p_server_tcb_table.
pub data Slot : Type 0 where
  null : Slot
  live : Tcb → Slot

unfoldable pub mrt_server_init : List Slot
mrt_server_init = replicate 10 null

-- The loop of mrt_server_sock, one entry further on.
unfoldable pub later : Slot → Option (ℕ × List Slot) → Option (ℕ × List Slot)
later slot none = none
later slot (some (i, slots)) = some (suc i, slot ∷ slots)

-- mrt_server_sock: `block` and `memory` are what the memory that malloc gives holds. `none` is -1.
unfoldable pub mrt_server_sock : Tcb → List ℕ → ℕ → List Slot → Option (ℕ × List Slot)
mrt_server_sock block memory port [] = none
mrt_server_sock block memory port (null ∷ slots) = some (
  0,
  live (record block {
    state = closed;
    svr_port = port;
    recv_buf = take receive_buf_size memory;
    used_buf_len = 0;
  })
      ∷ slots,
)
mrt_server_sock block memory port (live t ∷ slots) =
    later (live t) (mrt_server_sock block memory port slots)

-- mrt_server_accept up to its wait; `none` is -1.
unfoldable pub accept_from : State → Tcb → Option Tcb
accept_from closed t = some (record t { state = listening })
accept_from listening t = none
accept_from connected t = none
accept_from closewait t = none

-- The second loop of mrt_server_recv, with `n` bytes left: the byte `i` is copied to `l`.
unfoldable pub shift : ℕ → ℕ → ℕ → List ℕ → Run (List ℕ)
shift zero i l buf = ok buf
shift (suc n) i l buf = elim (get_elem? buf i) [
  | none ↦ fault
  | some c ↦ if ltb l (length buf) then shift n (suc i) (suc l) (set buf l c) else fault
]

-- mrt_server_recv of `n` bytes: it does not wait for them. `l` is what its variable `l`, which is
-- not initialized, holds. It returns 1 with the mutex locked.
unfoldable pub mrt_server_recv : ℕ → Tcb → ℕ → Run (List ℕ × Tcb)
mrt_server_recv l t n =
    if leb n (length t.recv_buf)
    then and_then (shift t.used_buf_len 0 l t.recv_buf) (λ buf. ok (
      take n t.recv_buf,
      record t { recv_buf = buf; used_buf_len = u32 (t.used_buf_len + 4294967296 - n) },
    ))
    else fault

-- p_server_tcb_table[sockfd], read through.
unfoldable pub block_of : Option Slot → Run Tcb
block_of none = fault
block_of (some null) = fault
block_of (some (live t)) = ok t

-- The test of a socket at the start of mrt_server_recv and mrt_server_close.
abbrev pub is_refused : ℕ → Bool
is_refused fd = is_negative fd || ltb 10 fd

-- mrt_server_recv at a socket: `none` is -1.
unfoldable pub recv_at : ℕ → List Slot → ℕ → ℕ → Run (Option (List ℕ × List Slot))
recv_at l table fd n =
    if is_refused fd
    then ok none
    else and_then (block_of (get_elem? table fd))
        (λ t. and_then (mrt_server_recv l t n) (λ r. ok (some (r.0, set table fd (live r.1)))))

-- mrt_server_close: `false` is -1. A block is written to after it is freed, and NULL is too.
unfoldable pub mrt_server_close : ℕ → Run Bool
mrt_server_close fd = if is_refused fd then ok false else fault

-- A call of mnp_sendseg, or the start of the thread timer_handler.
pub data Output : Type 0 where
  send : Segment → Output
  start_timer : Output

-- What a segment changes: the block, the variable `segment_send`, and the calls.
abbrev pub Handled : Type 0
Handled = Run (Tcb × (Segment × List Output))

abbrev pub nothing : Tcb → Segment → Handled
nothing t reply = ok (t, (reply, []))

-- `segment_send` as a FINACK; the fields that are not set keep what they held.
unfoldable pub finack_over : Tcb → Segment → Segment
finack_over t reply = record reply {
  header = record reply.header {
    type = finack;
    ack_num = t.expect_seq;
    length = 0;
    src_port = t.svr_port;
    dest_port = t.client_port;
  };
}

-- The SYNACK for another SYN: the ports are written into the segment that came.
unfoldable pub synack_again : Tcb → Segment
synack_again t =
    let zeroed = control_segment synack 0 0 0 in
    record zeroed { header = record zeroed.header { seq_num = t.expect_seq } }

-- The case SVR_LISTENING.
unfoldable pub on_listening : Tcb → Segment → Segment → Handled
on_listening t seg reply =
    let t' = record t {
      expect_seq = seg.header.seq_num;
      client_port = seg.header.src_port;
      state = connected;
    } in
    let answer = control_segment synack t.svr_port seg.header.src_port 0 in
    if seg.header.type == syn then ok (t', (answer, send answer ∷ [])) else nothing t reply

-- The copy of a DATA segment with the expected number, if the buffer has room; no answer is sent.
unfoldable pub take_data : Tcb → Segment → Segment → Handled
take_data t seg reply =
    let n = seg.header.length in
    if ltb (u32 (n + t.used_buf_len)) receive_buf_size
    then if leb n max_seg_len && leb (t.used_buf_len + n) (length t.recv_buf)
      then nothing
          (record t {
            recv_buf = write_at t.recv_buf t.used_buf_len (take n seg.payload);
            used_buf_len = u32 (t.used_buf_len + n);
            expect_seq = u32 (seg.header.seq_num + n);
          })
          reply
      else fault
    else nothing t reply

unfoldable pub on_data : Tcb → Segment → Segment → Handled
on_data t seg reply =
    let answer = control_segment dataack t.svr_port t.client_port t.expect_seq in
    if seg.header.seq_num == t.expect_seq
    then take_data t seg reply
    else ok (t, (answer, send answer ∷ []))

-- The case SVR_CONNECTED, but for the ports that it writes into `segment`: `segment_after` has them.
unfoldable pub on_connected : Tcb → Segment → Segment → Handled
on_connected t seg reply =
    let mine = t.client_port == seg.header.src_port in
    if seg.header.type == syn && mine
    then ok (t, (synack_again t, send (synack_again t) ∷ []))
    else if seg.header.type == data_segment && mine
    then on_data t seg reply
    else if seg.header.type == fin && mine
    then ok (
      record t { state = closewait },
      (finack_over t reply, send (finack_over t reply) ∷ start_timer ∷ []),
    )
    else nothing t reply

-- The `switch` of seghandler.
unfoldable pub on_segment : State → Tcb → Segment → Segment → Handled
on_segment closed t seg reply = nothing t reply
on_segment listening t seg reply = on_listening t seg reply
on_segment connected t seg reply = on_connected t seg reply
on_segment closewait t seg reply =
    if seg.header.type == fin && t.client_port == seg.header.src_port
    then ok (t, (finack_over t reply, send (finack_over t reply) ∷ []))
    else nothing t reply

unfoldable pub counted : Option (ℕ × Tcb) → Option (ℕ × Tcb)
counted none = none
counted (some (i, t)) = some (suc i, t)

-- fetch_TCB, with the index in the table. `none` is NULL.
unfoldable pub fetch_tcb : ℕ → List Slot → Option (ℕ × Tcb)
fetch_tcb port [] = none
fetch_tcb port (null ∷ slots) = counted (fetch_tcb port slots)
fetch_tcb port (live t ∷ slots) =
    let rest = counted (fetch_tcb port slots) in if t.svr_port == port then some (0, t) else rest

-- The variables of seghandler, with the table.
pub record Loop : Type 0 where
  pub table : List Slot
  pub segment : Segment
  pub segment_send : Segment

unfoldable pub write_back : ℕ → Loop → Handled → Run (Loop × List Output)
write_back i s fault = fault
write_back i s (ok (t, (reply, outs))) =
    ok (record s { table = set s.table i (live t); segment_send = reply }, outs)

-- What the `switch` leaves in the variable `segment`: the ports of the answer to another SYN are
-- written into it.
unfoldable pub segment_after : State → Tcb → Segment → Segment
segment_after closed t seg = seg
segment_after listening t seg = seg
segment_after closewait t seg = seg
segment_after connected t seg =
    if seg.header.type == syn && t.client_port == seg.header.src_port
    then record seg {
      header = record seg.header { src_port = t.svr_port; dest_port = t.client_port };
    }
    else seg

-- Whether `printf("%s", segment.data)` finds a 0 in the array.
unfoldable pub is_terminated : List ℕ → Bool
is_terminated [] = false
is_terminated (c ∷ cs) = let rest = is_terminated cs in c == 0 || rest

-- A round that found a block: the `printf`, which reads past the array if it holds no 0, and the
-- `switch`.
unfoldable pub handle_at : Loop → Option (ℕ × Tcb) → Run (Loop × List Output)
handle_at s none = ok (s, [])
handle_at s (some (i, t)) =
    let s' = record s { segment = segment_after t.state t s.segment } in
    let handled = write_back i s' (on_segment t.state t s.segment s.segment_send) in
    if is_terminated s.segment.payload then handled else fault

-- What mnp_recvseg leaves in `segment`: the one before, if it fails, which is not checked.
unfoldable pub received : Segment → Option Segment → Segment
received old none = old
received old (some seg) = seg

-- A round of seghandler: the block is looked up before the segment is received.
unfoldable pub seghandler_round : Loop → Option Segment → Run (Loop × List Output)
seghandler_round s arrived =
    handle_at (record s { segment = received s.segment arrived })
      (fetch_tcb s.segment.header.dest_port s.table)

-- The end of timer_handler, after its sleep.
unfoldable pub timer_handler : Tcb → Tcb
timer_handler t = record t { state = closed; used_buf_len = 0 }
