-- ===== src/Server/Handler.antt =====
-- lab4/server/mrt_server.c: the thread seghandler.
pub mod Stream
pub mod Machine
use cs.Base.{
  ℕ, ◌+◌, List, [], ◌∷◌, ◌++◌, Bool, true, false, ◌&&◌, ◌==◌, if◌then◌else◌, Option, none, some,
}
use cs.Wire.Layout.{Segment, syn, synack, fin, finack, data_segment, dataack, control_segment}
use cs.Server.Tcb.{
  State, closed, listening, connected, closewait, Tcb, Run, ok, fault, save_to_buffer,
}

-- A call of mnp_sendseg, or the start of the thread closewait.
pub data Output : Type 0 where
  send : ℕ → Segment → Output
  start_closewait : Output

-- segment_recv
unfoldable pub segment_recv : Tcb → Segment → Tcb × List Output
segment_recv t seg =
    if seg.header.type == syn
    then (
      record t { expect_seq = seg.header.seq_num },
      send t.client_node (control_segment synack t.svr_port t.client_port 0) ∷ [],
    )
    else if seg.header.type == fin
    then (t, send t.client_node (control_segment finack t.svr_port t.client_port 0) ∷ [])
    else (t, [])

-- The acknowledgement at the end of data_received.
unfoldable pub acknowledge : Tcb → Tcb × List Output
acknowledge t =
    (t, send t.client_node (control_segment dataack t.svr_port t.client_port t.expect_seq) ∷ [])

-- What follows saveTobuffer.
unfoldable pub after_save : Run (Bool × Tcb) → Run (Tcb × List Output)
after_save fault = fault
after_save (ok (true, t)) = ok (acknowledge t)
after_save (ok (false, t)) = ok (t, [])

-- data_received
unfoldable pub data_received : Tcb → Segment → Run (Tcb × List Output)
data_received t seg =
    if seg.header.seq_num == t.expect_seq
    then after_save (save_to_buffer t seg)
    else ok (acknowledge t)

-- The case SVR_CONNECTED.
unfoldable pub on_connected : Tcb → ℕ → Segment → Run (Tcb × List Output)
on_connected t src seg =
    let (t', out) = segment_recv (record t { state = closewait }) seg in
    if t.client_port == seg.header.src_port && t.client_node == src
    then if seg.header.type == syn
      then ok (segment_recv t seg)
      else if seg.header.type == data_segment
      then data_received t seg
      else if seg.header.type == fin
      then ok (t', start_closewait ∷ out)
      else ok (t, [])
    else ok (t, [])

-- The case SVR_LISTENING: the segment's type is not looked at before the connection is made.
unfoldable pub on_listening : Tcb → ℕ → Segment → Tcb × List Output
on_listening t src seg =
    let (t', out) =
      segment_recv (record t { client_node = src; client_port = seg.header.src_port }) seg in
    (record t' { state = connected }, out)

-- The `switch` of seghandler.
unfoldable pub on_segment : State → Tcb → ℕ → Segment → Run (Tcb × List Output)
on_segment listening t src seg = ok (on_listening t src seg)
on_segment connected t src seg = on_connected t src seg
on_segment closewait t src seg =
    if seg.header.type == fin then ok (segment_recv t seg) else ok (t, [])
on_segment closed t src seg = ok (t, [])
