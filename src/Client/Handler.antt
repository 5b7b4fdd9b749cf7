-- ===== src/Client/Handler.antt =====
-- lab4/client/mrt_client.c: the switch of the thread seghandler.
pub mod Machine
use cs.Base.{
  ℕ, suc, List, [], ◌∷◌, Bool, true, false, ◌&&◌, ◌==◌, leb, if◌then◌else◌, Run, ok, fault,
  and_then,
}
use cs.Wire.Layout.{Segment, synack, finack, dataack}
use cs.Client.Buffer.{
  SegBuf, SendBuffer, Output, sendbuffer_sending, sendbuffer_recv_ack, ClientState, closed, synsent,
  connected, finwait,
}

-- typedef struct client_tcb
pub record ClientTcb : Type 0 where
  pub svr_node : ℕ
  pub svr_port : ℕ
  pub state : ClientState
  pub buffer : SendBuffer

-- `sendBufHead != NULL && ack_num >= sendBufHead->seg.header.seq_num`
unfoldable pub reaches_head : List SegBuf → ℕ → Bool
reaches_head [] ack = false
reaches_head (n ∷ ns) ack = leb n.segment.header.seq_num ack

-- The message that is printed reads through sendBufHead.
unfoldable pub print_head : List SegBuf → ClientTcb → Run (ClientTcb × List Output)
print_head [] t = fault
print_head (n ∷ ns) t = ok (t, [])

-- sendBufferRecvAck, then sendBuffer_sending
unfoldable pub take_ack : (ℕ → ℕ) → ClientTcb → ℕ → Run (ClientTcb × List Output)
take_ack clock t ack =
    and_then (sendbuffer_recv_ack t.buffer ack)
      (λ b. and_then (sendbuffer_sending clock b) (λ r. ok (record t { buffer = r.0 }, r.1)))

unfoldable pub on_segment :
    (ℕ → ℕ) → ClientState → ClientTcb → ℕ → Segment → Run (ClientTcb × List Output)
on_segment clock connected t src seg =
    if (t.svr_node == src && t.svr_port == seg.header.src_port) && seg.header.type == dataack
    then if reaches_head t.buffer.chain seg.header.ack_num
      then take_ack clock t seg.header.ack_num
      else ok (t, [])
    else print_head t.buffer.chain t
on_segment clock synsent t src seg =
    if (seg.header.type == synack && t.svr_port == seg.header.src_port) && t.svr_node == src
    then ok (record t { state = connected }, [])
    else ok (t, [])
on_segment clock finwait t src seg =
    if (seg.header.type == finack && t.svr_port == src) && t.svr_port == seg.header.src_port
    then ok (record t { state = closed }, [])
    else ok (t, [])
on_segment clock closed t src seg = ok (t, [])

-- The loop, over the segments that mnp_recvseg returns for this client, with the nodes they are from.
-- `clock k` has the times of round `k`.
unfoldable pub seghandler_rounds : (ℕ → ℕ → ℕ) → ℕ → ClientTcb → List (ℕ × Segment) → Run ClientTcb
seghandler_rounds clock k t [] = ok t
seghandler_rounds clock k t ((src, seg) ∷ rest) =
    and_then (on_segment (clock k) t.state t src seg)
      (λ r. seghandler_rounds clock (suc k) r.0 rest)
