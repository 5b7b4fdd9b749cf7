-- ===== src/Client/Buffer.antt =====
-- lab4/client/mrt_client.c: the send buffer of a connection, and mrt_client_send. `malloc` is taken
-- to succeed.
pub mod Window
pub mod Acks
pub mod Chunks
use cs.Base.{
  ℕ, zero, suc, ◌+◌, ◌-◌, ◌*◌, ◌/◌, ◌%◌, List, [], ◌∷◌, ◌++◌, Bool, true, false, ◌&&◌, ◌==◌, ltb,
  leb, u32, if◌then◌else◌, length, take, drop, Run, ok, fault, and_then, Option, none, some,
  replicate,
}
use cs.Wire.Layout.{Segment, data_segment, max_seg_len}

-- typedef struct segBuf, without the pointer `next`, which is the order of the chain.
pub record SegBuf : Type 0 where
  pub segment : Segment
  pub sent_time : ℕ

-- A pointer into the chain: NULL, the node at a position, or a node that was freed.
pub data Pointer : Type 0 where
  null : Pointer
  at : ℕ → Pointer
  dangling : Pointer

-- The send buffer's fields of client_tcb_t: `chain` is the list that sendBufHead starts. sendBufTail
-- is NULL or the last node of the chain, so only which of the two is kept.
pub record SendBuffer : Type 0 where
  pub next_seq : ℕ
  pub chain : List SegBuf
  pub tail_set : Bool
  pub unsent : Pointer
  pub unack : ℕ

-- A call of mnp_sendseg to the server, or the start of the thread sendingBuffer_timer.
pub data Output : Type 0 where
  send : Segment → Output
  start_timer : Output

-- GBN_WINDOW
abbrev pub window : ℕ
window = 10

-- A segment with its sequence number set.
unfoldable pub numbered : ℕ → Segment → Segment
numbered seq seg = record seg { header = record seg.header { seq_num = seq } }

-- `if (sendBufunSent == 0) sendBufunSent = segmentBuffer`
unfoldable pub or_new : Pointer → ℕ → Pointer
or_new null i = at i
or_new (at j) i = at j
or_new dangling i = dangling

-- The two branches of sendBuffer_append_segment; a NULL tail of a chain is written through.
unfoldable pub append_node : SendBuffer → List SegBuf → SegBuf → ℕ → Run SendBuffer
append_node b [] node next =
    ok (record {
      next_seq = next;
      chain = node ∷ [];
      tail_set = true;
      unsent = at 0;
      unack = b.unack;
    })
append_node b (c ∷ cs) node next =
    if b.tail_set
    then ok (record {
      next_seq = next;
      chain = (c ∷ cs) ++ node ∷ [];
      tail_set = true;
      unsent = or_new b.unsent (length (c ∷ cs));
      unack = b.unack;
    })
    else fault

-- sendBuffer_append_segment, of a new node for a segment
unfoldable pub append_segment : SendBuffer → Segment → Run SendBuffer
append_segment b seg =
    append_node b b.chain (record { segment = numbered b.next_seq seg; sent_time = 0 })
      (u32 (b.next_seq + seg.header.length))

-- The loop of sendBuffer_sending over the nodes from sendBufunSent on: the calls made, the nodes, and
-- unAck_segNum. `clock k` is the time that round `k` stores.
unfoldable pub send_rest : (ℕ → ℕ) → ℕ → ℕ → List SegBuf → List Output × (List SegBuf × ℕ)
send_rest clock k unack [] = ([], ([], unack))
send_rest clock k unack (n ∷ ns) =
    let (outs, (ns', u)) = send_rest clock (suc k) (unack + 1) ns in
    if ltb unack window
    then (
      send n.segment ∷ (if unack == 0 then start_timer ∷ outs else outs),
      (record n { sent_time = clock k } ∷ ns', u),
    )
    else ([], (n ∷ ns, unack))

-- The node at a position, if the chain has it.
unfoldable pub position : ℕ → ℕ → Pointer
position i n = if ltb i n then at i else null

-- sendBuffer_sending in each case of sendBufunSent
unfoldable pub sending_from : (ℕ → ℕ) → SendBuffer → Pointer → Run (SendBuffer × List Output)
sending_from clock b null = ok (b, [])
sending_from clock b dangling = if ltb b.unack window then fault else ok (b, [])
sending_from clock b (at i) =
    let (outs, (nodes, u)) = send_rest clock 0 b.unack (drop i b.chain) in
    ok (
      record b {
        chain = take i b.chain ++ nodes;
        unsent = position (i + (u - b.unack)) (length b.chain);
        unack = u;
      },
      outs,
    )

unfoldable pub sendbuffer_sending : (ℕ → ℕ) → SendBuffer → Run (SendBuffer × List Output)
sendbuffer_sending clock b = sending_from clock b b.unsent

-- The loop of sendBuffer_timeout for `n` nodes; a shorter chain is read through its NULL end.
unfoldable pub resend : (ℕ → ℕ) → ℕ → ℕ → List SegBuf → Run (List SegBuf × List Output)
resend clock k zero ns = ok (ns, [])
resend clock k (suc n) [] = fault
resend clock k (suc n) (c ∷ cs) =
    and_then (resend clock (suc k) n cs)
      (λ r. ok (record c { sent_time = clock k } ∷ r.0, send c.segment ∷ r.1))

unfoldable pub sendbuffer_timeout : (ℕ → ℕ) → SendBuffer → Run (SendBuffer × List Output)
sendbuffer_timeout clock b =
    and_then (resend clock 0 b.unack b.chain) (λ r. ok (record b { chain = r.0 }, r.1))

-- How many nodes the loop of sendBufferRecvAck frees.
unfoldable pub acked : ℕ → List SegBuf → ℕ
acked ack [] = 0
acked ack (n ∷ ns) =
    let rest = acked ack ns in if ltb n.segment.header.seq_num ack then suc rest else 0

-- A pointer after the first `n` nodes are freed.
unfoldable pub behind : ℕ → Pointer → Pointer
behind n null = null
behind n dangling = dangling
behind n (at i) = if ltb i n then dangling else at (i - n)

unfoldable pub last_seq : List SegBuf → ℕ
last_seq [] = 0
last_seq (n ∷ []) = n.segment.header.seq_num
last_seq (n ∷ m ∷ ns) = last_seq (m ∷ ns)

-- sendBufferRecvAck; each node that is freed takes one off unAck_segNum, modulo 2 ^ 32.
unfoldable pub sendbuffer_recv_ack : SendBuffer → ℕ → Run SendBuffer
sendbuffer_recv_ack b ack =
    let n = acked ack b.chain in
    if b.tail_set
    then ok (record {
      next_seq = b.next_seq;
      chain = drop n b.chain;
      tail_set = if ltb (last_seq b.chain) ack then false else true;
      unsent = behind n b.unsent;
      unack = u32 (b.unack + n * 4294967295);
    })
    else fault

-- sendBuffer_destroy
unfoldable pub sendbuffer_destroy : SendBuffer → SendBuffer
sendbuffer_destroy b = record {
  next_seq = b.next_seq;
  chain = [];
  tail_set = false;
  unsent = null;
  unack = 0;
}

-- The states of client_state_t
pub data ClientState : Type 0 where
  closed synsent connected finwait : ClientState

-- A segment that mrt_client_send fills with MAX_SEG_LEN bytes.
unfoldable pub full_segment : ℕ → ℕ → List ℕ → Segment
full_segment src_port dest_port bytes = record {
  header = record {
    src_port = src_port;
    dest_port = dest_port;
    seq_num = 0;
    ack_num = 0;
    length = max_seg_len;
    type = data_segment;
    rcv_win = 0;
    checksum = 0;
  };
  payload = bytes;
}

-- The rounds of the loop of mrt_client_send from `i` on but the last, which only fills in a header and
-- appends nothing: `n` segments from the bytes at `&send_data[i * MAX_SEG_LEN]`, of which `bytes` are
-- left. A product that is too large for an int, and a read past the caller's bytes, are faults.
unfoldable pub append_chunks : ℕ → ℕ → ℕ → ℕ → List ℕ → SendBuffer → Run SendBuffer
append_chunks src_port dest_port i zero bytes b = ok b
append_chunks src_port dest_port i (suc n) bytes b =
    if ltb (i * max_seg_len) 2147483648 && leb max_seg_len (length bytes)
    then and_then (append_segment b (full_segment src_port dest_port (take max_seg_len bytes)))
        (append_chunks src_port dest_port (suc i) n (drop max_seg_len bytes))
    else fault

-- mrt_client_send in each state; `none` is -1.
unfoldable pub mrt_client_send :
    ClientState
    → ℕ
    → ℕ
    → (ℕ → ℕ)
    → SendBuffer
    → List ℕ
    → ℕ
    → Run (Option (SendBuffer × List Output))
mrt_client_send closed src_port dest_port clock b bytes n = ok none
mrt_client_send synsent src_port dest_port clock b bytes n = ok none
mrt_client_send finwait src_port dest_port clock b bytes n = ok none
mrt_client_send connected src_port dest_port clock b bytes n =
    and_then (append_chunks src_port dest_port 0 (n / max_seg_len) bytes b)
      (λ b'. and_then (sendbuffer_sending clock b') (λ r. ok (some r)))
