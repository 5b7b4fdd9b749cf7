-- ===== src/Transport/Answers.antt =====
-- What the server makes of a segment of the client, and the client of an answer.
use cs.Base.{
  take-nil, ℕ, All-mono, min, ◌%◌, ◌+◌, ◌-◌, ◌≤◌, ◌<◌, ◌≡◌, refl, sym, ap, subst, ◌∙◌, inl, inr,
  Bool-cases, Bool, List, [], ◌∷◌, Run, ok, fault, ltb, leb, true, false, ◌&&◌, ◌==◌, u32, length,
  take, drop, All, All-drop, arith,
}
use cs.Wire.Layout.{Segment, syn, data_segment, dataack, control_segment, max_seg_len}
use cs.Server.Tcb.{
  State, Tcb, Recv, copied, recv_round, mrt_server_recv, save_to_buffer, receive_buf_size,
}
use cs.Server.Tcb as Block
use cs.Server.Handler as Server
use cs.Server.Handler.Machine.{IfOk}
use cs.Client.Buffer.{SegBuf, SendBuffer, Output, acked, connected}
use cs.Client.Buffer.Window.{IsWindow, FromSeq, segments, bytes_in}
use cs.Client.Buffer.Acks.{sendbuffer_recv_ack-IsWindow}
use cs.Client.Handler.{ClientTcb, reaches_head, take_ack, on_segment}
use cs.Transport.System.{answers}
use cs.Transport.Sent.{
  OnGrid, acked-within, acked-gains, boundary, acked-le, bytes_in-take-drop, segments-drop,
}
use cs.Transport.Pieces.{IsSendable, Holds}
use cs.Transport.Sending.{IsSending, sendbuffer_sending-IsSending}

-- An answer of the server at `port` that acknowledges whole segments, and no more than `e`.
pub record IsAnswer (port e : ℕ) (seg : Segment) : Type 0 where
  pub type_is : seg.header.type ≡ dataack
  pub from : seg.header.src_port ≡ port
  pub within : seg.header.ack_num ≤ e
  pub aligned : seg.header.ack_num % 1464 ≡ 0

-- An answer that acknowledges exactly `e`.
pub record Acknowledges (port e : ℕ) (seg : Segment) : Type 0 where
  pub type_is : seg.header.type ≡ dataack
  pub from : seg.header.src_port ≡ port
  pub exact : seg.header.ack_num ≡ e

-- What a DATA segment changes in a block.
pub record Advances (t : Tcb) (seg : Segment) (t' : Tcb) (outs : List Server.Output) : Type 0 where
  pub state : t'.state ≡ t.state
  pub client_node : t'.client_node ≡ t.client_node
  pub client_port : t'.client_port ≡ t.client_port
  pub svr_port : t'.svr_port ≡ t.svr_port
  pub forward : t.expect_seq ≤ t'.expect_seq
  pub upto :
      (e : ℕ) → t.expect_seq ≤ e → seg.header.seq_num + seg.header.length ≤ e → t'.expect_seq ≤ e
  pub aligned : t.expect_seq % 1464 ≡ 0 → seg.header.length ≡ 1464 → t'.expect_seq % 1464 ≡ 0
  pub answered : All (Acknowledges t.svr_port t'.expect_seq) (answers outs)

unchanged : (t : Tcb) (seg : Segment) → Advances t seg t []
unchanged t seg = record {
  state = refl;
  client_node = refl;
  client_port = refl;
  svr_port = refl;
  forward = omega arith;
  upto = λ e h k. h;
  aligned = λ a l. a;
  answered = tt;
}

-- Of what saveTobuffer leaves.
abbrev OfSave : Tcb → Segment → Bool × Tcb → Type 0
OfSave t seg r = Advances t seg r.1 []

aligned_after : (s n : ℕ) {x : ℕ} → x ≡ s + n → s % 1464 ≡ 0 → n ≡ 1464 → x % 1464 ≡ 0
aligned_after s n e a l = omega arith

save_to_buffer-Advances :
    (t : Tcb) (seg : Segment)
    → seg.header.seq_num ≡ t.expect_seq
    → seg.header.seq_num + seg.header.length < 4294967296
    → IfOk (OfSave t seg) (save_to_buffer t seg)
save_to_buffer-Advances t seg next small =
    let n = seg.header.length in
    let after : u32 (n + seg.header.seq_num) ≡ t.expect_seq + n = omega (arith, small, next) in
    elim (Bool-cases (ltb (u32 (n + t.used_buf_len)) receive_buf_size)) [
      | inr full ↦ unfold save_to_buffer in rw (full, IfOk) (unchanged t seg)
      | inl room ↦
          elim (Bool-cases (leb n max_seg_len && leb (t.used_buf_len + n) (length t.recv_buf))) [
            | inr past ↦ unfold save_to_buffer in rw (room, past, IfOk) tt
            | inl inside ↦
                unfold save_to_buffer in
                rw (room, inside, IfOk)
                  (record {
                    state = refl;
                    client_node = refl;
                    client_port = refl;
                    svr_port = refl;
                    forward = rw after (omega arith);
                    upto = λ e h k. omega (arith, after, k, next);
                    aligned = λ a l. aligned_after t.expect_seq n after a l;
                    answered = tt;
                  })
          ]
    ]

-- The acknowledgement is of what the block expects.
acknowledge-Advances :
    (t : Tcb) (seg : Segment) (t' : Tcb)
    → Advances t seg t' []
    → Advances t seg t' (Server.acknowledge t').1
unfolding Server.acknowledge control_segment
acknowledge-Advances t seg t' a = record {
  state = a.state;
  client_node = a.client_node;
  client_port = a.client_port;
  svr_port = a.svr_port;
  forward = a.forward;
  upto = a.upto;
  aligned = a.aligned;
  answered = (record { type_is = refl; from = a.svr_port; exact = refl }, tt);
}

abbrev pub AdvancesTo : Tcb → Segment → Tcb × List Server.Output → Type 0
AdvancesTo t seg r = Advances t seg r.0 r.1

after_save-Advances :
    (t : Tcb) (seg : Segment) (r : Run (Bool × Tcb))
    → IfOk (OfSave t seg) r
    → IfOk (AdvancesTo t seg) (Server.after_save r)
unfolding Server.after_save Server.acknowledge
after_save-Advances t seg fault h = tt
after_save-Advances t seg (ok (true, t')) h = acknowledge-Advances t seg t' h
after_save-Advances t seg (ok (false, t')) h = h

pub data_received-Advances :
    (t : Tcb) (seg : Segment)
    → seg.header.seq_num + seg.header.length < 4294967296
    → IfOk (AdvancesTo t seg) (Server.data_received t seg)
unfolding Server.acknowledge
data_received-Advances t seg small = elim (Bool-cases (seg.header.seq_num == t.expect_seq)) [
  | inl e ↦
      unfold Server.data_received in
      rw (e, IfOk)
        (after_save-Advances t seg (save_to_buffer t seg)
          (save_to_buffer-Advances t seg (ground arith) small))
  | inr e ↦
      unfold Server.data_received in rw (e, IfOk) (acknowledge-Advances t seg t (unchanged t seg))
]

-- A DATA segment of its client, at a connected block.
pub on_data :
    (t : Tcb) (src : ℕ) (seg : Segment)
    → t.state ≡ Block.connected
    → t.client_node ≡ src
    → t.client_port ≡ seg.header.src_port
    → seg.header.type ≡ data_segment
    → Server.on_segment t.state t src seg ≡ Server.data_received t seg
on_data t src seg up node port is_data =
    let own : (t.client_port == seg.header.src_port && t.client_node == src) ≡ true =
      ground arith in
    let no_syn : (seg.header.type == syn) ≡ false = ground arith in
    let yes_data : (seg.header.type == data_segment) ≡ true = ground arith in
    subst (λ s. Server.on_segment s t src seg ≡ Server.data_received t seg) (sym up)
      (unfold Server.on_segment Server.on_connected in rw (own, no_syn, yes_data) refl)

-- What a copy out of a buffer leaves.
pub record Same (t t' : Tcb) : Type 0 where
  pub state : t'.state ≡ t.state
  pub client_node : t'.client_node ≡ t.client_node
  pub client_port : t'.client_port ≡ t.client_port
  pub svr_port : t'.svr_port ≡ t.svr_port
  pub expect_seq : t'.expect_seq ≡ t.expect_seq

abbrev pub OfRecv : Tcb → Recv → Type 0
OfRecv t Block.sleeps = Unit
OfRecv t Block.refused = Unit
OfRecv t (copied bytes t') = Same t t'

pub recv_round-Same : (t : Tcb) (n : ℕ) → IfOk (OfRecv t) (recv_round t n)
recv_round-Same t n = elim (Bool-cases (ltb t.used_buf_len n)) [
  | inl less ↦ unfold recv_round in rw (less, IfOk) tt
  | inr more ↦
      elim (Bool-cases (leb t.used_buf_len (length t.recv_buf) && leb (t.used_buf_len - n) n)) [
        | inr over ↦ unfold recv_round in rw (more, over, IfOk) tt
        | inl fine ↦
            unfold recv_round in
            rw (more, fine, IfOk)
              (record {
                state = refl;
                client_node = refl;
                client_port = refl;
                svr_port = refl;
                expect_seq = refl;
              })
      ]
]

-- A buffer whose first number was `s`, after an acknowledgement `ack` of no more than `x`.
pub record IsHeard (given : List ℕ) (src dest s x ack e s' : ℕ) (b : SendBuffer)
    (outs : List Output) : Type 0 where
  pub sending : IsSending given src dest s' e b outs
  pub behind : s' ≤ x
  pub gains : s < ack → s < s'

sendable_grid :
    (given : List ℕ) (src dest : ℕ) (segs : List Segment)
    → All (IsSendable given src dest) segs
    → All OnGrid segs
sendable_grid given src dest segs h =
    All-mono (IsSendable given src dest) OnGrid (λ seg f. (f.whole, f.aligned)) segs h

-- An acknowledgement of bytes that are sent, at a client whose chain is not empty.
take_ack-IsHeard :
    (given : List ℕ) (src dest s x : ℕ) (clock : ℕ → ℕ) (t : ClientTcb) (ack : ℕ)
    → IsWindow s t.buffer
    → Holds given src dest t.buffer
    → 0 < length t.buffer.chain
    → ack ≤ boundary s t.buffer
    → ack % 1464 ≡ 0
    → ack ≤ x
    → s ≤ x
    → (s' : ℕ) × (b : SendBuffer) × (outs : List Output) × (take_ack clock t ack
        ≡ ok (record t { buffer = b }, outs))
      × IsHeard given src dest s x ack (boundary s t.buffer) s' b outs
take_ack-IsHeard given src dest s x clock t ack w h some_held within whole below from =
    let grid = sendable_grid given src dest (segments t.buffer.chain) h.sendable in
    let b = t.buffer in
    let k = acked ack b.chain in
    let segs = segments b.chain in
    let known : k ≤ b.unack = acked-le s b.next_seq ack b.unack b.chain w.contiguous within in
    let (b1, freed, w1, chain, count, next) =
      sendbuffer_recv_ack-IsWindow s ack b w some_held known in
    let s1 = s + bytes_in (take k segs) in
    let segs1 : segments b1.chain ≡ drop k segs = ap segments chain ∙ segments-drop k b.chain in
    let h1 : Holds given src dest b1 = record {
      ends = next ∙ h.ends;
      aligned = h.aligned;
      sendable = rw segs1 (All-drop (IsSendable given src dest) k segs h.sendable);
    } in
    let same : boundary s1 b1 ≡ boundary s b =
      rw (segs1, count) (omega (arith, bytes_in-take-drop k b.unack segs known)) in
    let (b2, outs, run, sending) = sendbuffer_sending-IsSending given src dest s1 clock b1 w1 h1 in
    (
      s1,
      b2,
      outs,
      unfold take_ack in rw (freed, run) refl,
      record {
        sending = record {
          window = sending.window;
          holds = sending.holds;
          opened = sending.opened;
          forward = omega (arith, same, sending.forward);
          flying = sending.flying;
        };
        behind = acked-within s b.next_seq ack x b.chain w.contiguous grid whole below from;
        gains = λ m. acked-gains s b.next_seq ack b.chain w.contiguous some_held m;
      },
    )

-- An answer that does not reach the head acknowledges nothing that is held.
early_of :
    (s e a k : ℕ) (ns : List SegBuf)
    → FromSeq s ns e
    → reaches_head ns a ≡ false
    → a ≤ s + bytes_in (take k (segments ns))
    → a ≤ s
unfolding reaches_head
early_of s e a k [] f r h = omega (arith, h, ap bytes_in (take-nil {A = Segment} k))
early_of s e a k (n ∷ ns) f r h = ground (arith, f.0)

-- An answer of its server, at a connected client: no fault, and the buffer keeps its invariants.
pub on_answer :
    (given : List ℕ) (src dest s e : ℕ) (clock : ℕ → ℕ) (t : ClientTcb) (node : ℕ) (seg : Segment)
    → t.state ≡ connected
    → t.svr_node ≡ node
    → IsAnswer t.svr_port e seg
    → e ≤ boundary s t.buffer
    → s ≤ e
    → IsWindow s t.buffer
    → Holds given src dest t.buffer
    → t.buffer.unack ≡ min 10 (length t.buffer.chain)
    → (s' : ℕ) × (b : SendBuffer) × (outs : List Output) × (on_segment clock t.state t node seg
        ≡ ok (record t { buffer = b }, outs))
      × IsHeard given src dest s e seg.header.ack_num (boundary s t.buffer) s' b outs
on_answer given src dest s e clock t node seg up from a within known w h full =
    let own : ((t.svr_node == node && t.svr_port == seg.header.src_port)
          && seg.header.type == dataack)
        ≡ true =
      ground (arith, a.from, a.type_is) in
    elim (Bool-cases (reaches_head t.buffer.chain seg.header.ack_num)) [
      | inl reached ↦
          let (s', b, outs, run, heard) =
            take_ack-IsHeard given src dest s e clock t seg.header.ack_num w h
              (held_of t.buffer.chain seg.header.ack_num reached) (omega (arith, within, a.within))
              a.aligned a.within known in
          (
            s',
            b,
            outs,
            subst (λ st. on_segment clock st t node seg ≡ ok (record t { buffer = b }, outs))
                (sym up) (unfold on_segment in rw (own, reached) run),
            heard,
          )
      | inr early ↦ (
        s,
        t.buffer,
        [],
        subst (λ st. on_segment clock st t node seg ≡ ok (t, [])) (sym up)
            (unfold on_segment in rw (own, early) refl),
        record {
          sending = record {
            window = w;
            holds = h;
            opened = full;
            forward = omega arith;
            flying = tt;
          };
          behind = known;
          gains = λ m. absurd (
              omega (
                arith,
                m,
                early_of s t.buffer.next_seq seg.header.ack_num t.buffer.unack t.buffer.chain
                    w.contiguous early (omega (arith, within, a.within)),
              ));
        },
      )
    ]
  where
    held_of : (ns : List SegBuf) (ack : ℕ) → reaches_head ns ack ≡ true → 0 < length ns
    held_of [] ack r = absurd (unfold reaches_head in cc)
    held_of (n ∷ ns) ack r = omega arith
