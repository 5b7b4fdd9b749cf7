-- ===== src/Transport/Calls.antt =====
-- The calls of one round trip: what the server's application gets, and what the server answers.
use cs.Base.{
  ℕ, ◌+◌, ◌-◌, ◌≤◌, ◌<◌, ◌≡◌, refl, inl, inr, Bool-cases, List, [], ◌∷◌, ◌++◌, ok, ltb, leb, true,
  false, ◌&&◌, ◌==◌, u32, length, take, drop, arith, length-take, get_elem?, some,
}
use cs.Wire.Layout.{Segment, control_segment, max_seg_len, dataack}
use cs.Server.Tcb.{Tcb, copied, recv_round, write_at, save_to_buffer, receive_buf_size}
use cs.Server.Handler as Server
use cs.Server.Handler.Stream.{length-write_at}
use cs.Transport.System.{answers}

-- What a call leaves that takes all the bytes of a block.
pub record IsEmptied (t t' : Tcb) : Type 0 where
  pub empty : t'.used_buf_len ≡ 0
  pub room : length t'.recv_buf ≡ length t.recv_buf
  pub expects : t'.expect_seq ≡ t.expect_seq

pub recv_round-IsEmptied :
    (t : Tcb)
    → t.used_buf_len ≤ length t.recv_buf
    → (t' : Tcb) × (bytes : List ℕ) × (recv_round t t.used_buf_len ≡ ok (copied bytes t'))
      × IsEmptied t t'
recv_round-IsEmptied t fits =
    let n = t.used_buf_len in
    let enough : ltb n n ≡ false = ground arith in
    let inside : (leb n (length t.recv_buf) && leb (n - n) n) ≡ true = ground (arith, fits) in
    let none_left : length (take (n - n) (drop n t.recv_buf)) ≡ 0 =
      omega (arith, length-take (n - n) (drop n t.recv_buf)) in
    (
      record t {
        recv_buf = write_at t.recv_buf 0 (take (n - n) (drop n t.recv_buf));
        used_buf_len = n - n;
      },
      take n t.recv_buf,
      unfold recv_round in rw (enough, inside) refl,
      record {
        empty = omega arith;
        room =
            length-write_at t.recv_buf (take (n - n) (drop n t.recv_buf)) 0
              (omega (arith, none_left));
        expects = refl;
      },
    )

-- What the handler of a segment that is not ahead leaves: it answers with what it expects then,
-- which is behind the segment.
pub record IsAnswered (t : Tcb) (seg : Segment) (t' : Tcb) (outs : List Server.Output)
    : Type 0 where
  pub answer : Segment
  pub only : answers outs ≡ answer ∷ []
  pub acks : answer.header.ack_num ≡ t'.expect_seq
  pub past : seg.header.seq_num < t'.expect_seq
  pub room : length t'.recv_buf ≡ length t.recv_buf

acknowledge-IsAnswered :
    (t : Tcb) (seg : Segment) (t' : Tcb)
    → seg.header.seq_num < t'.expect_seq
    → length t'.recv_buf ≡ length t.recv_buf
    → IsAnswered t seg (Server.acknowledge t').0 (Server.acknowledge t').1
unfolding Server.acknowledge control_segment
acknowledge-IsAnswered t seg t' past room = record {
  answer = control_segment dataack t'.svr_port t'.client_port t'.expect_seq;
  only = refl;
  acks = refl;
  past = past;
  room = room;
}

-- A segment of full length that is not ahead, at a block that holds no bytes and has room for it.
pub data_received-IsAnswered :
    (t : Tcb) (seg : Segment)
    → t.used_buf_len ≡ 0
    → 1464 ≤ length t.recv_buf
    → seg.header.length ≡ 1464
    → length seg.payload ≡ 1464
    → seg.header.seq_num + 1464 < 4294967296
    → seg.header.seq_num ≤ t.expect_seq
    → (t' : Tcb) × (outs : List Server.Output) × (Server.data_received t seg ≡ ok (t', outs))
      × IsAnswered t seg t' outs
data_received-IsAnswered t seg empty room whole full small behind =
    let n = seg.header.length in
    elim (Bool-cases (seg.header.seq_num == t.expect_seq)) [
      | inr other ↦ (
        (Server.acknowledge t).0,
        (Server.acknowledge t).1,
        unfold Server.data_received in rw other refl,
        acknowledge-IsAnswered t seg t (ground arith) refl,
      )
      | inl expected ↦
          let t' : Tcb = record t {
            recv_buf = write_at t.recv_buf t.used_buf_len (take n seg.payload);
            used_buf_len = u32 (t.used_buf_len + n);
            expect_seq = u32 (n + seg.header.seq_num);
          } in
          let fits : ltb (u32 (n + t.used_buf_len)) receive_buf_size ≡ true =
            ground (arith, whole, empty) in
          let inside : (leb n max_seg_len && leb (t.used_buf_len + n) (length t.recv_buf)) ≡ true =
            ground (arith, whole, empty, room) in
          let size : length (take n seg.payload) ≡ n =
            omega (arith, length-take n seg.payload, full, whole) in
          (
            (Server.acknowledge t').0,
            (Server.acknowledge t').1,
            unfold Server.data_received save_to_buffer Server.after_save in
                rw (expected, fits, inside) refl,
            acknowledge-IsAnswered t seg t' (omega (arith, whole, small)) (
                length-write_at t.recv_buf (take n seg.payload) t.used_buf_len
                  (omega (arith, size, whole, empty, room))),
          )
    ]

-- What is added to what a side has sent is there.
pub get_elem?-sent :
    (xs : List Segment) (y : Segment) (ys : List Segment)
    → get_elem? (xs ++ y ∷ ys) (length xs) ≡ some y
get_elem?-sent [] y ys = refl
get_elem?-sent (x ∷ xs) y ys = get_elem?-sent xs y ys
