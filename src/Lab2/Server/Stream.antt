-- ===== src/Lab2/Server/Stream.antt =====
-- What the server of lab2 has of a stream.
use cs.Base.{
  ℕ, ◌+◌, ◌≤◌, ◌<◌, ◌≡◌, inl, inr, refl, List, [], ◌∷◌, Bool-cases, true, ◌&&◌, ◌==◌, ltb, leb, u32,
  length, length-take, take, ok, arith, if-both, ◌∙◌,
}
use cs.Wire.Layout.{Segment, syn, fin, data_segment, dataack, control_segment, max_seg_len}
use cs.Server.Tcb.{Tcb, connected, closewait, receive_buf_size, write_at}
use cs.Server.Handler.Stream.{IsPiece, InStream, write_at-InStream, length-write_at}
use cs.Lab2.Server.{
  Output, send, on_segment, on_connected, on_data, take_data, synack_again, finack_over, Handled,
}

-- A block with the buffer that mrt_server_sock gives it.
pub record IsReceiving (stream read : List ℕ) (t : Tcb) : Type 0 where
  pub in_stream : InStream stream read t
  pub size : length t.recv_buf ≡ 1000000

abbrev pub Receives : List ℕ → List ℕ → Handled → Type 0
Receives stream read r =
    (t : Tcb) × (reply : Segment) × (outs : List Output) × (r ≡ ok (t, (reply, outs)))
    × IsReceiving stream read t

room_for :
    (n used size : ℕ)
    → size ≡ 1000000
    → used ≤ size
    → n ≤ 1464
    → ltb (u32 (n + used)) receive_buf_size ≡ true
    → used + n ≤ size
room_for n used size e h k room = ground arith

take_data-Receives :
    (stream read : List ℕ) (t : Tcb) (seg reply : Segment)
    → length stream < 4294967296
    → IsPiece stream seg
    → IsReceiving stream read t
    → seg.header.seq_num ≡ t.expect_seq
    → Receives stream read (take_data t seg reply)
take_data-Receives stream read t seg reply small p v e =
    let n = seg.header.length in
    let bytes = take n seg.payload in
    elim (Bool-cases (ltb (u32 (n + t.used_buf_len)) receive_buf_size)) [
      | inr full ↦ (t, reply, [], unfold take_data in rw full refl, v)
      | inl room ↦
          let fits : t.used_buf_len + n ≤ length t.recv_buf =
            room_for n t.used_buf_len (length t.recv_buf) v.size v.in_stream.fits p.short room in
          let inside : leb n max_seg_len && leb (t.used_buf_len + n) (length t.recv_buf) ≡ true =
            fits_both n (t.used_buf_len + n) (length t.recv_buf) p.short fits in
          let held : length bytes ≡ n = omega (arith, length-take n seg.payload, p.full, p.short) in
          (
            record t {
              recv_buf = write_at t.recv_buf t.used_buf_len bytes;
              used_buf_len = u32 (t.used_buf_len + n);
              expect_seq = u32 (seg.header.seq_num + n);
            },
            reply,
            [],
            unfold take_data in rw (room, inside) refl,
            record {
              in_stream =
                  write_at-InStream stream read t seg (u32 (seg.header.seq_num + n)) small p
                    v.in_stream e fits (omega (arith, p.inside, e, small));
              size =
                  length-write_at t.recv_buf bytes t.used_buf_len (omega (arith, held, fits))
                  ∙ v.size;
            },
          )
    ]
  where
    fits_both : (n m l : ℕ) → n ≤ 1464 → m ≤ l → leb n max_seg_len && leb m l ≡ true
    fits_both n m l h k = ground arith

on_data-Receives :
    (stream read : List ℕ) (t : Tcb) (seg reply : Segment)
    → length stream < 4294967296
    → IsPiece stream seg
    → IsReceiving stream read t
    → Receives stream read (on_data t seg reply)
unfolding on_data
on_data-Receives stream read t seg reply small p v =
    let answer = control_segment dataack t.svr_port t.client_port t.expect_seq in
    elim (Bool-cases (seg.header.seq_num == t.expect_seq)) [
      | inl next ↦ rw next (take_data-Receives stream read t seg reply small p v (ground arith))
      | inr other ↦ rw other (t, answer, send answer ∷ [], refl, v)
    ]

-- In SVR_CONNECTED, the `switch` of seghandler handles any segment, which carries a piece of a stream
-- of fewer than 2 ^ 32 bytes if it is a DATA segment, without a fault at a block that has the buffer
-- of mrt_server_sock and holds the stream in order up to the number that it expects, and leaves such
-- a block. The printf before the `switch` is no part of this.
pub on_segment-Receives :
    (stream read : List ℕ) (t : Tcb) (seg reply : Segment)
    → length stream < 4294967296
    → (seg.header.type ≡ data_segment → IsPiece stream seg)
    → IsReceiving stream read t
    → Receives stream read (on_segment connected t seg reply)
unfolding on_segment on_connected
on_segment-Receives stream read t seg reply small p v =
    let P = Receives stream read in
    let mine = t.client_port == seg.header.src_port in
    let ended : IsReceiving stream read (record t { state = closewait }) = record {
      in_stream = record {
        bounded = v.in_stream.bounded;
        fits = v.in_stream.fits;
        prefix = v.in_stream.prefix;
      };
      size = v.size;
    } in
    if-both P (seg.header.type == syn && mine) _ _ (t, synack_again t, _, refl, v)
      (elim (Bool-cases (seg.header.type == data_segment && mine)) [
        | inl of_data ↦
            rw of_data (on_data-Receives stream read t seg reply small (p (ground arith)) v)
        | inr other ↦ rw other (
            if-both P (seg.header.type == fin && mine) _ _
              (record t { state = closewait }, finack_over t reply, _, refl, ended)
              (t, reply, [], refl, v))
      ])
