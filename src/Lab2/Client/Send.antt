-- ===== src/Lab2/Client/Send.antt =====
-- lab2/client/mrt_client.c: mrt_client_send and send_buff, at a connected block whose send buffer is
-- empty, while no segment comes in. The call makes one node, before its loop.
pub mod Rounds
use cs.Base.{
  ℕ, zero, suc, ◌+◌, ◌*◌, List, [], ◌∷◌, ◌++◌, Bool, true, false, ◌==◌, ltb, u32, is_negative,
  if◌then◌else◌, length, take, drop, Option, none, some,
}
use cs.Wire.Layout.{Segment, data_segment, max_seg_len}

-- The block, and the node: whether sendBufHead and sendBufTail are the node or NULL, whether
-- sendBufunSent is, and whether the node's `next` is the node itself.
pub record Sending : Type 0 where
  pub next_seq : ℕ
  pub unack : ℕ
  pub held : Bool
  pub unsent : Bool
  pub loops : Bool
  pub segment : Segment

-- The head of the loop's body; the data is copied only where it is shorter than a segment.
unfoldable pub fill : ℕ → ℕ → ℕ → List ℕ → Sending → Sending
fill src_port dest_port n bytes s =
    let h = record s.segment.header {
      type = data_segment;
      seq_num = s.next_seq;
      src_port = src_port;
      dest_port = dest_port;
    } in
    if ltb n max_seg_len
    then record s {
      next_seq = u32 (s.next_seq + n);
      loops = false;
      segment = record {
        header = record h { length = n };
        payload = take n bytes ++ drop n s.segment.payload;
      };
    }
    else record s { loops = false; segment = record s.segment { header = h } }

-- The two `if`s behind it: `sendBufTail->next = buffer` is the node's own `next`.
unfoldable pub link : Sending → Sending
link s =
    let s1 = if s.held then s else record s { held = true; unsent = true } in
    if s1.unsent then s1 else record s1 { unsent = true; loops = true }

-- The loop of send_buff with `k` rounds left.
unfoldable pub send_from : ℕ → Sending → Sending × List Segment
send_from zero s = (s, [])
send_from (suc k) s =
    let (s', segs) = send_from k s in
    if s.unsent
    then if s.loops then (s', s.segment ∷ segs) else (record s { unsent = false }, s.segment ∷ [])
    else (s, [])

-- `for ((i = GBN_WINDOW - unAck_segNum); i > 0; i--)`
unfoldable pub window : ℕ → ℕ
window unack = let i = u32 (10 + unack * 4294967295) in if is_negative i then 0 else i

-- A round of the loop of mrt_client_send.
unfoldable pub send_round : ℕ → ℕ → ℕ → List ℕ → Sending → Sending × List Segment
send_round src_port dest_port n bytes s =
    let s1 = link (fill src_port dest_port n bytes s) in
    let (s2, segs) = send_from (window s1.unack) s1 in
    (record s2 { unack = u32 (s2.unack + 1) }, segs)

unfoldable pub send_rounds : ℕ → ℕ → ℕ → ℕ → List ℕ → Sending → Sending × List Segment
send_rounds src_port dest_port zero n bytes s = (s, [])
send_rounds src_port dest_port (suc k) n bytes s =
    let (s1, first) = send_round src_port dest_port n bytes s in
    let (s2, rest) = send_rounds src_port dest_port k n bytes s1 in (s2, first ++ rest)

-- mrt_client_send, for `fuel` tests of `while (length > 0)`: what it returns, or `none`, if it goes on.
unfoldable pub mrt_client_send : ℕ → ℕ → ℕ → ℕ → List ℕ → Sending → Option ℕ
mrt_client_send src_port dest_port zero n bytes s = none
mrt_client_send src_port dest_port (suc fuel) n bytes s =
    let rest =
      mrt_client_send src_port dest_port fuel n bytes (send_round src_port dest_port n bytes s).0 in
    if ltb 0 n then rest else some 1
