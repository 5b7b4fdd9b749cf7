-- ===== src/Wire/Packets/RoundTrip.antt =====
-- What a receiver of pkt.c makes of what a sender wrote.
use cs.Base.{
  ℕ, suc, ◌+◌, ◌≤◌, ◌<◌, ◌≡◌, ap, ◌∙◌, inl, inr, Option-cases, List, [], ◌∷◌, ◌++◌, Bool, true,
  false, if◌then◌else◌, length, take, drop, Option, none, some, arith, append_assoc, length-take,
}
use cs.Wire.Frame.{Frame, framed, read_frame, frame}
use cs.Wire.Frame.Cut.{cut, outcome, read_from_lem, cut-append, cut-append_inside, cut_shorter}
use cs.Wire.Layout.{
  Packet, SendPacketArg, IsPacket, encode_packet, decode_packet, encode_packet_arg,
  decode_packet_arg, decode-encode_packet, decode-encode_packet_arg, length-encode_packet,
  length-encode_packet_arg,
}
use cs.Wire.Packets.{
  Received, got, aborted, send_framed, checked, overlay_sendpkt, overlay_recvpkt,
  get_packet_to_send, forward_packet_to_mnp, sendpkt, recvpkt, overwrite, accept_packet,
}

abbrev pub is_none {ℓ} : {A : Type ℓ} → Option A → Bool
is_none none = true
is_none (some a) = false

frame-append : (p rest : List ℕ) → frame p ++ rest ≡ b'!' ∷ b'&' ∷ (p ++ b'!' ∷ b'#' ∷ rest)
unfolding frame
frame-append p rest = simp append_assoc

-- A frame that is read from its opening delimiter on.
pub read_frame-frame :
    (size : ℕ) (p rest : List ℕ)
    → read_frame size (frame p ++ rest)
      ≡ outcome (size + 2) [] (length (p ++ b'!' ∷ b'#' ∷ rest)) (cut (p ++ b'!' ∷ b'#' ∷ rest))
unfolding read_frame
read_frame-frame size p rest =
    rw (frame-append p rest) (read_from_lem size (p ++ b'!' ∷ b'#' ∷ rest))

-- A frame without the delimiter inside, of a size that fits.
pub read_frame-clean :
    (size : ℕ) (p rest : List ℕ)
    → cut p ≡ none
    → length p ≤ size
    → read_frame size (frame p ++ rest) ≡ framed p rest
unfolding outcome
read_frame-clean size p rest h fits =
    rw (read_frame-frame size p rest, cut-append p rest h) (ground arith)

pub read_frame-dirty :
    (size : ℕ) (p rest : List ℕ) {q r : List ℕ}
    → cut p ≡ some (q, r)
    → length p ≤ size
    → read_frame size (frame p ++ rest) ≡ framed q (r ++ b'!' ∷ b'#' ∷ rest)
unfolding outcome
read_frame-dirty size p rest h fits =
    rw (read_frame-frame size p rest, cut-append_inside p (b'!' ∷ b'#' ∷ rest) h)
      (ground (arith, cut_shorter p h))

-- A receiver with an `assert` gets a structure of the right size back exactly if its bytes do not
-- hold "!#"; else it aborts.
pub checked-frame {ℓ} :
    {A : Type ℓ} (size : ℕ) (decode : List ℕ → A) (p rest : List ℕ)
    → length p ≡ size
    → checked size decode (read_frame size (frame p ++ rest))
      ≡ (if is_none (cut p) then got (decode p) rest else aborted)
unfolding checked
checked-frame size decode p rest h = elim (Option-cases (cut p)) [
  | inl e ↦ rw (read_frame-clean size p rest e (omega arith), e) (ground arith)
  | inr ((q, r), e) ↦
      rw (read_frame-dirty size p rest e (omega arith), e) (ground (arith, cut_shorter p e))
]

-- The three calls of `send` succeed.
pub record Sends (sends : ℕ → Bool) : Type 0 where
  pub opens : sends 0 ≡ true
  pub writes : sends 1 ≡ true
  pub ends : sends 2 ≡ true

pub send_framed_lem :
    (sends : ℕ → Bool) (bytes : List ℕ) → Sends sends → send_framed sends bytes ≡ (1, frame bytes)
unfolding send_framed
send_framed_lem sends bytes s = rw (s.opens, s.writes, s.ends)

-- When the calls of `send` succeed and the fields fit their types, overlay_sendpkt returns 1, and
-- getpktToSend has the packet and its next hop back if their bytes do not hold "!#", and aborts if
-- they do.
pub get_packet_to_send-overlay_sendpkt :
    (sends : ℕ → Bool) (a : SendPacketArg) (rest : List ℕ)
    → Sends sends
    → a.next_node < 4294967296
    → IsPacket a.packet
    → let sent = overlay_sendpkt sends a.next_node a.packet in
      (sent.0 ≡ 1)
      × (get_packet_to_send (sent.1 ++ rest)
          ≡ (if is_none (cut (encode_packet_arg a)) then got a rest else aborted))
unfolding overlay_sendpkt get_packet_to_send
get_packet_to_send-overlay_sendpkt sends a rest s n p =
    let bytes = encode_packet_arg a in
    let sent = send_framed_lem sends bytes s in
    (
      ap (λ t. t.0) sent,
      rw (
        sent,
        checked-frame 1504 decode_packet_arg bytes rest (length-encode_packet_arg a p),
        decode-encode_packet_arg a n p,
      ),
    )

-- When the calls of `send` succeed and the fields fit their types, forwardpktToMNP returns 1, and
-- overlay_recvpkt has the packet back if its bytes do not hold "!#", and aborts if they do.
pub overlay_recvpkt-forward_packet_to_mnp :
    (sends : ℕ → Bool) (p : Packet) (rest : List ℕ)
    → Sends sends
    → IsPacket p
    → let sent = forward_packet_to_mnp sends p in
      (sent.0 ≡ 1)
      × (overlay_recvpkt (sent.1 ++ rest)
          ≡ (if is_none (cut (encode_packet p)) then got p rest else aborted))
unfolding forward_packet_to_mnp overlay_recvpkt
overlay_recvpkt-forward_packet_to_mnp sends p rest s h =
    let bytes = encode_packet p in
    let sent = send_framed_lem sends bytes s in
    (
      ap (λ t. t.0) sent,
      rw (
        sent,
        checked-frame 1500 decode_packet bytes rest (length-encode_packet p h),
        decode-encode_packet p h,
      ),
    )

-- What is left of the caller's structure under the `length` data bytes that arrive.
unfoldable pub overlay_payload : Packet → Packet → Packet
overlay_payload old p = record p {
  payload = take p.header.length p.payload ++ drop p.header.length old.payload;
}

overwrite_lem :
    (old p : Packet)
    → IsPacket p
    → p.header.length ≤ 1488
    → overwrite old (take (12 + p.header.length) (encode_packet p)) ≡ overlay_payload old p
unfolding overwrite overlay_payload encode_packet decode_packet
overwrite_lem old p h fits =
    let l = p.header.length in
    let unary : 12 + l ≡ suc (suc (suc (suc (suc (suc (suc (suc (suc (suc (suc (suc l))))))))))) =
      omega arith in
    let sent : length (take l p.payload) ≡ l = omega (arith, length-take l p.payload) in
    rw (unary, sent) (ground arith)

-- What recvpkt returns, given the cut of the bytes sent.
abbrev pub truncated : Packet → Packet → List ℕ → Option (List ℕ × List ℕ) → Received Packet
truncated old p rest none = got (overlay_payload old p) rest
truncated old p rest (some (q, r)) = got (overwrite old q) (r ++ b'!' ∷ b'#' ∷ rest)

pub sendpkt-frame :
    (sends : ℕ → Bool) (p : Packet)
    → Sends sends
    → p.header.length ≤ 1488
    → sendpkt sends p ≡ some (1, frame (take (12 + p.header.length) (encode_packet p)))
unfolding sendpkt
sendpkt-frame sends p s fits = ground arith

recvpkt-read_frame :
    (old : Packet) (input : List ℕ) {f : Frame}
    → read_frame 1500 input ≡ f
    → recvpkt old input ≡ accept_packet old f
unfolding recvpkt
recvpkt-read_frame old input e = ap (accept_packet old) e

pub recvpkt-frame :
    (old p : Packet) (rest : List ℕ)
    → IsPacket p
    → p.header.length ≤ 1488
    → let bytes = take (12 + p.header.length) (encode_packet p) in
      recvpkt old (frame bytes ++ rest) ≡ truncated old p rest (cut bytes)
recvpkt-frame old p rest h fits =
    let bytes : List ℕ = take (12 + p.header.length) (encode_packet p) in
    let short : length bytes ≤ 1500 =
      omega (arith, length-take (12 + p.header.length) (encode_packet p)) in
    elim (Option-cases (cut bytes)) [
      | inl e ↦
          recvpkt-read_frame old _ (read_frame-clean 1500 bytes rest e short)
          ∙ unfold accept_packet in rw (e, overwrite_lem old p h fits)
      | inr ((q, r), e) ↦
          recvpkt-read_frame old _ (read_frame-dirty 1500 bytes rest e short)
          ∙ unfold accept_packet in rw e
    ]

-- When the calls of `send` succeed and the fields fit their types, the header's length being
-- within the array, sendpkt returns 1 and writes a frame that recvpkt reads as follows: if the
-- bytes sent do not hold "!#", the packet's header and data over the tail of the caller's
-- structure; else what stands before the "!#" over the caller's structure, without an error, the
-- rest being left in the stream.
pub recvpkt-sendpkt :
    (sends : ℕ → Bool) (old p : Packet) (rest : List ℕ)
    → Sends sends
    → IsPacket p
    → p.header.length ≤ 1488
    → let bytes = take (12 + p.header.length) (encode_packet p) in
      (sendpkt sends p ≡ some (1, frame bytes))
      × (recvpkt old (frame bytes ++ rest) ≡ truncated old p rest (cut bytes))
recvpkt-sendpkt sends old p rest s h fits =
    (sendpkt-frame sends p s fits, recvpkt-frame old p rest h fits)
