-- ===== src/Wire/Packets.antt =====
-- lab4/common/pkt.c: packets between the network and overlay processes, and between nodes.
pub mod RoundTrip
use cs.Base.{
  ℕ, ◌+◌, List, [], ◌∷◌, ◌++◌, Bool, ◌==◌, ltb, if◌then◌else◌, length, take, drop, minus_one,
  Option, none, some,
}
use cs.Wire.Frame.{Frame, framed, closed, overflow, read_frame, frame}
use cs.Wire.Layout.{
  Packet, SendPacketArg, encode_packet, decode_packet, encode_packet_arg, decode_packet_arg,
}

-- What a receiver ends with: a structure and what is left in the stream (it returns 1), the end of
-- the stream (it returns -1), a failed `assert`, or a write past its buffer.
pub data Received {ℓ} (A : Type ℓ) : Type ℓ where
  got : A → List ℕ → Received A
  disconnected : Received A
  aborted : Received A
  overran : Received A

-- The three calls of `send`, each of which writes all of its bytes or fails: the value returned,
-- and the bytes written. `sends i` tells whether the call number `i` succeeds.
unfoldable pub send_framed : (ℕ → Bool) → List ℕ → ℕ × List ℕ
unfolding frame
send_framed sends bytes =
    if sends 0
    then if sends 1
      then if sends 2 then (1, frame bytes) else (minus_one, b'!' ∷ b'&' ∷ bytes)
      else (minus_one, b'!' ∷ b'&' ∷ [])
    else (minus_one, [])

-- `assert(idx - 1 == sizeof(arg)); memcpy(&arg, buf, idx - 1); return 1;`
unfoldable pub checked {ℓ} : {A : Type ℓ} → ℕ → (List ℕ → A) → Frame → Received A
checked size decode (framed p rest) = if length p == size then got (decode p) rest else aborted
checked size decode closed = disconnected
checked size decode overflow = overran

unfoldable pub overlay_sendpkt : (ℕ → Bool) → ℕ → Packet → ℕ × List ℕ
unfolding send_framed
overlay_sendpkt sends next_node pkt =
    send_framed sends (encode_packet_arg (record { next_node = next_node; packet = pkt }))

unfoldable pub overlay_recvpkt : List ℕ → Received Packet
unfolding checked read_frame
overlay_recvpkt input = checked 1500 decode_packet (read_frame 1500 input)

unfoldable pub get_packet_to_send : List ℕ → Received SendPacketArg
unfolding checked read_frame
get_packet_to_send input = checked 1504 decode_packet_arg (read_frame 1504 input)

unfoldable pub forward_packet_to_mnp : (ℕ → Bool) → Packet → ℕ × List ℕ
unfolding send_framed
forward_packet_to_mnp sends pkt = send_framed sends (encode_packet pkt)

-- Only the header and `length` bytes of data are sent; `none` is a read past the structure.
unfoldable pub sendpkt : (ℕ → Bool) → Packet → Option (ℕ × List ℕ)
unfolding send_framed
sendpkt sends pkt =
    let size = 12 + pkt.header.length in
    if ltb 1500 size then none else some (send_framed sends (take size (encode_packet pkt)))

-- `memcpy(pkt, buf, idx - 1)`, over what the caller's structure held.
unfoldable pub overwrite : Packet → List ℕ → Packet
overwrite old p = decode_packet (p ++ drop (length p) (encode_packet old))

unfoldable pub accept_packet : Packet → Frame → Received Packet
unfolding overwrite
accept_packet old (framed p rest) = got (overwrite old p) rest
accept_packet old closed = disconnected
accept_packet old overflow = overran

-- The only receiver with no `assert`.
unfoldable pub recvpkt : Packet → List ℕ → Received Packet
unfolding accept_packet read_frame
recvpkt old input = accept_packet old (read_frame 1500 input)
