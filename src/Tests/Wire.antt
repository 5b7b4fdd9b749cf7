-- ===== src/Tests/Wire.antt =====
-- Packets and segments on the wire.
use cs.Base.{◌+◌, ◌≡◌, refl, [], ◌∷◌, ◌++◌, some, arith, take}
use cs.Wire.Frame.{framed, overflow, receiving, read_from, read_frame, frame}
use cs.Wire.Frame.Cut.{cut, outcome, read_from_lem}
use cs.Wire.Layout.{encode_packet, encode_packet_arg, encode_segment_arg, SendSegmentArg}
use cs.Wire.Packets.{got, sendpkt, recvpkt}
use cs.Wire.Packets.RoundTrip.{recvpkt-sendpkt, truncated}
use cs.Wire.Segments.{
  mnp_sendseg, get_segment_to_send, forward_segment_to_mrt, seglost, mnp_recvseg,
}
use cs.Wire.Segments.RoundTrip.{get_segment_to_send-mnp_sendseg, mnp_recvseg-forward_segment_to_mrt}
use cs.Tests.Data.{
  all_sent, all_sent-Sends, small_packet, small_packet-IsPacket, two_bytes-IsSegment, segment_arg,
}

read_frame_test :
    read_frame 4 (b'x' ∷ (frame (1 ∷ b'!' ∷ 2 ∷ []) ++ 9 ∷ []))
    ≡ framed (1 ∷ b'!' ∷ 2 ∷ []) (9 ∷ [])
unfolding read_frame frame
read_frame_test = refl

read_frame_long : read_frame 1 (frame (1 ∷ 2 ∷ [])) ≡ overflow
unfolding read_frame frame
read_frame_long = refl

read_from_lem_example :
    read_from (2 + 2) receiving [] (1 ∷ 2 ∷ b'!' ∷ b'#' ∷ 3 ∷ []) ≡ framed (1 ∷ 2 ∷ []) (3 ∷ [])
unfolding outcome cut
read_from_lem_example = read_from_lem 2 (1 ∷ 2 ∷ b'!' ∷ b'#' ∷ 3 ∷ [])

recvpkt-sendpkt_example :
    let bytes = take (12 + 3) (encode_packet small_packet) in
    (sendpkt all_sent small_packet ≡ some (1, frame bytes))
    × (recvpkt small_packet (frame bytes ++ [])
        ≡ truncated small_packet small_packet [] (cut bytes))
recvpkt-sendpkt_example =
    recvpkt-sendpkt all_sent small_packet small_packet [] all_sent-Sends small_packet-IsPacket
      (omega arith)

-- The call number 0 of `rand` returns 50, so the segment is kept.
mnp_recvseg-forward_segment_to_mrt_example :
    let sent = forward_segment_to_mrt all_sent 2 segment_arg.segment in
    (sent.0 ≡ 1) × (mnp_recvseg (λ k. 50) 0 (sent.1 ++ []) ≡ got segment_arg [])
unfolding cut encode_segment_arg cs.Wire.Layout.encode_segment seglost
mnp_recvseg-forward_segment_to_mrt_example =
    mnp_recvseg-forward_segment_to_mrt all_sent (λ k. 50) 0 segment_arg [] all_sent-Sends
      (omega arith) two_bytes-IsSegment

get_segment_to_send-mnp_sendseg_example :
    let sent = mnp_sendseg all_sent 2 segment_arg.segment in
    (sent.0 ≡ 1) × (get_segment_to_send (sent.1 ++ []) ≡ got segment_arg [])
unfolding cut encode_segment_arg cs.Wire.Layout.encode_segment
get_segment_to_send-mnp_sendseg_example =
    get_segment_to_send-mnp_sendseg all_sent segment_arg [] all_sent-Sends (omega arith)
      two_bytes-IsSegment
