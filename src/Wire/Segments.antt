-- ===== src/Wire/Segments.antt =====
-- lab4/common/seg.c: segments between the transport and network processes.
pub mod RoundTrip
use cs.Base.{
  ℕ, suc, ◌+◌, ◌-◌, ◌%◌, List, [], ◌∷◌, ◌++◌, Bool, true, false, ◌==◌, ltb, if◌then◌else◌, length,
  take,
}
use cs.Wire.Frame.{
  State, start1, start2, receiving, stop1, Step, more, complete, overrun, step, read_frame,
}
use cs.Wire.Layout.{Segment, SendSegmentArg, encode_segment_arg, decode_segment_arg}
use cs.Wire.Packets.{Received, got, disconnected, aborted, overran, send_framed, checked}

unfoldable pub mnp_sendseg : (ℕ → Bool) → ℕ → Segment → ℕ × List ℕ
unfolding send_framed
mnp_sendseg sends dest_node seg =
    send_framed sends (encode_segment_arg (record { node = dest_node; segment = seg }))

unfoldable pub forward_segment_to_mrt : (ℕ → Bool) → ℕ → Segment → ℕ × List ℕ
unfolding send_framed
forward_segment_to_mrt sends src_node seg =
    send_framed sends (encode_segment_arg (record { node = src_node; segment = seg }))

unfoldable pub get_segment_to_send : List ℕ → Received SendSegmentArg
unfolding checked read_frame
get_segment_to_send input = checked 1492 decode_segment_arg (read_frame 1492 input)

-- `rand() % 100 < PKT_LOSS_RATE * 100`, for the value that `rand` returned.
unfoldable pub seglost : ℕ → Bool
seglost random = ltb (random % 100) 10

-- The `switch` of mnp_recvseg: the case START1 has no `break` after its `if`, so a byte other
-- than '!' goes through the case START2.
unfoldable pub fallthrough_step : ℕ → State → List ℕ → ℕ → Step
unfolding step
fallthrough_step capacity start1 buf c =
    if c == b'!' then more start2 buf else step capacity start2 buf c
fallthrough_step capacity start2 buf c = step capacity start2 buf c
fallthrough_step capacity receiving buf c = step capacity receiving buf c
fallthrough_step capacity stop1 buf c = step capacity stop1 buf c

-- The loop. `rand k` is what call number `k` of `rand` returns; a lost segment restarts the machine.
unfoldable pub recvseg_from : (ℕ → ℕ) → ℕ → State → List ℕ → List ℕ → Received SendSegmentArg
unfolding fallthrough_step seglost
recvseg_from rand k s buf [] = disconnected
recvseg_from rand k s buf (c ∷ cs) = elim (fallthrough_step 1494 s buf c) [
  | more s' buf' ↦ recvseg_from rand k s' buf' cs
  | overrun ↦ overran
  | complete buf' ↦ elim (length buf' - 1 == 1492) [
    | false ↦ aborted
    | true ↦ elim (seglost (rand k)) [
      | true ↦ recvseg_from rand (suc k) start1 [] cs
      | false ↦ got (decode_segment_arg (take (length buf' - 1) buf')) cs
    ]
  ]
]

unfoldable pub mnp_recvseg : (ℕ → ℕ) → ℕ → List ℕ → Received SendSegmentArg
unfolding recvseg_from
mnp_recvseg rand k input = recvseg_from rand k start1 [] input
