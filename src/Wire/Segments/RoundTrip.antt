-- ===== src/Wire/Segments/RoundTrip.antt =====
-- What the receivers of seg.c make of what the senders wrote.
use cs.Base.{
  ℕ, suc, ◌-◌, ◌<◌, ◌≡◌, refl, ap, ◌∙◌, inl, inr, Option-cases, List, [], ◌∷◌, ◌++◌, Bool, true,
  false, ◌==◌, if◌then◌else◌, length, arith, length-take,
}
use cs.Wire.Frame.{
  State, Frame, framed, closed, overflow, receiving, stop1, read_from, read_frame, frame,
}
use cs.Wire.Frame.Cut.{cut, cut_shorter}
use cs.Wire.Layout.{
  SendSegmentArg, IsSegment, encode_segment_arg, decode_segment_arg, decode-encode_segment_arg,
  length-encode_segment_arg,
}
use cs.Wire.Packets.{Received, got, disconnected, aborted, overran}
use cs.Wire.Packets.RoundTrip.{
  is_none, Sends, send_framed_lem, checked-frame, read_frame-clean, read_frame-dirty,
}
use cs.Wire.Segments.{
  mnp_sendseg, forward_segment_to_mrt, get_segment_to_send, seglost, recvseg_from, mnp_recvseg,
}

-- When the calls of `send` succeed and the fields fit their types, mnp_sendseg returns 1, and
-- getsegToSend has the segment and its node back if their bytes do not hold "!#", and aborts if
-- they do.
pub get_segment_to_send-mnp_sendseg :
    (sends : ℕ → Bool) (a : SendSegmentArg) (rest : List ℕ)
    → Sends sends
    → a.node < 4294967296
    → IsSegment a.segment
    → let sent = mnp_sendseg sends a.node a.segment in
      (sent.0 ≡ 1)
      × (get_segment_to_send (sent.1 ++ rest)
          ≡ (if is_none (cut (encode_segment_arg a)) then got a rest else aborted))
unfolding mnp_sendseg get_segment_to_send
get_segment_to_send-mnp_sendseg sends a rest s n h =
    let bytes = encode_segment_arg a in
    let sent = send_framed_lem sends bytes s in
    (
      ap (λ t. t.0) sent,
      rw (
        sent,
        checked-frame 1492 decode_segment_arg bytes rest (length-encode_segment_arg a h),
        decode-encode_segment_arg a n h,
      ),
    )

-- What mnp_recvseg does at the end of a frame.
deliver : (ℕ → ℕ) → ℕ → Frame → Received SendSegmentArg
deliver rand k (framed p rest) =
    if length p == 1492
    then if seglost (rand k) then mnp_recvseg rand (suc k) rest else got (decode_segment_arg p) rest
    else aborted
deliver rand k closed = disconnected
deliver rand k overflow = overran

abbrev inside : Bool → State
inside true = receiving
inside false = stop1

-- Inside a frame the loop is the common one.
recvseg_from-inside :
    (rand : ℕ → ℕ) (k : ℕ) (b : Bool) (buf cs : List ℕ)
    → recvseg_from rand k (inside b) buf cs ≡ deliver rand k (read_from 1494 (inside b) buf cs)
unfolding recvseg_from read_from deliver mnp_recvseg
recvseg_from-inside rand k b buf [] = refl
recvseg_from-inside rand k true buf (c ∷ cs) = ground (
  arith,
  recvseg_from-inside rand k true (buf ++ c ∷ []) cs,
  recvseg_from-inside rand k false (buf ++ c ∷ []) cs,
)
recvseg_from-inside rand k false buf (c ∷ cs) = ground (
  arith,
  length-take (length buf - 1) buf,
  recvseg_from-inside rand k true (buf ++ c ∷ []) cs,
  recvseg_from-inside rand k false (buf ++ c ∷ []) cs,
)

opened :
    (rand : ℕ → ℕ) (k : ℕ) (cs : List ℕ)
    → mnp_recvseg rand k (b'!' ∷ b'&' ∷ cs) ≡ deliver rand k (read_frame 1492 (b'!' ∷ b'&' ∷ cs))
unfolding mnp_recvseg read_frame read_from
opened rand k cs = recvseg_from-inside rand k true [] cs

-- What comes of one segment: with `lost` telling whether seglost drops it.
abbrev pub kept : Bool → SendSegmentArg → List ℕ → Received SendSegmentArg → Received SendSegmentArg
kept lost a rest next = if lost then next else got a rest

recvseg-read_frame :
    (rand : ℕ → ℕ) (k : ℕ) (p rest : List ℕ) {f : Frame}
    → read_frame 1492 (frame p ++ rest) ≡ f
    → mnp_recvseg rand k (frame p ++ rest) ≡ deliver rand k f
recvseg-read_frame rand k p rest e =
    unfold frame in opened rand k ((p ++ b'!' ∷ b'#' ∷ []) ++ rest) ∙ ap (deliver rand k) e

recvseg-frame :
    (rand : ℕ → ℕ) (k : ℕ) (a : SendSegmentArg) (rest : List ℕ)
    → a.node < 4294967296
    → IsSegment a.segment
    → mnp_recvseg rand k (frame (encode_segment_arg a) ++ rest) ≡ (
        if is_none (cut (encode_segment_arg a))
        then kept (seglost (rand k)) a rest (mnp_recvseg rand (suc k) rest)
        else aborted)
recvseg-frame rand k a rest n h =
    let bytes = encode_segment_arg a in
    let size = length-encode_segment_arg a h in
    elim (Option-cases (cut bytes)) [
      | inl e ↦
          recvseg-read_frame rand k bytes rest (read_frame-clean 1492 bytes rest e (omega arith))
          ∙ unfold deliver in rw (e, size, decode-encode_segment_arg a n h)
      | inr ((q, r), e) ↦
          recvseg-read_frame rand k bytes rest (read_frame-dirty 1492 bytes rest e (omega arith))
          ∙ unfold deliver in rw e (ground (arith, cut_shorter bytes e))
    ]

-- When the calls of `send` succeed and the fields fit their types, forwardsegToMRT returns 1, and
-- mnp_recvseg aborts if the bytes of the segment and its node hold "!#"; if not, it has them back,
-- or, where the call of seglost drops the segment, goes on with what follows in the stream.
pub mnp_recvseg-forward_segment_to_mrt :
    (sends : ℕ → Bool) (rand : ℕ → ℕ) (k : ℕ) (a : SendSegmentArg) (rest : List ℕ)
    → Sends sends
    → a.node < 4294967296
    → IsSegment a.segment
    → let sent = forward_segment_to_mrt sends a.node a.segment in
      (sent.0 ≡ 1)
      × (mnp_recvseg rand k (sent.1 ++ rest) ≡ (
          if is_none (cut (encode_segment_arg a))
          then kept (seglost (rand k)) a rest (mnp_recvseg rand (suc k) rest)
          else aborted))
unfolding forward_segment_to_mrt
mnp_recvseg-forward_segment_to_mrt sends rand k a rest s n h =
    let bytes = encode_segment_arg a in
    let sent = send_framed_lem sends bytes s in
    (ap (λ t. t.0) sent, rw sent (recvseg-frame rand k a rest n h))

-- mnp_recvseg takes a bare '&' for the start of a frame; getsegToSend skips it.
recvseg_bare_ampersand :
    (rand : ℕ → ℕ) (k : ℕ) (cs : List ℕ)
    → (mnp_recvseg rand k (b'&' ∷ cs) ≡ mnp_recvseg rand k (b'!' ∷ b'&' ∷ cs))
      × (get_segment_to_send (b'&' ∷ cs) ≡ get_segment_to_send cs)
unfolding mnp_recvseg get_segment_to_send read_frame
recvseg_bare_ampersand rand k cs = (refl, refl)
