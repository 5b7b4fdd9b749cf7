-- ===== src/Lab2/Segments/RoundTrip.antt =====
-- What mnp_recvseg makes of what mnp_sendseg wrote.
use cs.Base.{
  Bool-cases, ℕ, suc, ◌-◌, ◌≡◌, refl, ap, ◌∙◌, inl, inr, Option-cases, List, [], ◌∷◌, ◌++◌, Bool,
  true, false, ◌==◌, if◌then◌else◌, length, arith, take, drop, Option, some, none, take_front,
  append_assoc, length-append,
}
use cs.Wire.Frame.{
  State, Frame, framed, closed, overflow, receiving, stop1, read_from, read_frame, frame,
}
use cs.Wire.Frame.Cut.{cut}
use cs.Wire.Layout.{
  Segment, IsSegment, encode_segment, decode_segment, decode-encode_segment, length-encode_segment,
}
use cs.Wire.Packets.{Received, got, disconnected, overran}
use cs.Wire.Packets.RoundTrip.{Sends, send_framed_lem, read_frame-clean, read_frame-dirty}
use cs.Lab2.Segments.{mnp_sendseg, seglost, over, recvseg_from, mnp_recvseg}

-- The array when a frame of `p` is complete.
abbrev pub framed_over : List ℕ → List ℕ → List ℕ
framed_over p block = over (p ++ b'!' ∷ b'#' ∷ []) block

-- What the call does at the end of a frame.
deliver : (ℕ → ℕ) → ℕ → List ℕ → Frame → Received Segment
deliver rand k block (framed p rest) =
    if seglost (rand k)
    then mnp_recvseg rand (suc k) (framed_over p block) rest
    else got (decode_segment (take 1488 (framed_over p block))) rest
deliver rand k block closed = disconnected
deliver rand k block overflow = overran

-- What is written in a frame, before and behind a '!'.
abbrev inside : Bool → State
inside true = receiving
inside false = stop1

abbrev written : Bool → List ℕ → List ℕ
written true p = p
written false p = p ++ b'!' ∷ []

without_last : (p : List ℕ) → take (length (p ++ b'!' ∷ []) - 1) (p ++ b'!' ∷ []) ≡ p
without_last p = take_front p (b'!' ∷ []) (omega (arith, length-append p (b'!' ∷ [])))

-- The byte that ends a frame.
closing :
    (rand : ℕ → ℕ) (k : ℕ) (block p cs : List ℕ)
    → recvseg_from rand k block stop1 (p ++ b'!' ∷ []) (b'#' ∷ cs)
      ≡ deliver rand k block (read_from 1490 stop1 (p ++ b'!' ∷ []) (b'#' ∷ cs))
unfolding recvseg_from read_from deliver mnp_recvseg
closing rand k block p cs =
    let last : (p ++ b'!' ∷ []) ++ b'#' ∷ [] ≡ p ++ b'!' ∷ b'#' ∷ [] =
      append_assoc p (b'!' ∷ []) (b'#' ∷ []) in
    ground (arith, last, without_last p)

-- Inside a frame the loop is the common one.
recvseg_from-inside :
    (rand : ℕ → ℕ) (k : ℕ) (block : List ℕ) (b : Bool) (p cs : List ℕ)
    → recvseg_from rand k block (inside b) (written b p) cs
      ≡ deliver rand k block (read_from 1490 (inside b) (written b p) cs)
unfolding recvseg_from read_from deliver mnp_recvseg
recvseg_from-inside rand k block b p [] = refl
recvseg_from-inside rand k block true p (c ∷ cs) = ground (
  arith,
  recvseg_from-inside rand k block true (p ++ c ∷ []) cs,
  recvseg_from-inside rand k block false p cs,
)
recvseg_from-inside rand k block false p (c ∷ cs) =
    let held : List ℕ = p ++ b'!' ∷ [] in
    elim (Bool-cases (c == b'#')) [
      | inl e ↦ let same : c ≡ b'#' = ground arith in rw same (closing rand k block p cs)
      | inr e ↦ ground (
        arith,
        recvseg_from-inside rand k block true (held ++ c ∷ []) cs,
        recvseg_from-inside rand k block false held cs,
      )
    ]

opened :
    (rand : ℕ → ℕ) (k : ℕ) (block cs : List ℕ)
    → mnp_recvseg rand k block (b'!' ∷ b'&' ∷ cs)
      ≡ deliver rand k block (read_frame 1488 (b'!' ∷ b'&' ∷ cs))
unfolding mnp_recvseg read_frame read_from recvseg_from
opened rand k block cs = recvseg_from-inside rand k block true [] cs

recvseg-read_frame :
    (rand : ℕ → ℕ) (k : ℕ) (block p rest : List ℕ) {f : Frame}
    → read_frame 1488 (frame p ++ rest) ≡ f
    → mnp_recvseg rand k block (frame p ++ rest) ≡ deliver rand k block f
recvseg-read_frame rand k block p rest e =
    unfold frame in
    opened rand k block ((p ++ b'!' ∷ b'#' ∷ []) ++ rest) ∙ ap (deliver rand k block) e

-- What comes of one segment, given the cut of its bytes: with `lost` telling whether seglost drops
-- it.
abbrev pub heard :
    (ℕ → ℕ) → ℕ → List ℕ → Segment → List ℕ → Option (List ℕ × List ℕ) → Received Segment
heard rand k block seg rest none =
    if seglost (rand k)
    then mnp_recvseg rand (suc k) (framed_over (encode_segment seg) block) rest
    else got seg rest
heard rand k block seg rest (some (q, r)) =
    let more = r ++ b'!' ∷ b'#' ∷ rest in
    if seglost (rand k)
    then mnp_recvseg rand (suc k) (framed_over q block) more
    else got (decode_segment (take 1488 (framed_over q block))) more

copied_whole : (p block : List ℕ) → length p ≡ 1488 → take 1488 (framed_over p block) ≡ p
unfolding over
copied_whole p block h =
    ap (take 1488) (append_assoc p (b'!' ∷ b'#' ∷ []) (drop (length (p ++ b'!' ∷ b'#' ∷ [])) block))
    ∙ take_front p (b'!' ∷ b'#' ∷ drop (length (p ++ b'!' ∷ b'#' ∷ [])) block) h

-- When the calls of `send` succeed and the fields fit their types, mnp_sendseg returns 1, and
-- mnp_recvseg, whatever its array held before, has the segment back if its bytes do not hold "!#";
-- if they do, it takes for the segment the bytes before the first "!#", the "!#" and what its array
-- held behind them, without an error, and the rest of the segment is left in the stream. Where the
-- call of seglost drops the segment, it goes on with what follows in the stream.
pub mnp_recvseg-mnp_sendseg :
    (sends : ℕ → Bool) (rand : ℕ → ℕ) (k : ℕ) (block : List ℕ) (seg : Segment) (rest : List ℕ)
    → Sends sends
    → IsSegment seg
    → let sent = mnp_sendseg sends seg in
      (sent.0 ≡ 1)
      × (mnp_recvseg rand k block (sent.1 ++ rest)
          ≡ heard rand k block seg rest (cut (encode_segment seg)))
unfolding mnp_sendseg
mnp_recvseg-mnp_sendseg sends rand k block seg rest s h =
    let bytes = encode_segment seg in
    let sent = send_framed_lem sends bytes s in
    let size = length-encode_segment seg h in
    (
      ap (λ t. t.0) sent,
      rw sent (elim (Option-cases (cut bytes)) [
        | inl e ↦
            recvseg-read_frame rand k block bytes rest
              (read_frame-clean 1488 bytes rest e (omega (arith, size)))
            ∙ unfold deliver in rw (e, copied_whole bytes block size, decode-encode_segment seg h)
        | inr ((q, r), e) ↦
            recvseg-read_frame rand k block bytes rest
              (read_frame-dirty 1488 bytes rest e (omega (arith, size)))
            ∙ unfold deliver in rw e
      ]),
    )
