-- ===== src/Lab2/Segments.antt =====
-- lab2/common/seg.c: segments over one TCP connection, in frames of their full size.
pub mod RoundTrip
use cs.Base.{ℕ, suc, ◌+◌, ◌-◌, ◌%◌, List, [], ◌∷◌, ◌++◌, Bool, true, false, ltb, length, take, drop}
use cs.Wire.Frame.{State, start1, Step, more, complete, overrun, step}
use cs.Wire.Layout.{Segment, encode_segment, decode_segment}
use cs.Wire.Packets.{Received, got, disconnected, overran, send_framed}

unfoldable pub mnp_sendseg : (ℕ → Bool) → Segment → ℕ × List ℕ
unfolding send_framed
mnp_sendseg sends seg = send_framed sends (encode_segment seg)

-- `rand() % 100 < PKT_LOSS_RATE * 100`, for the value that `rand` returned.
unfoldable pub seglost : ℕ → Bool
seglost random = ltb (random % 100) 10

-- The array `buf` when `written` is written from its start on.
unfoldable pub over : List ℕ → List ℕ → List ℕ
over written block = written ++ drop (length written) block

-- The loop. `block` is the array as the last frame left it, `buf` what is written over its start
-- since; the closing '#' is written too. The copy takes 1,488 bytes of the array, however many are
-- written. `rand k` is what call number `k` of `rand` returns; a lost segment restarts the machine.
unfoldable pub recvseg_from : (ℕ → ℕ) → ℕ → List ℕ → State → List ℕ → List ℕ → Received Segment
unfolding step seglost
recvseg_from rand k block s buf [] = disconnected
recvseg_from rand k block s buf (c ∷ cs) = elim (step 1490 s buf c) [
  | more s' buf' ↦ recvseg_from rand k block s' buf' cs
  | overrun ↦ overran
  | complete buf' ↦
      let block' = over (buf' ++ c ∷ []) block in
      elim (seglost (rand k)) [
        | true ↦ recvseg_from rand (suc k) block' start1 [] cs
        | false ↦ got (decode_segment (take 1488 block')) cs
      ]
]

-- `block` is the array before the call, which nothing initialises.
unfoldable pub mnp_recvseg : (ℕ → ℕ) → ℕ → List ℕ → List ℕ → Received Segment
unfolding recvseg_from
mnp_recvseg rand k block input = recvseg_from rand k block start1 [] input
