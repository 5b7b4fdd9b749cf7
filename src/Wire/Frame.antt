-- ===== src/Wire/Frame.antt =====
-- The receiving state machine of lab4/common/pkt.c and seg.c, over a stream of bytes.
pub mod Cut
use cs.Base.{ℕ, ◌+◌, ◌-◌, List, [], ◌∷◌, ◌++◌, ◌==◌, ltb, if◌then◌else◌, length, take}

-- PKTSTART1, PKTSTART2, PKTRECV, PKTSTOP1
pub data State : Type 0 where
  start1 start2 receiving stop1 : State

-- What one byte does: the loop goes on in a state with the bytes of `buf` so far, the closing
-- delimiter is complete, or `buf[idx]` is a write past the end of the buffer.
pub data Step : Type 0 where
  more : State → List ℕ → Step
  complete : List ℕ → Step
  overrun : Step

-- `buf[idx] = c; idx++; state = s`. `buf` holds the bytes written, so `idx` is its length.
unfoldable pub put : ℕ → State → List ℕ → ℕ → Step
put capacity s buf c = if ltb (length buf) capacity then more s (buf ++ c ∷ []) else overrun

-- The body of the `switch`.
unfoldable pub step : ℕ → State → List ℕ → ℕ → Step
unfolding put
step capacity start1 buf c = if c == b'!' then more start2 buf else more start1 buf
step capacity start2 buf c = if c == b'&' then more receiving buf else more start1 buf
step capacity receiving buf c =
    if c == b'!' then put capacity stop1 buf c else put capacity receiving buf c
step capacity stop1 buf c =
    if c == b'#'
    then if ltb (length buf) capacity then complete buf else overrun
    else if c == b'!'
    then put capacity stop1 buf c
    else put capacity receiving buf c

-- How the loop ends: a framed payload (the first `idx - 1` bytes of `buf`) with what is left in
-- the stream, the end of the stream (`recv` returned 0 or less), or a write past the buffer.
pub data Frame : Type 0 where
  framed : List ℕ → List ℕ → Frame
  closed : Frame
  overflow : Frame

-- `while (recv(conn, &c, 1, 0) > 0) switch (state) ...`
unfoldable pub read_from : ℕ → State → List ℕ → List ℕ → Frame
unfolding step
read_from capacity s buf [] = closed
read_from capacity s buf (c ∷ cs) = elim (step capacity s buf c) [
  | more s' buf' ↦ read_from capacity s' buf' cs
  | complete buf' ↦ framed (take (length buf' - 1) buf') cs
  | overrun ↦ overflow
]

-- The whole loop, with the buffer of `size + 2` bytes that each receiver has.
unfoldable pub read_frame : ℕ → List ℕ → Frame
unfolding read_from
read_frame size input = read_from (size + 2) start1 [] input

-- What each sender writes round its bytes.
unfoldable pub frame : List ℕ → List ℕ
frame payload = b'!' ∷ b'&' ∷ (payload ++ b'!' ∷ b'#' ∷ [])
