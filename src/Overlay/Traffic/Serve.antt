-- ===== src/Overlay/Traffic/Serve.antt =====
-- The inner loop of waitNetwork ends.
use cs.Base.{
  ℕ, zero, suc, ◌-◌, ◌<◌, ◌≢◌, List, [], ◌∷◌, ◌++◌, ok, fault, Run, and_then, length, take, arith,
  Bool, if-both, ◌==◌,
}
use cs.Wire.Layout.{Packet, SendPacketArg, decode_packet_arg}
use cs.Wire.Frame.{
  State, start1, Step, more, complete, overrun, step, Frame, framed, closed, overflow, read_from,
  read_frame,
}
use cs.Wire.Packets.{Received, got, disconnected, aborted, overran, checked, get_packet_to_send}
use cs.Topology.{Site}
use cs.Overlay.Neighbors.{NbrEntry}
use cs.Overlay.Traffic.{End, unfinished, dispatch, serve_packet, serve}

-- What a frame leaves in a stream of `n` bytes is less.
abbrev pub Leaves : ℕ → Frame → Type 0
Leaves n (framed p rest) = length rest < n
Leaves n closed = Unit
Leaves n overflow = Unit

weaken : (n : ℕ) (f : Frame) → Leaves n f → Leaves (suc n) f
weaken n (framed p rest) h = omega arith
weaken n closed h = tt
weaken n overflow h = tt

next_byte :
    (capacity : ℕ) (cs : List ℕ) (s : Step)
    → ((st : State) (buf : List ℕ) → Leaves (length cs) (read_from capacity st buf cs))
    → Leaves (suc (length cs)) (elim s [
      | more s' buf' ↦ read_from capacity s' buf' cs
      | complete buf' ↦ framed (take (length buf' - 1) buf') cs
      | overrun ↦ overflow
    ])
next_byte capacity cs (more st buf) h = weaken (length cs) (read_from capacity st buf cs) (h st buf)
next_byte capacity cs (complete buf) h = omega arith
next_byte capacity cs overrun h = tt

pub read_from-Leaves :
    (capacity : ℕ) (cs : List ℕ) (s : State) (buf : List ℕ)
    → Leaves (length cs) (read_from capacity s buf cs)
unfolding read_from
read_from-Leaves capacity [] s buf = tt
read_from-Leaves capacity (c ∷ cs) s buf =
    next_byte capacity cs (step capacity s buf c) (λ st b. read_from-Leaves capacity cs st b)

-- The same of what a receiver returns.
abbrev pub Shortens {ℓ} : {A : Type ℓ} → ℕ → Received A → Type 0
Shortens n (got a rest) = length rest < n
Shortens n disconnected = Unit
Shortens n aborted = Unit
Shortens n overran = Unit

pub checked-Shortens {ℓ} :
    {A : Type ℓ} (n size : ℕ) (decode : List ℕ → A) (f : Frame)
    → Leaves n f
    → Shortens n (checked size decode f)
unfolding checked
checked-Shortens n size decode (framed p rest) h =
    if-both (Shortens n) (length p == size) (got (decode p) rest) aborted h tt
checked-Shortens n size decode closed h = tt
checked-Shortens n size decode overflow h = tt

get_packet_to_send-Shortens : (input : List ℕ) → Shortens (length input) (get_packet_to_send input)
unfolding get_packet_to_send read_frame
get_packet_to_send-Shortens input =
    checked-Shortens (length input) 1504 decode_packet_arg (read_from 1506 start1 [] input)
      (read_from-Leaves 1506 input start1 [])

-- A run that does not end for want of fuel.
abbrev pub Ended {ℓ} : {A : Type ℓ} → Run (A × End) → Type 0
Ended (ok (a, e)) = e ≢ unfinished
Ended fault = Unit

then_next :
    (ws : List (ℕ × List ℕ)) (r : Run (List (ℕ × List ℕ) × End))
    → Ended r
    → Ended (and_then r (λ q. ok (ws ++ q.0, q.1)))
then_next ws (ok (vs, e)) h = h
then_next ws fault h = tt

then_out :
    (out : Run (List (ℕ × List ℕ))) (r : Run (List (ℕ × List ℕ) × End))
    → Ended r
    → Ended (and_then out (λ ws. and_then r (λ q. ok (ws ++ q.0, q.1))))
then_out (ok ws) r h = then_next ws r h
then_out fault r h = tt

serve_packet-Ended :
    (out : ℕ → Packet → Run (List (ℕ × List ℕ))) (next : List ℕ → Run (List (ℕ × List ℕ) × End))
    (n : ℕ) (r : Received SendPacketArg)
    → Shortens n r
    → ((rest : List ℕ) → length rest < n → Ended (next rest))
    → Ended (serve_packet out next r)
unfolding serve_packet
serve_packet-Ended out next n (got a rest) s h =
    then_out (out a.next_node a.packet) (next rest) (h rest s)
serve_packet-Ended out next n disconnected s h = λ e. cc
serve_packet-Ended out next n aborted s h = λ e. cc
serve_packet-Ended out next n overran s h = λ e. cc

-- With more fuel than there are bytes from the network process, the inner loop of waitNetwork ends by
-- itself: that process is gone, an `assert` fails, a buffer overflows, or it faults.
pub serve-Ended :
    (site : Site) (sends : ℕ → ℕ → ℕ → Bool) (t : List NbrEntry) (fuel k : ℕ) (input : List ℕ)
    → length input < fuel
    → Ended (serve site sends t fuel k input)
unfolding serve
serve-Ended site sends t zero k input h = absurd (omega arith)
serve-Ended site sends t (suc fuel) k input h =
    serve_packet-Ended (dispatch site (sends k) t) (serve site sends t fuel (suc k)) (length input)
      (get_packet_to_send input) (get_packet_to_send-Shortens input)
      (λ rest l. serve-Ended site sends t fuel (suc k) rest (omega arith))
