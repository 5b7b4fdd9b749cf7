-- ===== src/Lab3/Network/Receive.antt =====
-- What pkthandler of lab3 receives.
use cs.Base.{ℕ, zero, suc, ◌<◌, ◌≡◌, ◌≢◌, refl, List, [], ◌∷◌, ◌++◌, Bool, length, none, All, arith}
use cs.Wire.Layout.{Packet, IsPacket, encode_packet, decode_packet}
use cs.Wire.Frame.{start1, read_from, read_frame}
use cs.Wire.Frame.Cut.{cut}
use cs.Wire.Packets.{
  Received, got, disconnected, aborted, overran, checked, overlay_recvpkt, forward_packet_to_mnp,
}
use cs.Wire.Packets.RoundTrip.{Sends, overlay_recvpkt-forward_packet_to_mnp}
use cs.Overlay.Traffic.{End, gone, unfinished}
use cs.Overlay.Traffic.Serve.{Shortens, checked-Shortens, read_from-Leaves}
use cs.Lab3.Network.{received_one, pkthandler}

overlay_recvpkt-Shortens : (input : List ℕ) → Shortens (length input) (overlay_recvpkt input)
unfolding overlay_recvpkt read_frame
overlay_recvpkt-Shortens input =
    checked-Shortens (length input) 1500 decode_packet (read_from 1502 start1 [] input)
      (read_from-Leaves 1502 input start1 [])

received_one-ended :
    (next : List ℕ → List Packet × End) (n : ℕ) (r : Received Packet)
    → Shortens n r
    → ((rest : List ℕ) → length rest < n → (next rest).1 ≢ unfinished)
    → (received_one next r).1 ≢ unfinished
unfolding received_one
received_one-ended next n (got p rest) s h = h rest s
received_one-ended next n disconnected s h = λ e. cc
received_one-ended next n aborted s h = λ e. cc
received_one-ended next n overran s h = λ e. cc

-- With more fuel than there are bytes, the loop of pkthandler ends by itself.
pkthandler_ends :
    (fuel : ℕ) (input : List ℕ) → length input < fuel → (pkthandler fuel input).1 ≢ unfinished
unfolding pkthandler
pkthandler_ends zero input h = absurd (omega arith)
pkthandler_ends (suc fuel) input h =
    received_one-ended (pkthandler fuel) (length input) (overlay_recvpkt input)
      (overlay_recvpkt-Shortens input) (λ rest l. pkthandler_ends fuel rest (omega arith))

-- What the overlay process writes for some packets, one forwardpktToMNP after the other.
abbrev pub forwarded : (ℕ → Bool) → List Packet → List ℕ
forwarded sends [] = []
forwarded sends (p ∷ ps) = (forward_packet_to_mnp sends p).1 ++ forwarded sends ps

-- A packet whose fields fit their types and whose bytes do not hold "!#".
abbrev pub IsClean : Packet → Type 0
IsClean p = IsPacket p × (cut (encode_packet p) ≡ none)

hears_every :
    (sends : ℕ → Bool) (ps : List Packet) (fuel : ℕ)
    → Sends sends
    → All IsClean ps
    → length ps < fuel
    → pkthandler fuel (forwarded sends ps) ≡ (ps, gone)
unfolding pkthandler received_one
hears_every sends ps zero s h l = absurd (omega arith)
hears_every sends [] (suc fuel) s h l = unfold overlay_recvpkt read_frame read_from checked in refl
hears_every sends (p ∷ ps) (suc fuel) s h l =
    let (value, came) =
      overlay_recvpkt-forward_packet_to_mnp sends p (forwarded sends ps) s h.0.0 in
    let rest = hears_every sends ps fuel s h.1 (omega arith) in rw (came, h.0.1, rest) refl

-- pkthandler receives every packet that the overlay process forwards with forwardpktToMNP, its calls
-- of `send` succeeding, the fields fitting their types and the bytes not holding "!#", once and in
-- their order, and ends when the overlay process is gone; and with more fuel than there are bytes,
-- it ends by itself on every stream.
pub pkthandler-forwarded :
    (sends : ℕ → Bool) (ps : List Packet) (fuel : ℕ)
    → Sends sends
    → All IsClean ps
    → length ps < fuel
    → (pkthandler fuel (forwarded sends ps) ≡ (ps, gone))
      × ((fuel : ℕ) (input : List ℕ) → length input < fuel → (pkthandler fuel input).1 ≢ unfinished)
pkthandler-forwarded sends ps fuel s h l = (hears_every sends ps fuel s h l, pkthandler_ends)
