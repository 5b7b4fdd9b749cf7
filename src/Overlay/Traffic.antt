-- ===== src/Overlay/Traffic.antt =====
-- lab4/overlay/overlay.c: packets from the network process to the neighbours, and back.
pub mod Serve
pub mod Dispatch
pub mod Path
use cs.Base.{
  ℕ, zero, suc, ◌+◌, List, [], ◌∷◌, ◌++◌, Bool, not, ◌&&◌, ◌==◌, is_negative, if◌then◌else◌, Option,
  none, some, Run, ok, fault, and_then,
}
use cs.Wire.Layout.{Packet, SendPacketArg}
use cs.Wire.Packets.{
  Received, got, disconnected, aborted, overran, sendpkt, get_packet_to_send, recvpkt,
  forward_packet_to_mnp,
}
use cs.Topology.{Site, get_nbr_num}
use cs.Overlay.Neighbors.{NbrEntry, rounds}

-- BROADCAST_NODEID
abbrev pub broadcast_node : ℕ
broadcast_node = 9999

-- Whether waitNetwork sends a packet with this next hop to a neighbour.
unfoldable pub goes_to : ℕ → NbrEntry → Bool
goes_to next e =
    if next == broadcast_node
    then not (is_negative e.conn)
    else e.node == next && not (is_negative e.conn)

-- A call of sendpkt, in front of what else is written; `none` is a read past the packet.
unfoldable pub written : ℕ → Option (ℕ × List ℕ) → Run (List (ℕ × List ℕ)) → Run (List (ℕ × List ℕ))
written conn none rest = fault
written conn (some (value, bytes)) rest = and_then rest (λ ws. ok ((conn, bytes) ∷ ws))

-- The loops of waitNetwork over the table, with `n` entries left: the bytes written to each
-- connection. `sends i` tells which of the calls of `send` for entry `i` succeed.
unfoldable pub dispatch_from :
    (ℕ → ℕ → Bool) → ℕ → Packet → ℕ → ℕ → List NbrEntry → Run (List (ℕ × List ℕ))
dispatch_from sends next pkt zero i es = ok []
dispatch_from sends next pkt (suc n) i [] = fault
dispatch_from sends next pkt (suc n) i (e ∷ es) =
    let rest = dispatch_from sends next pkt n (suc i) es in
    if goes_to next e then written e.conn (sendpkt (sends i) pkt) rest else rest

unfoldable pub dispatch :
    Site → (ℕ → ℕ → Bool) → List NbrEntry → ℕ → Packet → Run (List (ℕ × List ℕ))
dispatch site sends t next pkt = dispatch_from sends next pkt (rounds (get_nbr_num site)) 0 t

-- How the inner loop of waitNetwork ends: the network process is gone, an `assert` of getpktToSend
-- fails, it writes past its buffer, or the fuel is used up.
pub data End : Type 0 where
  gone assertion past_buffer unfinished : End

-- What a round of the inner loop of waitNetwork does with what getpktToSend gives.
unfoldable pub serve_packet :
    (ℕ → Packet → Run (List (ℕ × List ℕ)))
    → (List ℕ → Run (List (ℕ × List ℕ) × End))
    → Received SendPacketArg
    → Run (List (ℕ × List ℕ) × End)
serve_packet out next disconnected = ok ([], gone)
serve_packet out next aborted = ok ([], assertion)
serve_packet out next overran = ok ([], past_buffer)
serve_packet out next (got arg rest) =
    and_then (out arg.next_node arg.packet) (λ ws. and_then (next rest) (λ r. ok (ws ++ r.0, r.1)))

-- The inner loop of waitNetwork over the bytes from the network process, from round `k` on.
unfoldable pub serve :
    Site → (ℕ → ℕ → ℕ → Bool) → List NbrEntry → ℕ → ℕ → List ℕ → Run (List (ℕ × List ℕ) × End)
serve site sends t zero k input = ok ([], unfinished)
serve site sends t (suc fuel) k input =
    serve_packet (dispatch site (sends k) t) (serve site sends t fuel (suc k))
      (get_packet_to_send input)

-- What recvpkt leaves in `pkt`, and in the stream; it returns 1 or -1, and both are true. `none` is
-- a write past its buffer.
unfoldable pub received : Packet → Received Packet → Option (Packet × List ℕ)
received old (got p rest) = some (p, rest)
received old disconnected = some (old, [])
received old aborted = none
received old overran = none

-- A round of listen_to_neighbor after recvpkt.
unfoldable pub forward_round :
    (ℕ → Bool)
    → (Packet → List ℕ → Run (List (List ℕ)))
    → Option (Packet × List ℕ)
    → Run (List (List ℕ))
forward_round sends next none = fault
forward_round sends next (some (p, rest)) =
    and_then (next p rest) (λ ws. ok ((forward_packet_to_mnp sends p).1 ∷ ws))

-- `n` rounds of listen_to_neighbor: the bytes that are written to the network process. `sends k`
-- tells which of the calls of `send` in round `k` succeed.
unfoldable pub listen_rounds : (ℕ → ℕ → Bool) → ℕ → ℕ → Packet → List ℕ → Run (List (List ℕ))
listen_rounds sends zero k old input = ok []
listen_rounds sends (suc n) k old input =
    forward_round (sends k) (listen_rounds sends n (suc k)) (received old (recvpkt old input))
