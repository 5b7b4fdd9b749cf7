-- ===== src/Overlay/Traffic/Path.antt =====
-- A packet on its way from one network process to the next, and what listen_to_neighbor makes of a
-- stream.
use cs.Base.{
  ℕ, zero, suc, ◌+◌, ◌≤◌, ◌<◌, ◌≡◌, ◌≢◌, refl, ap, List, [], ◌∷◌, ◌++◌, Bool, false, is_negative,
  ok, length, take, replicate, get_elem?, drop, length-append, length-take, length-drop, none, some,
  All, arith, append-nil,
}
use cs.Wire.Layout.{Packet, SendPacketArg, IsPacket, encode_packet, encode_packet_arg}
use cs.Wire.Frame.{frame, read_frame, read_from}
use cs.Wire.Frame.Cut.{cut}
use cs.Wire.Packets.{
  got, disconnected, checked, overlay_sendpkt, overlay_recvpkt, get_packet_to_send,
  forward_packet_to_mnp, recvpkt, accept_packet,
}
use cs.Wire.Packets.RoundTrip.{
  Sends, send_framed_lem, overlay_payload, recvpkt-frame, get_packet_to_send-overlay_sendpkt,
  overlay_recvpkt-forward_packet_to_mnp,
}
use cs.Topology.{Site}
use cs.Overlay.Neighbors.{NbrEntry}
use cs.Overlay.Neighbors.Laws.{IsTable}
use cs.Overlay.Traffic.{
  broadcast_node, gone, dispatch, serve_packet, serve, received, forward_round, listen_rounds,
}
use cs.Overlay.Traffic.Dispatch.{wire, dispatch_one}

-- A packet that recvpkt reads as it was sent.
pub record IsClean (p : Packet) : Type 0 where
  pub packet : IsPacket p
  pub fits : p.header.length ≤ 1488
  pub clean : cut (take (12 + p.header.length) (encode_packet p)) ≡ none

abbrev pub wires : List Packet → List ℕ
wires [] = []
wires (p ∷ ps) = wire p ++ wires ps

-- The packets that listen_to_neighbor has in `pkt` one after the other, each over the last.
abbrev pub heard : Packet → List Packet → List Packet
heard old [] = []
heard old (p ∷ ps) = overlay_payload old p ∷ heard (overlay_payload old p) ps

abbrev pub last_heard : Packet → List Packet → Packet
last_heard old [] = old
last_heard old (p ∷ ps) = last_heard (overlay_payload old p) ps

abbrev pub frames : List Packet → List (List ℕ)
frames [] = []
frames (p ∷ ps) = frame (encode_packet p) ∷ frames ps

forwarded :
    (sends : ℕ → Bool) (p : Packet)
    → Sends sends
    → (forward_packet_to_mnp sends p).1 ≡ frame (encode_packet p)
unfolding forward_packet_to_mnp
forwarded sends p s = ap (λ r. r.1) (send_framed_lem sends (encode_packet p) s)

recvpkt-clean :
    (old p : Packet) (rest : List ℕ)
    → IsClean p
    → recvpkt old (wire p ++ rest) ≡ got (overlay_payload old p) rest
recvpkt-clean old p rest c = rw (recvpkt-frame old p rest c.packet c.fits, c.clean)

recvpkt-nil : (old : Packet) → recvpkt old [] ≡ disconnected
unfolding recvpkt read_frame read_from accept_packet
recvpkt-nil old = refl

-- One more round, with what is read in it.
listen_round :
    (sends : ℕ → ℕ → Bool) (n k : ℕ) (old p : Packet) (input rest : List ℕ) {ws : List (List ℕ)}
    → Sends (sends k)
    → received old (recvpkt old input) ≡ some (p, rest)
    → listen_rounds sends n (suc k) p rest ≡ ok ws
    → listen_rounds sends (suc n) k old input ≡ ok (frame (encode_packet p) ∷ ws)
unfolding listen_rounds forward_round
listen_round sends n k old p input rest s e f = rw (e, f, forwarded (sends k) p s)

listen_ended :
    (sends : ℕ → ℕ → Bool) (n k : ℕ) (old : Packet)
    → ((j : ℕ) → Sends (sends j))
    → listen_rounds sends n k old [] ≡ ok (replicate n (frame (encode_packet old)))
listen_ended sends zero k old all = unfold listen_rounds in refl
listen_ended sends (suc n) k old all =
    listen_round sends n k old old [] [] (all k) (rw (recvpkt-nil old) (unfold received in refl))
      (listen_ended sends n (suc k) old all)

-- When the calls of `send` succeed, and a neighbour sends packets whose fields fit their types and
-- whose bytes do not hold "!#", and then closes the connection, listen_to_neighbor forwards each of them to the network process, in
-- order, its data over those before it, and then the last one again in every further round.
pub listen_rounds-wires :
    (sends : ℕ → ℕ → Bool) (n k : ℕ) (old : Packet) (ps : List Packet)
    → ((j : ℕ) → Sends (sends j))
    → All IsClean ps
    → listen_rounds sends (length ps + n) k old (wires ps)
      ≡ ok (frames (heard old ps) ++ replicate n (frame (encode_packet (last_heard old ps))))
listen_rounds-wires sends n k old [] all clean =
    let e : 0 + n ≡ n = omega arith in rw e (listen_ended sends n k old all)
listen_rounds-wires sends n k old (p ∷ ps) all clean =
    let e : suc (length ps) + n ≡ suc (length ps + n) = omega arith in
    let now = overlay_payload old p in
    rw e (
      listen_round sends (length ps + n) k old now (wire p ++ wires ps) (wires ps) (all k)
        (rw (recvpkt-clean old p (wires ps) clean.0) (unfold received in refl))
        (listen_rounds-wires sends n (suc k) now ps all clean.1))

overlay_payload-IsPacket :
    (old p : Packet)
    → IsPacket old
    → IsPacket p
    → p.header.length ≤ 1488
    → IsPacket (overlay_payload old p)
unfolding overlay_payload
overlay_payload-IsPacket old p ho hp fits = record {
  src_fits = hp.src_fits;
  dest_fits = hp.dest_fits;
  length_fits = hp.length_fits;
  type_fits = hp.type_fits;
  payload_len =
      let l = p.header.length in
      omega (
        arith,
        length-append (take l p.payload) (drop l old.payload),
        length-take l p.payload,
        length-drop l old.payload,
        hp.payload_len,
        ho.payload_len,
      );
}

-- One packet from the network process, which then closes the connection.
serve_one :
    (site : Site) (sends : ℕ → ℕ → ℕ → Bool) (t : List NbrEntry) (n next : ℕ) (pkt : Packet)
    (input : List ℕ) {ws : List (ℕ × List ℕ)}
    → get_packet_to_send input ≡ got (record { next_node = next; packet = pkt }) []
    → dispatch site (sends 0) t next pkt ≡ ok ws
    → serve site sends t (suc (suc n)) 0 input ≡ ok (ws, gone)
unfolding serve serve_packet
serve_one site sends t n next pkt input {ws} e f = rw (e, f, get_packet_to_send-nil, append-nil ws)
  where
    get_packet_to_send-nil : get_packet_to_send [] ≡ disconnected
    get_packet_to_send-nil = unfold get_packet_to_send read_frame read_from checked in refl

-- When the calls of `send` succeed, the fields fit their types, no frame's bytes hold "!#" and all
-- neighbours are connected, a packet that the network process of one node gives to overlay_sendpkt
-- for a neighbour, whose ID is not that of broadcasts, is written to that neighbour's connection
-- alone, and the neighbour's network process has it from overlay_recvpkt with the same header and
-- data, over what the neighbour's structure held.
pub overlay_recvpkt-overlay_sendpkt :
    (site : Site) (t : List NbrEntry) (i n : ℕ) (e : NbrEntry) (old pkt : Packet) (gives : ℕ → Bool)
    (sends : ℕ → ℕ → ℕ → Bool) (forwards : ℕ → ℕ → Bool)
    → IsTable site t
    → Sends gives
    → ((k j : ℕ) → Sends (sends k j))
    → ((k : ℕ) → Sends (forwards k))
    → get_elem? t i ≡ some e
    → e.node ≢ broadcast_node
    → e.node < 4294967296
    → All (λ f. is_negative f.conn ≡ false) t
    → IsPacket old
    → IsClean pkt
    → cut (encode_packet_arg (record { next_node = e.node; packet = pkt })) ≡ none
    → cut (encode_packet (overlay_payload old pkt)) ≡ none
    → (serve site sends t (suc (suc n)) 0 (overlay_sendpkt gives e.node pkt).1
        ≡ ok ((e.conn, wire pkt) ∷ [], gone))
      × (bytes : List ℕ) × (listen_rounds forwards 1 0 old (wire pkt) ≡ ok (bytes ∷ []))
      × (overlay_recvpkt bytes ≡ got (overlay_payload old pkt) [])
overlay_recvpkt-overlay_sendpkt site t i n e old pkt gives sends forwards v g s f at one small up ho
      hp c1 c2 =
    let arg : SendPacketArg = record { next_node = e.node; packet = pkt } in
    let now = overlay_payload old pkt in
    let asked = get_packet_to_send-overlay_sendpkt gives arg [] g small hp.packet in
    let came : get_packet_to_send (overlay_sendpkt gives e.node pkt).1 ≡ got arg [] =
      rw (append-nil (overlay_sendpkt gives e.node pkt).1, c1) at asked.1 in
    let out = (dispatch_one site (sends 0) t i e pkt v (s 0) hp.fits at one up).0 in
    let heard_it : recvpkt old (wire pkt) ≡ got now [] =
      rw (append-nil (wire pkt)) at (recvpkt-clean old pkt [] hp) in
    let there =
      overlay_recvpkt-forward_packet_to_mnp (forwards 0) now [] (f 0)
        (overlay_payload-IsPacket old pkt ho hp.packet hp.fits) in
    (
      serve_one site sends t n e.node pkt (overlay_sendpkt gives e.node pkt).1 came out,
      frame (encode_packet now),
      listen_round forwards 0 0 old now (wire pkt) [] (f 0) (rw heard_it (unfold received in refl))
          (unfold listen_rounds in refl),
      rw
          (
            append-nil (forward_packet_to_mnp (forwards 0) now).1,
            forwarded (forwards 0) now (f 0),
            c2,
          )
          at there.1,
    )
