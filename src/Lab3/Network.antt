-- ===== src/Lab3/Network.antt =====
-- lab3/network/network.c: a network process that broadcasts empty route updates and only receives.
pub mod Receive
use cs.Base.{ℕ, zero, suc, List, [], ◌∷◌, ◌++◌, Bool, is_negative, if◌then◌else◌, drop, minus_one}
use cs.Topology.{Site, get_my_node_id}
use cs.Wire.Layout.{Packet}
use cs.Wire.Packets.{
  Received, got, disconnected, aborted, overran, overlay_sendpkt, overlay_recvpkt,
}
use cs.Network.Update.{encode_update}
use cs.Overlay.Traffic.{broadcast_node, End, gone, assertion, past_buffer, unfinished}

-- connectToOverlay: whether `connect` succeeds on the descriptor of `socket`, which is not tested.
unfoldable pub connect_to_overlay : ℕ → Bool → ℕ
connect_to_overlay socket connects = if connects then socket else minus_one

-- The loop of pkthandler: what has been received, and how it ends. When the overlay process is
-- gone, the connection is closed and overlay_conn is -1.
unfoldable pub received_one : (List ℕ → List Packet × End) → Received Packet → List Packet × End
received_one next disconnected = ([], gone)
received_one next aborted = ([], assertion)
received_one next overran = ([], past_buffer)
received_one next (got p rest) = let (ps, e) = next rest in (p ∷ ps, e)

unfoldable pub pkthandler : ℕ → List ℕ → List Packet × End
pkthandler zero input = ([], unfinished)
pkthandler (suc fuel) input = received_one (pkthandler fuel) (overlay_recvpkt input)

-- The packet of routeupdate_daemon; `old` is what its array of data holds.
unfoldable pub update_packet : Site → List ℕ → Packet
update_packet site old = record {
  header = record {
    src_node = get_my_node_id site;
    dest_node = broadcast_node;
    length = 84;
    type = 1;
  };
  payload = encode_update [] ++ drop 84 old;
}

-- A round of routeupdate_daemon: the bytes that are sent, and the descriptors that are closed. The
-- loop goes on with a closed descriptor.
unfoldable pub daemon_round : Site → (ℕ → Bool) → ℕ → List ℕ → List ℕ × List ℕ
daemon_round site sends overlay_conn old =
    let (value, bytes) = overlay_sendpkt sends broadcast_node (update_packet site old) in
    (bytes, if is_negative value then overlay_conn ∷ [] else [])
