-- ===== src/Network/Handler/Deliver.antt =====
-- Segments from waitTransport to pkthandler.
use cs.Base.{
  ℕ, ◌≡◌, List, [], ◌∷◌, ◌==◌, if◌then◌else◌, length, some, arith, take, drop, append-nil, take_all,
  drop_all,
}
use cs.Topology.{Site, get_my_node_id}
use cs.Wire.Layout.{
  Packet, SendSegmentArg, IsSegment, encode_segment, decode-encode_segment, length-encode_segment,
}
use cs.Network.Routes.{routingtable_getnextnode}
use cs.Network.Handler.{Net, to_overlay, to_mrt, handle, handle_own, copy_in, mnp}

-- The packet that waitTransport makes of a segment.
abbrev pub packet_of : Site → SendSegmentArg → Packet
packet_of site a = record {
  header = record { src_node = get_my_node_id site; dest_node = a.node; length = 1488; type = mnp };
  payload = encode_segment a.segment;
}

copy_in_all :
    (n : ℕ) (payload old : List ℕ)
    → length payload ≡ n
    → length old ≡ n
    → copy_in n payload old ≡ payload
unfolding copy_in
copy_in_all n payload old e f =
    let front : take n payload ≡ payload = rw (← e) (take_all payload) in
    let back : drop n old ≡ [] = rw (← f) (drop_all old) in rw (front, back) (append-nil payload)

-- What one node's waitTransport makes of a segment whose fields fit their types, another node's
-- pkthandler, whose variable `segment` has its 1488 bytes, gives to its transport process, with
-- the first node's ID, if the packet is for it; if not, it passes the packet on unchanged to its
-- next hop for it, and keeps its tables.
pub handle-packet_of :
    (from at : Site) (heap : ℕ → ℕ) (net : Net) (a : SendSegmentArg)
    → IsSegment a.segment
    → length net.segment ≡ 1488
    → handle at heap net (packet_of from a) ≡ (
        if a.node == get_my_node_id at
        then some (
          record net { segment = encode_segment a.segment },
          to_mrt (get_my_node_id from) a.segment ∷ [],
        )
        else some (
          net,
          to_overlay (routingtable_getnextnode net.routing_table a.node) (packet_of from a) ∷ [],
        ))
unfolding handle handle_own
handle-packet_of from at heap net a s l = ground (
  arith,
  copy_in_all 1488 (encode_segment a.segment) net.segment,
  length-encode_segment a.segment s,
  decode-encode_segment a.segment s,
)
