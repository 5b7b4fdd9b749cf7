-- ===== src/Tests/Stack.antt =====
-- A segment from "ada" to "cyd", over "bob".
use cs.Base.{ℕ, ◌+◌, ◌*◌, ◌≡◌, refl, List, [], ◌∷◌, some, arith, replicate, length-replicate}
use cs.Topology.{Line, Site, get_my_node_id, get_node_id_from_name, get_nbr_num, other_ends}
use cs.Topology.Laws.{get_nbr_num_lem}
use cs.Wire.Layout.{
  Packet, SendSegmentArg, IsPacket, encode_segment, encode_segment_arg, encode_packet,
  encode_packet_arg,
}
use cs.Wire.Frame.Cut.{cut}
use cs.Wire.Packets.{got}
use cs.Wire.Segments.{
  mnp_sendseg, forward_segment_to_mrt, get_segment_to_send, mnp_recvseg, seglost,
}
use cs.Network.Routes.{
  Routes, routingtable_getnextnode, hashtable_find, set_find, chain_find, makehash,
}
use cs.Network.Handler.{Net, to_overlay, to_mrt, handle, wait_transport}
use cs.Network.Handler.Deliver.{packet_of}
use cs.Overlay.Neighbors.{NbrEntry, get_node_id_from_ip}
use cs.Overlay.Neighbors.Laws.{IsTable}
use cs.Stack.Hop.{Node, id_of, IsLinked, IsQuiet}
use cs.Stack.Journey.{Route, direct, via, Journey, segment_arrives}
use cs.Tests.Data.{
  all_sent, all_sent-Sends, small_packet, small_packet-IsPacket, link, site_of, two_bytes,
  two_bytes-IsSegment,
}

abbrev other_link : Line
other_link = record { host1 = "bob"; host2 = "cyd"; link_cost = 7 }

abbrev entry : ℕ → ℕ → NbrEntry
entry node conn = record { node = node; ip = 43649 + 16777216 * node; conn = conn }

-- All routes from "ada" and "cyd" go over "bob".
abbrev routes_of : ℕ → ℕ → Routes
routes_of one three =
    []
    ∷ (record { dest = 1; next = one } ∷ [])
    ∷ (record { dest = 2; next = 2 } ∷ [])
    ∷ (record { dest = 3; next = three } ∷ [])
    ∷ replicate 6 []

abbrev net_of : Routes → Net
net_of routes = record {
  nbr_cost_table = [];
  dv_table = [];
  routing_table = routes;
  pkt_update = replicate 84 0;
  segment = replicate 1488 0;
}

abbrev node_of : Site → List NbrEntry → Routes → Node
node_of site nbrs routes = record {
  site = site;
  nbrs = nbrs;
  held = small_packet;
  net = net_of routes;
}

abbrev ada : Node
ada = node_of (site_of "ada" (link ∷ other_link ∷ [])) (entry 2 4 ∷ []) (routes_of 2 2)

abbrev bob : Node
bob = node_of (site_of "bob" (link ∷ other_link ∷ [])) (entry 1 4 ∷ entry 3 5 ∷ []) (routes_of 1 3)

abbrev cyd : Node
cyd = node_of (site_of "cyd" (link ∷ other_link ∷ [])) (entry 2 6 ∷ []) (routes_of 2 2)

abbrev arg : SendSegmentArg
arg = record { node = 3; segment = two_bytes }

abbrev packet : Packet
packet = packet_of ada.site arg

packet-IsPacket : IsPacket packet
unfolding get_my_node_id encode_segment
packet-IsPacket = record {
  src_fits = omega arith;
  dest_fits = omega arith;
  length_fits = omega arith;
  type_fits = omega arith;
  payload_len = refl;
}

ada_nbr_num : get_nbr_num ada.site ≡ 1
unfolding other_ends get_node_id_from_name get_my_node_id
ada_nbr_num = get_nbr_num_lem ada.site refl

bob_nbr_num : get_nbr_num bob.site ≡ 2
unfolding other_ends get_node_id_from_name get_my_node_id
bob_nbr_num = get_nbr_num_lem bob.site refl

ada-IsTable : IsTable ada.site ada.nbrs
unfolding get_node_id_from_ip
ada-IsTable = record {
  size = rw ada_nbr_num refl;
  distinct = (tt, tt);
  positive = (refl, tt);
  addressed = (refl, tt);
}

bob-IsTable : IsTable bob.site bob.nbrs
unfolding get_node_id_from_ip
bob-IsTable = record {
  size = rw bob_nbr_num refl;
  distinct = ((omega arith, tt), (tt, tt));
  positive = (refl, (refl, tt));
  addressed = (refl, (refl, tt));
}

ada-IsLinked : IsLinked ada bob
unfolding get_my_node_id
ada-IsLinked = record {
  index = 0;
  entry = entry 2 4;
  table = ada-IsTable;
  there = refl;
  is_node = refl;
  single = λ e. omega (arith, e);
  fits = omega arith;
  up = (refl, tt);
  held = small_packet-IsPacket;
}

bob-IsLinked : IsLinked bob cyd
unfolding get_my_node_id
bob-IsLinked = record {
  index = 1;
  entry = entry 3 5;
  table = bob-IsTable;
  there = refl;
  is_node = refl;
  single = λ e. omega (arith, e);
  fits = omega arith;
  up = (refl, (refl, tt));
  held = small_packet-IsPacket;
}

bob-IsQuiet : IsQuiet bob packet
unfolding get_my_node_id cut encode_packet encode_packet_arg encode_segment
bob-IsQuiet = record { packet = packet-IsPacket; full = refl; clean = refl; clean_arg = refl }

cyd-IsQuiet : IsQuiet cyd packet
unfolding get_my_node_id cut encode_packet encode_packet_arg encode_segment
cyd-IsQuiet = record { packet = packet-IsPacket; full = refl; clean = refl; clean_arg = refl }

-- A value of rand with which seglost keeps a segment.
abbrev random : ℕ → ℕ
random k = 50

route : Route arg packet ada bob cyd
unfolding get_my_node_id routingtable_getnextnode hashtable_find set_find chain_find makehash
route =
    via ada bob cyd cyd ada-IsLinked bob-IsQuiet refl (λ e. omega (arith, e))
      (length-replicate {A = ℕ} 1488 0) (direct bob cyd bob-IsLinked cyd-IsQuiet refl)

segment_arrives_example :
    (get_segment_to_send (mnp_sendseg all_sent 3 two_bytes).1 ≡ got arg [])
    × (wait_transport ada.site (ada.net.routing_table ∷ []) (arg ∷ [])
        ≡ to_overlay (id_of bob) packet ∷ [])
    × Journey all_sent (λ i j. all_sent) (λ i. all_sent) packet ada bob cyd
    × (handle cyd.site (λ i. 0) cyd.net packet
        ≡ some (
          record cyd.net { segment = encode_segment two_bytes },
          to_mrt (id_of ada) two_bytes ∷ [],
        ))
    × (mnp_recvseg random 0 (forward_segment_to_mrt all_sent (id_of ada) two_bytes).1
        ≡ got (record { node = id_of ada; segment = two_bytes }) [])
unfolding cut encode_segment_arg encode_segment seglost get_my_node_id
segment_arrives_example =
    segment_arrives all_sent (λ i j. all_sent) (λ i. all_sent) ada bob cyd arg random (λ i. 0) 0
      all_sent-Sends (λ i j. all_sent-Sends) (λ i. all_sent-Sends) two_bytes-IsSegment (omega arith)
      (omega arith) refl refl refl route refl (length-replicate {A = ℕ} 1488 0)
