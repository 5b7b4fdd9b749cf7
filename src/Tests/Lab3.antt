-- ===== src/Tests/Lab3.antt =====
-- The processes of lab3, and the start of lab4's network process, on the host "bob".
use cs.Wire.Frame.Cut.{cut}
use cs.Base.{
  none, ℕ, ◌≡◌, ◌≢◌, ◌<◌, refl, List, [], ◌∷◌, false, some, ok, fault, arith, minus_one, length,
}
use cs.Topology.{
  Line, Site, get_my_node_id, get_node_id_from_name, get_nbr_num, get_node_num, get_nbr_array,
  get_node_array, first_of_array, other_ends, copy_positive,
}
use cs.Topology as Lab4
use cs.Overlay.Neighbors.{NbrEntry}
use cs.Overlay.Connect as Lab4Connect
use cs.Overlay.Connect.{Sockets}
use cs.Overlay.Traffic.{gone, unfinished}
use cs.Wire.Layout.{encode_packet}
use cs.Lab3.Topology as Lab3
use cs.Lab3.Topology.Nodes.{get_node_num_lem, get_node_array_lem}
use cs.Lab3.Topology.Links.{get_nbr_array_lem}
use cs.Lab3.Overlay as Lab3Overlay
use cs.Lab3.Overlay.{leaks, connect_nbrs-leaks}
use cs.Lab3.Network.{pkthandler}
use cs.Lab3.Network.Receive.{forwarded, pkthandler-forwarded}
use cs.Tests.Data.{bob, link, all_sent, all_sent-Sends, small_packet, small_packet-IsPacket}

abbrev lines : List Line
lines = link ∷ []

get_node_num_lem_example : Lab3.get_node_num bob ≡ ok 1
unfolding get_node_id_from_name get_my_node_id
get_node_num_lem_example =
    get_node_num_lem bob lines refl ((omega arith, omega arith), ((omega arith, omega arith), tt))

-- One link mentions no ID twice, so that the array has no entry.
get_node_array_lem_example : Lab3.get_node_array bob ≡ fault
unfolding get_node_id_from_name get_my_node_id
get_node_array_lem_example =
    get_node_array_lem bob lines refl ((omega arith, omega arith), ((omega arith, omega arith), tt))

get_nbr_array_lem_example : Lab3.get_nbr_array bob ≡ ok (some (1 ∷ []))
unfolding Lab4.get_nbr_array other_ends copy_positive get_node_id_from_name get_my_node_id
get_nbr_array_lem_example = get_nbr_array_lem bob lines refl (omega arith)

abbrev table : List NbrEntry
table = record { node = 1; ip = 16820865; conn = minus_one } ∷ []

-- The connection is refused.
abbrev refused : Sockets
refused = record { socket = λ i. 4; connects = λ i. false }

connect_nbrs-leaks_example :
    leaks (Lab4Connect.connect_nbrs bob refused table) ≡ Lab3Overlay.connect_nbrs bob refused table
connect_nbrs-leaks_example = connect_nbrs-leaks bob refused table

small_packet_clean : cut (encode_packet small_packet) ≡ none
unfolding cut encode_packet
small_packet_clean = refl

pkthandler-forwarded_example :
    (pkthandler 3 (forwarded all_sent (small_packet ∷ small_packet ∷ []))
      ≡ (small_packet ∷ small_packet ∷ [], gone))
    × ((fuel : ℕ) (input : List ℕ) → length input < fuel → (pkthandler fuel input).1 ≢ unfinished)
pkthandler-forwarded_example =
    pkthandler-forwarded all_sent (small_packet ∷ small_packet ∷ []) 3 all_sent-Sends
      (
        (small_packet-IsPacket, small_packet_clean),
        ((small_packet-IsPacket, small_packet_clean), tt),
      )
      (omega arith)
