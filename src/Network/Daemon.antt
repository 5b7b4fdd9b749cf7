-- ===== src/Network/Daemon.antt =====
-- lab4/network/network.c: one round of the thread routeupdate_daemon.
pub mod Inert
pub mod System
use cs.Base.{ℕ, zero, suc, List, [], ◌∷◌, ◌++◌, leb, if◌then◌else◌, drop, Option, none, some}
use cs.Topology.{Site, get_my_node_id, get_node_num, get_node_array, first_of_array, read_array}
use cs.Wire.Layout.{Packet}
use cs.Network.Distance.{Dv, dvtable_getcost}
use cs.Network.Update.{UpdateEntry, encode_update, max_node_num}
use cs.Network.Handler.{route_update}

abbrev pub broadcast_node : ℕ
broadcast_node = 9999

unfoldable pub own_vector : Site → List Dv → List ℕ → List UpdateEntry
own_vector site dv [] = []
own_vector site dv (n ∷ ns) =
    record { node = n; cost = dvtable_getcost site dv (get_my_node_id site) n }
    ∷ own_vector site dv ns

-- The packet for the neighbours, for the nodes in the array of nodes; `old` is what its own array
-- held.
unfoldable pub broadcast_packet : Site → List Dv → List ℕ → List ℕ → Packet
unfolding own_vector
broadcast_packet site dv nodes old = record {
  header = record {
    src_node = get_my_node_id site;
    dest_node = broadcast_node;
    length = 84;
    type = route_update;
  };
  payload = encode_update (own_vector site dv nodes) ++ drop 84 old;
}

-- What the daemon sends. `none` is a write past the array of nodes, a read past it, or a write past
-- the ten entries of the packet.
unfoldable pub routeupdate_daemon : Site → List Dv → List ℕ → Option Packet
unfolding broadcast_packet
routeupdate_daemon site dv old =
    if leb (get_node_num site) max_node_num
    then elim (read_array (get_node_num site) (get_node_array site)) [
      | none ↦ none
      | some nodes ↦ some (broadcast_packet site dv nodes old)
    ]
    else none
