-- ===== src/Network/Process.antt =====
-- lab4/network/network.c: main, up to waitTransport, and connectToOverlay.
pub mod Start
use cs.Base.{ℕ, List, [], ◌∷◌, Bool, if◌then◌else◌, is_negative, minus_one, Option, none, some}
use cs.Topology.{Site}
use cs.Network.Neighbors.{NbrCost, nbrcosttable_create}
use cs.Network.Distance.{Dv, dvtable_create}
use cs.Network.Routes.{Routes, routingtable_create}
use cs.Network.Handler.{Net}

-- connectToOverlay: `socket` is the descriptor that the system gives, `connects` whether the
-- connection is made.
unfoldable pub connect_to_overlay : ℕ → Bool → ℕ
connect_to_overlay socket connects =
    if is_negative socket then minus_one else if connects then socket else minus_one

-- How main goes on: it starts the threads and calls waitTransport, with its tables and its variable
-- overlay_connection, or it exits.
pub data Started : Type 0 where
  waits : Net → ℕ → Started
  exits : Started

-- The descriptor of one call of connectToOverlay is kept, the value of the other tested.
unfoldable pub connect_both : (ℕ → ℕ) → (ℕ → Bool) → Net → Started
connect_both socket connects net =
    let overlay_connection = connect_to_overlay (socket 0) (connects 0) in
    if is_negative (connect_to_overlay (socket 1) (connects 1))
    then exits
    else waits net overlay_connection

-- The tables of the process; `none` is a read past an array.
unfoldable pub tables :
    Option (List NbrCost) → Option (List Dv) → Option Routes → List ℕ → List ℕ → Option Net
tables (some costs) (some dv) (some routes) pkt_update segment = some (record {
  nbr_cost_table = costs;
  dv_table = dv;
  routing_table = routes;
  pkt_update = pkt_update;
  segment = segment;
})
tables none dv routes pkt_update segment = none
tables (some costs) none routes pkt_update segment = none
tables (some costs) (some dv) none pkt_update segment = none

unfoldable pub after_tables : (Net → Started) → Option Net → Option Started
after_tables next none = none
after_tables next (some net) = some (next net)

-- main, with what the memory of the table of routes and of the thread's variables holds.
unfoldable pub main : Site → (ℕ → ℕ) → (ℕ → ℕ) → (ℕ → Bool) → List ℕ → List ℕ → Option Started
main site heap socket connects pkt_update segment = after_tables (connect_both socket connects) (
    tables (nbrcosttable_create site) (dvtable_create site) (routingtable_create site heap)
      pkt_update segment)

-- network_stop: the descriptors that it closes, be they -1 or not; the rest frees the tables.
unfoldable pub network_stop : ℕ → ℕ → List ℕ
network_stop overlay_connection transport_connection =
    overlay_connection ∷ transport_connection ∷ []
