-- ===== src/Tests/Routing.antt =====
-- Two nodes that exchange packets and route updates.
use cs.Base.{
  ℕ, ◌≡◌, refl, inl, inr, List, [], ◌∷◌, if◌then◌else◌, arith, ◌==◌, replicate, length-replicate,
  Bool-cases,
}
use cs.Wire.Layout.{Packet}
use cs.Topology.{Site, get_my_node_id, get_nbr_num, get_node_id_from_name}
use cs.Topology.Laws.{Fits}
use cs.Network.Neighbors.{nbrcosttable_getcost, nbr_cost_from}
use cs.Network.Distance.{DvEntry}
use cs.Network.Routes.{
  Routes, routingtable_getnextnode, hashtable_find, set_find, chain_find, makehash,
}
use cs.Network.Routes.Laws.{IsValid}
use cs.Network.Update.{UpdateEntry}
use cs.Network.Handler.{Net, apply_entry, pkthandler, route_update}
use cs.Network.Handler.Extends.{IfSome, KeepsFirst, pkthandler-Keeps}
use cs.Network.Handler.Own.{OwnApart, getnextnode-apply_entry}
use cs.Network.Daemon.{broadcast_packet}
use cs.Network.Daemon.System.{
  IsSound, Unmoved, handle-broadcast_packet, hears, Reach, here, next, Same, Reach-Same,
}
use cs.Tests.Data.{ada, bob, small_packet}

abbrev entries : List DvEntry
entries = record { node = 2; cost = 5 } ∷ record { node = 1; cost = 0 } ∷ []

-- The table of the node `me`, whose neighbour is `other`, with the route to it.
abbrev net_of : ℕ → ℕ → Routes → Net
net_of me other routes = record {
  nbr_cost_table = record { node = other; cost = 5 } ∷ [];
  dv_table =
      record { node = other; entries = entries } ∷ record { node = me; entries = entries } ∷ [];
  routing_table = routes;
  pkt_update = replicate 84 0;
  segment = replicate 1488 0;
}

abbrev empty : Routes
empty = replicate 10 []

empty-IsValid : IsValid empty
empty-IsValid = record {
  slots = refl;
  placed = (tt, (tt, (tt, (tt, (tt, (tt, (tt, (tt, (tt, (tt, tt))))))))));
}

abbrev ada_net : Net
ada_net = net_of 1 2 empty

abbrev bob_net : Net
bob_net = net_of 2 1 empty

ada_apart : OwnApart ada ada_net
ada_apart = unfold get_nbr_num get_node_id_from_name get_my_node_id in ((λ e. omega (arith, e)), tt)

bob_apart : OwnApart bob bob_net
bob_apart = unfold get_nbr_num get_node_id_from_name get_my_node_id in ((λ e. omega (arith, e)), tt)

-- "bob" tells "ada" of a node 3 at the cost 7, and "ada" has no route to it.
getnextnode-apply_entry_example :
    routingtable_getnextnode
      (apply_entry ada (λ k. 0) 0 2 ada_net (record { node = 3; cost = 7 })).routing_table
      3
    ≡ 2
unfolding routingtable_getnextnode hashtable_find set_find chain_find makehash nbrcosttable_getcost
    nbr_cost_from get_nbr_num get_node_id_from_name get_my_node_id
getnextnode-apply_entry_example =
    getnextnode-apply_entry ada (λ k. 0) 0 2 ada_net (record { node = 3; cost = 7 }) 3 ada_apart
      empty-IsValid

pkthandler-Keeps_example :
    IfSome (KeepsFirst bob_net) (pkthandler bob (λ k i. 0) 0 bob_net (small_packet ∷ []))
pkthandler-Keeps_example =
    pkthandler-Keeps bob (λ k i. 0) 0 bob_net (small_packet ∷ []) empty-IsValid

abbrev told : List UpdateEntry
told = record { node = 2; cost = 999 } ∷ record { node = 1; cost = 999 } ∷ []

abbrev update_of : List ℕ → Packet
update_of payload = record {
  header = record { src_node = 1; dest_node = 9999; length = 84; type = route_update };
  payload = payload;
}

ada-IsSound : IsSound ada ada_net
unfolding nbrcosttable_getcost nbr_cost_from get_nbr_num get_node_id_from_name get_my_node_id
ada-IsSound = record {
  apart = ada_apart;
  valid = empty-IsValid;
  buffer = length-replicate {A = ℕ} 84 0;
  small = λ n. ground arith;
}

bob-IsSound : IsSound bob bob_net
unfolding nbrcosttable_getcost nbr_cost_from get_nbr_num get_node_id_from_name get_my_node_id
bob-IsSound = record {
  apart = bob_apart;
  valid = empty-IsValid;
  buffer = length-replicate {A = ℕ} 84 0;
  small = λ n. ground arith;
}

-- What "ada" broadcasts for two nodes, over an array of zeros.
abbrev broadcast : Packet
broadcast = broadcast_packet ada ada_net.dv_table (2 ∷ 1 ∷ []) (replicate 1488 0)

nodes-Fits : Fits (2 ∷ 1 ∷ [])
nodes-Fits = (omega arith, (omega arith, tt))

abbrev sites : ℕ → Site
sites k = if k == 0 then ada else bob

abbrev nets : ℕ → Net
nets k = if k == 0 then ada_net else bob_net

nets-IsSound : (k : ℕ) → IsSound (sites k) (nets k)
nets-IsSound k = elim (Bool-cases (k == 0)) [ inl e ↦ rw e ada-IsSound | inr e ↦ rw e bob-IsSound ]

heard : Unmoved bob (λ i. 0) bob_net broadcast
heard =
    handle-broadcast_packet ada bob ada_net.dv_table (2 ∷ 1 ∷ []) (replicate 1488 0) (λ i. 0)
      bob_net (omega arith) nodes-Fits ada_apart bob-IsSound

-- "bob" hears one broadcast of "ada".
abbrev after : ℕ → Net
after k = if k == 1 then heard.0 else nets k

reached : Reach sites nets after
reached =
    next here
      (hears 0 1 (λ i. 0) (2 ∷ 1 ∷ []) (replicate 1488 0) heard.0 (omega arith) nodes-Fits heard.1)

Reach-Same_example : Same sites nets after
Reach-Same_example = Reach-Same sites nets-IsSound reached
