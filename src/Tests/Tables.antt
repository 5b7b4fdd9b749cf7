-- ===== src/Tests/Tables.antt =====
-- The tables of two nodes with one link.
use cs.Base.{ℕ, ◌≡◌, refl, [], ◌∷◌, none, replicate}
use cs.Topology.{
  Site, get_my_node_id, get_nbr_num, get_node_num, get_node_array, get_cost, get_node_id_from_name,
  first_of_array, read_array,
}
use cs.Network.Distance.{Dv, dv_entry_new, dvtable_setcost, dvtable_getcost, get_rows}
use cs.Network.Distance.Laws.{getcost-setcost}
use cs.Network.Routes.{
  Routes, routingtable_setnextnode, routingtable_getnextnode, hashtable_find, set_find, chain_find,
  makehash,
}
use cs.Network.Routes.Laws.{IsValid, getnextnode-setnextnode}
use cs.Base.{some, if◌then◌else◌, ◌&&◌, member, is_positive, minus_one}
use cs.Topology.{get_nbr_array}
use cs.Network.Routes.{routingtable_create}
use cs.Network.Routes.Create.{routingtable_create_lem}
use cs.Tests.Data.{ada, link, site_of}

ada_counts : (get_nbr_num ada ≡ 1) × (get_node_num ada ≡ 2)
unfolding get_nbr_num get_node_num get_node_id_from_name get_my_node_id
ada_counts = (refl, refl)

ada_cost : get_cost ada 2 1 ≡ 5
unfolding get_cost get_node_id_from_name get_my_node_id
ada_cost = refl

-- Two links in a row.
abbrev chain : Site
chain = site_of "ada" (link ∷ record { host1 = "bob"; host2 = "cyd"; link_cost = 3 } ∷ [])

chain_past : dv_entry_new chain 2 ≡ none
unfolding dv_entry_new get_node_num get_node_array get_node_id_from_name get_my_node_id
    first_of_array read_array
chain_past = refl

abbrev row_of : ℕ → Dv
row_of n = record {
  node = n;
  entries = record { node = 2; cost = 5 } ∷ record { node = 1; cost = 0 } ∷ [];
}

getcost-setcost_example :
    dvtable_getcost ada (dvtable_setcost ada (row_of 2 ∷ row_of 1 ∷ []) 2 1 7).1 2 1 ≡ 7
unfolding get_rows get_nbr_num get_node_num get_node_id_from_name get_my_node_id
getcost-setcost_example = getcost-setcost ada (row_of 2 ∷ row_of 1 ∷ []) 2 1 7 2 1

abbrev empty : Routes
empty = replicate 10 []

empty-IsValid : IsValid empty
empty-IsValid = record {
  slots = refl;
  placed = (tt, (tt, (tt, (tt, (tt, (tt, (tt, (tt, (tt, (tt, tt))))))))));
}

getnextnode-setnextnode_example :
    routingtable_getnextnode (routingtable_setnextnode 0 empty 12 3) 12 ≡ 3
unfolding routingtable_getnextnode hashtable_find set_find chain_find makehash
getnextnode-setnextnode_example = getnextnode-setnextnode 0 empty 12 3 12 empty-IsValid

routingtable_create_lem_example :
    (rt : Routes) × (routingtable_create ada (λ k. 0) ≡ some rt)
    × IsValid rt
    × ((q : ℕ)
        → routingtable_getnextnode rt q
          ≡ (if member q (2 ∷ []) && is_positive q then q else minus_one))
routingtable_create_lem_example =
    routingtable_create_lem ada (λ k. 0) (2 ∷ [])
      (unfold get_nbr_num get_nbr_array get_node_id_from_name get_my_node_id first_of_array in refl)
      (λ k. refl)
