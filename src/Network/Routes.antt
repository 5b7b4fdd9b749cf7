-- ===== src/Network/Routes.antt =====
-- lab4/network/routing_table.c: a hash table of lists of routing entries. `malloc` and `calloc` are
-- taken to succeed, so the table and its sets are never NULL.
pub mod Laws
pub mod Create
use cs.Base.{
  ℕ, zero, suc, ◌+◌, ◌%◌, List, [], ◌∷◌, ◌++◌, Bool, true, false, ◌&&◌, ◌==◌, if◌then◌else◌,
  minus_one, is_positive, is_negative, get_or, set, replicate, Option, none, some,
}
use cs.Topology.{Site, get_nbr_num, get_nbr_array, first_of_array}

-- struct routingtable_entry; a set is the list of its entries.
pub record Entry : Type 0 where
  pub dest : ℕ
  pub next : ℕ

abbrev pub Routes : Type 0
Routes = List (List Entry)

abbrev pub max_routingtable_slots : ℕ
max_routingtable_slots = 10

-- For a positive `node`; a negative one never gets here.
unfoldable pub makehash : ℕ → ℕ
makehash node = node % max_routingtable_slots

-- routing_entry_node_new; `fresh` is what the field destNodeID of the new memory holds, which the
-- code tests before it writes it.
unfoldable pub routing_entry_node_new : ℕ → ℕ → ℕ → Option Entry
routing_entry_node_new fresh dest next =
    if is_negative fresh then none else some (record { dest = dest; next = next })

unfoldable pub set_insert : ℕ → List Entry → ℕ → ℕ → Bool × List Entry
unfolding routing_entry_node_new
set_insert fresh chain dest next =
    if is_positive next && is_positive dest
    then elim (routing_entry_node_new fresh dest next) [
      | none ↦ (false, chain)
      | some e ↦ (true, chain ++ e ∷ [])
    ]
    else (false, chain)

unfoldable pub hashtable_insert : ℕ → Routes → ℕ → ℕ → Bool × Routes
unfolding set_insert makehash
hashtable_insert fresh rt dest next =
    let slot = makehash dest in
    let (done, chain) = set_insert fresh (get_or rt slot []) dest next in
    if is_positive next && is_positive dest then (done, set rt slot chain) else (false, rt)

-- The loop of set_find.
unfoldable pub chain_find : List Entry → ℕ → ℕ
chain_find [] dest = minus_one
chain_find (e ∷ es) dest = if e.dest == dest then e.next else chain_find es dest

unfoldable pub set_find : List Entry → ℕ → ℕ
unfolding chain_find
set_find [] dest = minus_one
set_find (e ∷ es) dest = if is_negative dest then minus_one else chain_find (e ∷ es) dest

unfoldable pub hashtable_find : Routes → ℕ → ℕ
unfolding set_find makehash
hashtable_find rt dest =
    if is_positive dest then set_find (get_or rt (makehash dest) []) dest else minus_one

-- The loop of routingtable_create; `heap i` is what fresh memory holds in round `i`.
insert_all : (ℕ → ℕ) → ℕ → Routes → List ℕ → Routes
unfolding hashtable_insert
insert_all heap i rt [] = rt
insert_all heap i rt (n ∷ ns) = insert_all heap (suc i) (hashtable_insert (heap i) rt n n).1 ns

-- `none` is a read past the array of neighbours.
unfoldable pub routingtable_create : Site → (ℕ → ℕ) → Option Routes
unfolding insert_all
routingtable_create site heap = elim (first_of_array (get_nbr_num site) (get_nbr_array site)) [
  | none ↦ none
  | some ns ↦ some (insert_all heap 0 (replicate max_routingtable_slots []) ns)
]

unfoldable pub routingtable_setnextnode : ℕ → Routes → ℕ → ℕ → Routes
unfolding hashtable_insert
routingtable_setnextnode fresh rt dest next = (hashtable_insert fresh rt dest next).1

unfoldable pub routingtable_getnextnode : Routes → ℕ → ℕ
unfolding hashtable_find
routingtable_getnextnode rt dest =
    let next = hashtable_find rt dest in if is_negative next then minus_one else next
