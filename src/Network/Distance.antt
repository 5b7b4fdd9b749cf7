-- ===== src/Network/Distance.antt =====
-- lab4/network/dvtable.c: the distance vectors of the neighbours and, in the last row, of this node.
pub mod Laws
pub mod Create
use cs.Base.{
  ℕ, zero, suc, ◌+◌, List, [], ◌∷◌, ◌++◌, ◌==◌, if◌then◌else◌, minus_one, Option, none, some,
}
use cs.Topology.{
  Site, get_my_node_id, get_nbr_num, get_node_num, get_nbr_array, get_node_array, get_cost,
  infinite_cost, first_of_array, read_array,
}

-- dv_entry_t
pub record DvEntry : Type 0 where
  pub node : ℕ
  pub cost : ℕ

-- dv_t
pub record Dv : Type 0 where
  pub node : ℕ
  pub entries : List DvEntry

entry_list : Site → ℕ → List ℕ → List DvEntry
entry_list site source [] = []
entry_list site source (n ∷ ns) =
    record { node = n; cost = get_cost site source n } ∷ entry_list site source ns

-- dv_entry_new; `none` is a read past the array of nodes.
unfoldable pub dv_entry_new : Site → ℕ → Option (List DvEntry)
unfolding entry_list
dv_entry_new site source = elim (read_array (get_node_num site) (get_node_array site)) [
  | none ↦ none
  | some ns ↦ some (entry_list site source ns)
]

-- The rows for the given source nodes, in order.
dv_rows : Site → List ℕ → Option (List Dv)
dv_rows site [] = some []
dv_rows site (n ∷ ns) = elim (dv_entry_new site n) [
  | none ↦ none
  | some es ↦ elim (dv_rows site ns) [
    | none ↦ none
    | some rows ↦ some (record { node = n; entries = es } ∷ rows)
  ]
]

unfoldable pub dvtable_create : Site → Option (List Dv)
unfolding dv_rows dv_entry_new
dvtable_create site = elim (first_of_array (get_nbr_num site) (get_nbr_array site)) [
  | none ↦ none
  | some ns ↦ dv_rows site (ns ++ get_my_node_id site ∷ [])
]

-- The inner loop of dvtable_setcost with `m` entries left; `none` if no entry is for `to`.
unfoldable pub set_entry : ℕ → List DvEntry → ℕ → ℕ → Option (List DvEntry)
set_entry zero es to cost = none
set_entry (suc m) [] to cost = none
set_entry (suc m) (e ∷ es) to cost =
    let rest = set_entry m es to cost in
    if e.node == to
    then some (record e { cost = cost } ∷ es)
    else elim rest [ none ↦ none | some es' ↦ some (e ∷ es') ]

-- The outer loop with `n` rows left: the value returned, and the rows.
unfoldable pub set_rows : ℕ → ℕ → List Dv → ℕ → ℕ → ℕ → ℕ × List Dv
unfolding set_entry
set_rows zero m dv from to cost = (minus_one, dv)
set_rows (suc n) m [] from to cost = (minus_one, [])
set_rows (suc n) m (r ∷ rs) from to cost =
    let (status, rs') = set_rows n m rs from to cost in
    if from == r.node
    then elim (set_entry m r.entries to cost) [
      | none ↦ (status, r ∷ rs')
      | some es ↦ (1, record r { entries = es } ∷ rs)
    ]
    else (status, r ∷ rs')

unfoldable pub dvtable_setcost : Site → List Dv → ℕ → ℕ → ℕ → ℕ × List Dv
unfolding set_rows
dvtable_setcost site dv from to cost =
    set_rows (get_nbr_num site + 1) (get_node_num site) dv from to cost

-- The inner loop of dvtable_getcost.
unfoldable pub get_entry : ℕ → List DvEntry → ℕ → Option ℕ
get_entry zero es to = none
get_entry (suc m) [] to = none
get_entry (suc m) (e ∷ es) to =
    let rest = get_entry m es to in if e.node == to then some e.cost else rest

-- The outer loop with `n` rows left; `none` if the loops end without a `return`.
unfoldable pub get_rows : ℕ → ℕ → List Dv → ℕ → ℕ → Option ℕ
unfolding get_entry
get_rows zero m dv from to = none
get_rows (suc n) m [] from to = none
get_rows (suc n) m (r ∷ rs) from to =
    let rest = get_rows n m rs from to in
    if from == r.node
    then elim (get_entry m r.entries to) [ none ↦ rest | some c ↦ some c ]
    else rest

-- `return INFINITE_COST` after the loops
abbrev pub or_infinite : Option ℕ → ℕ
or_infinite none = infinite_cost
or_infinite (some c) = c

-- The loop is over `nbrNum` rows, so the last one, this node's own, is not read.
unfoldable pub dvtable_getcost : Site → List Dv → ℕ → ℕ → ℕ
unfolding get_rows
dvtable_getcost site dv from to =
    or_infinite (get_rows (get_nbr_num site) (get_node_num site) dv from to)
