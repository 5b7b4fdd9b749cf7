-- ===== src/Network/Distance/Create.antt =====
-- The table that dvtable_create builds.
use cs.Base.{
  ℕ, zero, suc, ◌<◌, ◌≡◌, ◌↔◌, refl, ap, inl, inr, List, [], ◌∷◌, ◌++◌, ◌&&◌, if◌then◌else◌, length,
  Option, none, some, arith, Option-cases, member, Run, ok, fault,
}
use cs.Topology.{
  Site, get_my_node_id, get_nbr_num, get_node_num, get_nbr_array, get_node_array, get_cost,
  first_of_array, read_array,
}
use cs.Network.Distance.{
  Dv, entry_list, dv_entry_new, dv_rows, dvtable_create, get_entry, get_rows, dvtable_getcost,
}
use cs.Network.Distance.Laws.{nodes_of, getcost_lem}

-- An array is read in full, or past its end.
first_of_array_lem :
    (n : ℕ) (xs : List ℕ) {ys : List ℕ} → first_of_array n (some xs) ≡ some ys → length ys ≡ n
unfolding first_of_array
first_of_array_lem zero xs h = ground arith
first_of_array_lem (suc n) [] h = cc
first_of_array_lem (suc n) (x ∷ xs) h = elim (Option-cases (first_of_array n (some xs))) [
  | inl e ↦ ground arith
  | inr (zs, e) ↦ ground (arith, first_of_array_lem n xs e)
]

first_of_array_past : (n : ℕ) (xs : List ℕ) → (first_of_array n (some xs) ≡ none) ↔ (length xs < n)
unfolding first_of_array
first_of_array_past zero xs = ground arith
first_of_array_past (suc n) [] = ground arith
first_of_array_past (suc n) (x ∷ xs) = ground (arith, first_of_array_past n xs)

-- dv_entry_new reads past the array of nodes exactly if the topology has more nodes than
-- topology_getNodeArray gathers, which are this node and the other ends of its own links.
dv_entry_new_past :
    (site : Site) (source : ℕ) (nodes : List ℕ)
    → get_node_array site ≡ ok (some nodes)
    → (dv_entry_new site source ≡ none) ↔ (length nodes < get_node_num site)
unfolding dv_entry_new read_array
dv_entry_new_past site source nodes e =
    ground (arith, first_of_array_past (get_node_num site) nodes)

get_entry-entry_list :
    (site : Site) (source : ℕ) (ns : List ℕ) (q : ℕ)
    → get_entry (length ns) (entry_list site source ns) q
      ≡ (if member q ns then some (get_cost site source q) else none)
unfolding get_entry entry_list
get_entry-entry_list site source [] q = refl
get_entry-entry_list site source (n ∷ ns) q = ground (arith, get_entry-entry_list site source ns q)

get_rows-dv_rows :
    (site : Site) (ns nodes : List ℕ) (last p q : ℕ) (dv : List Dv)
    → read_array (get_node_num site) (get_node_array site) ≡ some nodes
    → dv_rows site (ns ++ last ∷ []) ≡ some dv
    → get_rows (length ns) (length nodes) dv p q
      ≡ (if member p ns && member q nodes then some (get_cost site p q) else none)
unfolding get_rows dv_rows dv_entry_new
get_rows-dv_rows site [] nodes last p q dv e h = ground arith
get_rows-dv_rows site (n ∷ ns) nodes last p q dv e h =
    elim (Option-cases (dv_rows site (ns ++ last ∷ []))) [
      | inl f ↦ ground arith
      | inr (rows, f) ↦ ground (
        arith,
        get_rows-dv_rows site ns nodes last p q rows e f,
        get_entry-entry_list site n nodes q,
      )
    ]

nodes_of-dv_rows :
    (site : Site) (nodes ns : List ℕ)
    → read_array (get_node_num site) (get_node_array site) ≡ some nodes
    → (dv : List Dv) × (dv_rows site ns ≡ some dv) × (nodes_of dv ≡ ns)
unfolding dv_rows dv_entry_new
nodes_of-dv_rows site nodes [] e = ([], refl, refl)
nodes_of-dv_rows site nodes (n ∷ ns) e =
    let (rows, f, g) = nodes_of-dv_rows site nodes ns e in
    (record { node = n; entries = entry_list site n nodes } ∷ rows, ground arith, ap (λ t. n ∷ t) g)

length-first_of_array :
    (n : ℕ) (array : Option (List ℕ)) {ys : List ℕ}
    → first_of_array n array ≡ some ys
    → length ys ≡ n
length-first_of_array zero none h = unfold first_of_array in ground arith
length-first_of_array (suc n) none h = unfold first_of_array in cc
length-first_of_array n (some xs) h = first_of_array_lem n xs h

length-read_array :
    (n : ℕ) (array : Run (Option (List ℕ))) {ys : List ℕ}
    → read_array n array ≡ some ys
    → length ys ≡ n
length-read_array n fault h = unfold read_array in cc
length-read_array n (ok array) h = length-first_of_array n array (unfold read_array in h)

-- If the arrays of neighbours and of nodes can be made and read in full, dvtable_create returns a table with
-- a row for each neighbour and then one for this node, in which dvtable_getcost gives the direct
-- link cost from a neighbour to a node of the array, and INFINITE_COST for any other pair.
pub dvtable_create_lem :
    (site : Site) (nbrs nodes : List ℕ)
    → first_of_array (get_nbr_num site) (get_nbr_array site) ≡ some nbrs
    → read_array (get_node_num site) (get_node_array site) ≡ some nodes
    → (dv : List Dv) × (dvtable_create site ≡ some dv)
      × (nodes_of dv ≡ nbrs ++ get_my_node_id site ∷ [])
      × ((p q : ℕ)
          → dvtable_getcost site dv p q
            ≡ (if member p nbrs && member q nodes then get_cost site p q else 999))
dvtable_create_lem site nbrs nodes e f =
    let me = get_my_node_id site in
    let (dv, made, rows) = nodes_of-dv_rows site nodes (nbrs ++ me ∷ []) f in
    (
      dv,
      unfold dvtable_create in ground arith,
      rows,
      λ p q. ground (
        arith,
        getcost_lem site dv p q,
        length-first_of_array (get_nbr_num site) (get_nbr_array site) e,
        length-read_array (get_node_num site) (get_node_array site) f,
        get_rows-dv_rows site nbrs nodes me p q dv f made,
      ),
    )

dv_entry_new-none :
    (site : Site) (source : ℕ) → get_node_array site ≡ fault → dv_entry_new site source ≡ none
unfolding dv_entry_new read_array
dv_entry_new-none site source e = rw (dv_entry_new, read_array, e) refl

dv_rows-none :
    (site : Site) (ns : List ℕ) (last : ℕ)
    → get_node_array site ≡ fault
    → dv_rows site (ns ++ last ∷ []) ≡ none
unfolding dv_rows
dv_rows-none site [] last e = rw (dv_rows, dv_entry_new-none site last e) refl
dv_rows-none site (n ∷ ns) last e = rw (dv_rows, dv_entry_new-none site n e) refl

-- If the array of nodes cannot be made, then dvtable_create faults.
pub dvtable_create-none : (site : Site) → get_node_array site ≡ fault → dvtable_create site ≡ none
unfolding dvtable_create
dvtable_create-none site e =
    elim (Option-cases (first_of_array (get_nbr_num site) (get_nbr_array site))) [
      | inl f ↦ rw (dvtable_create, f) refl
      | inr (ns, f) ↦ rw (dvtable_create, f) (dv_rows-none site ns (get_my_node_id site) e)
    ]
