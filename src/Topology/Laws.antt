-- ===== src/Topology/Laws.antt =====
-- The neighbour count against the neighbour array, the symmetry of costs, and the array of nodes.
use cs.Base.{
  ℕ, suc, ◌+◌, ◌<◌, ◌≡◌, refl, sym, ◌∙◌, ap, List, [], ◌∷◌, length, All, inl, inr, Option-cases,
  some, arith, fault,
}
use cs.Topology.{
  Line, Site, get_my_node_id, count_mine, get_nbr_num, other_ends, copy_positive, get_node_array,
  get_nbr_array, find_cost, get_cost,
}

length-copy_positive : (site : Site) (ns : List ℕ) → length (copy_positive site ns) ≡ length ns
unfolding copy_positive
length-copy_positive site [] = refl
length-copy_positive site (n ∷ ns) = ap suc (length-copy_positive site ns)

count_mine_lem :
    (site : Site) (n : ℕ) (ls : List Line) → count_mine site n ls ≡ n + length (other_ends site ls)
unfolding count_mine other_ends
count_mine_lem site n [] = omega arith
count_mine_lem site n (l ∷ ls) =
    ground (arith, count_mine_lem site n ls, count_mine_lem site (n + 1) ls)

pub get_nbr_num_lem :
    (site : Site) {ls : List Line}
    → site.file ≡ some ls
    → get_nbr_num site ≡ length (other_ends site ls)
unfolding get_nbr_num
get_nbr_num_lem site {ls} e = ground (arith, count_mine_lem site 0 ls)

-- If topology.dat can be opened, topology_getNbrArray returns an array with as many entries as
-- topology_getNbrNum counts.
length-get_nbr_array :
    (site : Site) {ls : List Line}
    → site.file ≡ some ls
    → (nbrs : List ℕ) × (get_nbr_array site ≡ some nbrs) × (length nbrs ≡ get_nbr_num site)
unfolding get_nbr_array
length-get_nbr_array site {ls} e = (
  copy_positive site (other_ends site ls),
  ground arith,
  length-copy_positive site (other_ends site ls) ∙ sym (get_nbr_num_lem site e),
)

find_cost_comm :
    (site : Site) (a b : ℕ) (ls : List Line) → find_cost site a b ls ≡ find_cost site b a ls
unfolding find_cost
find_cost_comm site a b [] = refl
find_cost_comm site a b (l ∷ ls) = ground (arith, find_cost_comm site a b ls)

-- topology_getCost gives the same cost in both directions.
get_cost_comm : (site : Site) (a b : ℕ) → get_cost site a b ≡ get_cost site b a
unfolding get_cost
get_cost_comm site a b = elim (Option-cases site.file) [
  | inl e ↦ ground arith
  | inr (ls, e) ↦ ground (arith, find_cost_comm site a b ls)
]

abbrev pub Fits : List ℕ → Type 0
Fits ns = All (λ n. n < 4294967296) ns

-- Where topology.dat can be opened and this node's ID is not 0, the array of nodes cannot be made.
pub get_node_array-fault :
    (site : Site) (ls : List Line)
    → site.file ≡ some ls
    → 0 < get_my_node_id site
    → get_node_array site ≡ fault
unfolding get_node_array
get_node_array-fault site ls e h = ground arith
