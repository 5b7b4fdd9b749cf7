-- ===== src/Network/Neighbors.antt =====
-- lab4/network/nbrcosttable.c: the direct link costs. `malloc` is taken to succeed.
use cs.Base.{ℕ, zero, suc, List, [], ◌∷◌, ◌==◌, if◌then◌else◌, Option, none, some}
use cs.Topology.{
  Site, get_my_node_id, get_nbr_num, get_nbr_array, get_cost, infinite_cost, first_of_array,
}

-- typedef struct neighborcostentry
pub record NbrCost : Type 0 where
  pub node : ℕ
  pub cost : ℕ

unfoldable pub nbr_costs : Site → List ℕ → List NbrCost
nbr_costs site [] = []
nbr_costs site (n ∷ ns) =
    record { node = n; cost = get_cost site (get_my_node_id site) n } ∷ nbr_costs site ns

-- `none` is a read past the array of neighbours.
unfoldable pub nbrcosttable_create : Site → Option (List NbrCost)
unfolding nbr_costs
nbrcosttable_create site = elim (first_of_array (get_nbr_num site) (get_nbr_array site)) [
  | none ↦ none
  | some ns ↦ some (nbr_costs site ns)
]

-- The loop of nbrcosttable_getcost with `n` entries left.
unfoldable pub nbr_cost_from : ℕ → List NbrCost → ℕ → ℕ
nbr_cost_from zero table node = infinite_cost
nbr_cost_from (suc n) [] node = infinite_cost
nbr_cost_from (suc n) (e ∷ es) node =
    let rest = nbr_cost_from n es node in if e.node == node then e.cost else rest

unfoldable pub nbrcosttable_getcost : Site → List NbrCost → ℕ → ℕ
unfolding nbr_cost_from
nbrcosttable_getcost site table node = nbr_cost_from (get_nbr_num site) table node
