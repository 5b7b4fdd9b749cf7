-- ===== src/Network/Handler/Own.antt =====
-- Route updates at a node that has no row for its own ID among its neighbours' rows.
use cs.Base.{
  ℕ, suc, ◌+◌, ◌≡◌, refl, ◌∙◌, inl, inr, List, [], ◌∷◌, false, ◌&&◌, ◌==◌, if◌then◌else◌, minus_one,
  u32, lt_int, Bool-cases, All,
}
use cs.Topology.{Site, get_my_node_id, get_nbr_num}
use cs.Network.Neighbors.{nbrcosttable_getcost}
use cs.Network.Distance.{dvtable_setcost, dvtable_getcost}
use cs.Network.Distance.Laws.{nodes_of, Others, own_cost_infinite, setcost-nodes_of}
use cs.Network.Routes.{routingtable_getnextnode}
use cs.Network.Routes.Laws.{IsValid, accepted, getnextnode-setnextnode}
use cs.Network.Update.{UpdateEntry}
use cs.Network.Handler.{Net, apply_entry, apply_entries}
use cs.Network.Handler.Extends.{apply_entry-Keeps}

-- No neighbour has this node's ID.
abbrev pub OwnApart : Site → Net → Type 0
OwnApart site net = Others (get_nbr_num site) (get_my_node_id site) (nodes_of net.dv_table)

-- The cost over the sender, as the code computes it.
abbrev pub cost_over : Site → Net → ℕ → UpdateEntry → ℕ
cost_over site net src e = u32 (nbrcosttable_getcost site net.nbr_cost_table src + e.cost)

own_cost :
    (site : Site) (net : Net) (src : ℕ) (e : UpdateEntry)
    → OwnApart site net
    → dvtable_getcost site
        (dvtable_setcost site net.dv_table src e.node e.cost).1
        (get_my_node_id site)
        e.node
      ≡ 999
own_cost site net src e h =
    let dv = (dvtable_setcost site net.dv_table src e.node e.cost).1 in
    let same = setcost-nodes_of site net.dv_table src e.node e.cost in
    let apart : Others (get_nbr_num site) (get_my_node_id site) (nodes_of dv) = rw same h in
    (own_cost_infinite site dv e.node 0 e.node apart).0

-- At a node whose ID is no neighbour's, with a valid routing table, an entry of a route update gives
-- its destination a next hop exactly if it has none, the cost over the sender is below 999 as an int,
-- and the insertion is accepted; the next hop is then the sender. No other route changes, whatever
-- costs the tables hold.
pub getnextnode-apply_entry :
    (site : Site) (heap : ℕ → ℕ) (i src : ℕ) (net : Net) (e : UpdateEntry) (q : ℕ)
    → OwnApart site net
    → IsValid net.routing_table
    → routingtable_getnextnode (apply_entry site heap i src net e).routing_table q ≡ (
        if lt_int (cost_over site net src e) 999
          && accepted (heap i) e.node src
          && e.node == q
          && routingtable_getnextnode net.routing_table q == minus_one
        then src
        else routingtable_getnextnode net.routing_table q)
getnextnode-apply_entry site heap i src net e q h v =
    let cost = own_cost site net src e h in
    let new = getnextnode-setnextnode (heap i) net.routing_table e.node src q v in
    elim (Bool-cases (lt_int (cost_over site net src e) 999)) [
      | inl better ↦ unfold apply_entry in rw (cost, better) new
      | inr worse ↦ unfold apply_entry in rw (cost, worse)
    ]

-- An entry whose cost is at least INFINITE_COST changes no route and no table but one cost.
pub apply_entry_infinite :
    (site : Site) (heap : ℕ → ℕ) (i src : ℕ) (net : Net) (e : UpdateEntry)
    → OwnApart site net
    → lt_int (cost_over site net src e) 999 ≡ false
    → (apply_entry site heap i src net e).routing_table ≡ net.routing_table
apply_entry_infinite site heap i src net e h worse =
    unfold apply_entry in rw (own_cost site net src e h, worse)

pub apply_entries_infinite :
    (site : Site) (heap : ℕ → ℕ) (i src : ℕ) (net : Net) (es : List UpdateEntry)
    → OwnApart site net
    → IsValid net.routing_table
    → All (λ e. lt_int (cost_over site net src e) 999 ≡ false) es
    → (apply_entries site heap i src net es).routing_table ≡ net.routing_table
unfolding apply_entries
apply_entries_infinite site heap i src net [] h v costs = refl
apply_entries_infinite site heap i src net (e ∷ es) h v costs =
    let kept = apply_entry-Keeps site heap i src net e v in
    let rest =
      apply_entries_infinite site heap (suc i) src (apply_entry site heap i src net e) es
        (rw kept.rows h) kept.routes.valid (rw kept.nbrs costs.1) in
    rest ∙ apply_entry_infinite site heap i src net e h costs.0
