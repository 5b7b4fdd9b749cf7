-- ===== src/Network/Handler/Extends.antt =====
-- Handling packets keeps the routing table valid and never changes a route.
use cs.Base.{
  ℕ, suc, ◌+◌, ◌≡◌, ◌≢◌, refl, sym, ◌∙◌, inl, inr, List, [], ◌∷◌, not, ◌&&◌, ◌==◌, Option, none,
  some, arith, minus_one, Option-cases, u32, lt_int, Bool-cases, leb, drop, if-both,
}
use cs.Topology.{Site, get_my_node_id}
use cs.Wire.Layout.{Packet, get4}
use cs.Network.Neighbors.{nbrcosttable_getcost}
use cs.Network.Distance.{dvtable_setcost, dvtable_getcost}
use cs.Network.Distance.Laws.{nodes_of, setcost-nodes_of}
use cs.Network.Routes.{Routes, routingtable_setnextnode, routingtable_getnextnode}
use cs.Network.Routes.Laws.{IsValid, setnextnode-IsValid, getnextnode-setnextnode}
use cs.Network.Update.{UpdateEntry, read_entries, max_node_num}
use cs.Network.Handler.{
  Net, Output, apply_entry, apply_entries, handle_update, handle_own, handle, pkthandler, copy_in,
  route_update, mnp, updated, ◌ahead_of◌,
}

-- The second table is valid and has the routes of the first.
pub record Extends (old new : Routes) : Type 0 where
  pub valid : IsValid new
  pub kept :
      (q : ℕ)
      → routingtable_getnextnode old q ≢ minus_one
      → routingtable_getnextnode new q ≡ routingtable_getnextnode old q

Extends-refl : (rt : Routes) → IsValid rt → Extends rt rt
Extends-refl rt v = record { valid = v; kept = λ q h. refl }

Extends-trans : {a b c : Routes} → Extends a b → Extends b c → Extends a c
Extends-trans x y = record {
  valid = y.valid;
  kept = λ q h. y.kept q (λ e. h (sym (x.kept q h) ∙ e)) ∙ x.kept q h;
}

setnextnode-Extends :
    (fresh : ℕ) (rt : Routes) (dest next : ℕ)
    → IsValid rt
    → Extends rt (routingtable_setnextnode fresh rt dest next)
setnextnode-Extends fresh rt dest next v = record {
  valid = setnextnode-IsValid fresh rt dest next v;
  kept = λ q h. ground (arith, getnextnode-setnextnode fresh rt dest next q v);
}

-- What handling keeps of the process's tables.
pub record Keeps (old new : Net) : Type 0 where
  pub routes : Extends old.routing_table new.routing_table
  pub rows : nodes_of new.dv_table ≡ nodes_of old.dv_table
  pub nbrs : new.nbr_cost_table ≡ old.nbr_cost_table

Keeps-refl : (net : Net) → IsValid net.routing_table → Keeps net net
Keeps-refl net v = record { routes = Extends-refl net.routing_table v; rows = refl; nbrs = refl }

Keeps-trans : {a b c : Net} → Keeps a b → Keeps b c → Keeps a c
Keeps-trans x y = record {
  routes = Extends-trans x.routes y.routes;
  rows = y.rows ∙ x.rows;
  nbrs = y.nbrs ∙ x.nbrs;
}

pub apply_entry-Keeps :
    (site : Site) (heap : ℕ → ℕ) (i src : ℕ) (net : Net) (e : UpdateEntry)
    → IsValid net.routing_table
    → Keeps net (apply_entry site heap i src net e)
apply_entry-Keeps site heap i src net e v =
    let me = get_my_node_id site in
    let dv = (dvtable_setcost site net.dv_table src e.node e.cost).1 in
    let set_once = setcost-nodes_of site net.dv_table src e.node e.cost in
    let nbr_cost = u32 (nbrcosttable_getcost site net.nbr_cost_table src + e.cost) in
    elim (Bool-cases (lt_int nbr_cost (dvtable_getcost site dv me e.node))) [
      | inl better ↦
          unfold apply_entry in
          rw better (record {
            routes = setnextnode-Extends (heap i) net.routing_table e.node src v;
            rows = setcost-nodes_of site dv me e.node nbr_cost ∙ set_once;
            nbrs = refl;
          })
      | inr worse ↦
          unfold apply_entry in
          rw worse
            (record { routes = Extends-refl net.routing_table v; rows = set_once; nbrs = refl })
    ]

pub apply_entries-Keeps :
    (site : Site) (heap : ℕ → ℕ) (i src : ℕ) (net : Net) (es : List UpdateEntry)
    → IsValid net.routing_table
    → Keeps net (apply_entries site heap i src net es)
unfolding apply_entries
apply_entries-Keeps site heap i src net [] v = Keeps-refl net v
apply_entries-Keeps site heap i src net (e ∷ es) v =
    let first = apply_entry-Keeps site heap i src net e v in
    Keeps-trans first (
      apply_entries-Keeps site heap (suc i) src (apply_entry site heap i src net e) es
        first.routes.valid)

-- Of a result that may be missing.
abbrev pub IfSome {ℓ κ} : {A : Type ℓ} → (A → Type κ) → Option A → Type κ
IfSome P none = Unit
IfSome P (some a) = P a

handle_update-Keeps :
    (site : Site) (heap : ℕ → ℕ) (net : Net) (p : Packet)
    → IsValid net.routing_table
    → IfSome (Keeps net) (handle_update site heap net p)
handle_update-Keeps site heap net p v =
    let bytes = copy_in p.header.length p.payload net.pkt_update in
    let read : Net = record net { pkt_update = bytes } in
    let start : Keeps net read = record {
      routes = Extends-refl net.routing_table v;
      rows = refl;
      nbrs = refl;
    } in
    elim (Bool-cases (leb p.header.length 84 && leb (get4 bytes 0) max_node_num)) [
      | inl fits ↦
          unfold handle_update in
          rw fits (
            Keeps-trans start (
              apply_entries-Keeps site heap 0 p.header.src_node read
                (read_entries (get4 bytes 0) (drop 4 bytes)) v))
      | inr past ↦ unfold handle_update in rw past tt
    ]

abbrev pub KeepsFirst : Net → Net × List Output → Type 0
KeepsFirst net r = Keeps net r.0

handle_own-Keeps :
    (net : Net) (p : Packet)
    → IsValid net.routing_table
    → IfSome (KeepsFirst net) (handle_own net p)
handle_own-Keeps net p v = elim (Bool-cases (leb p.header.length 1488)) [
  | inl fits ↦
      unfold handle_own in
      rw fits (record { routes = Extends-refl net.routing_table v; rows = refl; nbrs = refl })
  | inr past ↦ unfold handle_own in rw past tt
]

updated-Keeps :
    (net : Net) (r : Option Net) → IfSome (Keeps net) r → IfSome (KeepsFirst net) (updated r)
updated-Keeps net none h = tt
updated-Keeps net (some r) h = h

-- Whatever packet is handled, every destination that has a next hop keeps it, and the table stays
-- valid; the rows of the distance vectors and the neighbour costs stay for the same nodes.
pub handle-Keeps :
    (site : Site) (heap : ℕ → ℕ) (net : Net) (p : Packet)
    → IsValid net.routing_table
    → IfSome (KeepsFirst net) (handle site heap net p)
handle-Keeps site heap net p v =
    let same = Keeps-refl net v in
    let P = IfSome (KeepsFirst net) in
    unfold handle in
    if-both P (p.header.type == route_update) _ _
      (updated-Keeps net (handle_update site heap net p) (handle_update-Keeps site heap net p v))
      (if-both P (p.header.dest_node == get_my_node_id site && p.header.type == mnp) _ _
        (handle_own-Keeps net p v)
        (if-both P (not (p.header.dest_node == get_my_node_id site) && p.header.type == mnp) _ _
          same same))

ahead_of-Keeps :
    (net next : Net) (out : List Output) (r : Option (Net × List Output))
    → Keeps net next
    → IfSome (KeepsFirst next) r
    → IfSome (KeepsFirst net) (out ahead_of r)
ahead_of-Keeps net next out none k h = tt
ahead_of-Keeps net next out (some r) k h = Keeps-trans k h

-- From a valid routing table, however many packets pkthandler handles, unless it faults: the
-- routing table is valid, every destination that had a next hop still has it, the rows of the
-- distance vectors are for the same nodes, and the neighbour costs are as before.
pub pkthandler-Keeps :
    (site : Site) (heap : ℕ → ℕ → ℕ) (k : ℕ) (net : Net) (ps : List Packet)
    → IsValid net.routing_table
    → IfSome (KeepsFirst net) (pkthandler site heap k net ps)
unfolding pkthandler
pkthandler-Keeps site heap k net [] v = Keeps-refl net v
pkthandler-Keeps site heap k net (p ∷ ps) v =
    let first = handle-Keeps site (heap k) net p v in
    elim (Option-cases (handle site (heap k) net p)) [
      | inl e ↦ rw (e, IfSome) tt
      | inr ((next, out), e) ↦
          let kept : Keeps net next = rw e at first in
          rw (e, IfSome)
            (ahead_of-Keeps net next out (pkthandler site heap (suc k) next ps) kept
              (pkthandler-Keeps site heap (suc k) next ps kept.routes.valid))
    ]
