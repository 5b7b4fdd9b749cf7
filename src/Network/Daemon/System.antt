-- ===== src/Network/Daemon/System.antt =====
-- Nodes that broadcast their distance vectors to one another.
use cs.Base.{
  ℕ, suc, ◌≤◌, ◌≡◌, refl, ◌∙◌, inl, inr, List, [], ◌∷◌, ◌++◌, false, ◌==◌, if◌then◌else◌, length,
  some, arith, lt_int, Bool-cases, All, drop,
}
use cs.Topology.{Site, get_my_node_id, get_nbr_num}
use cs.Topology.Laws.{Fits}
use cs.Wire.Layout.{Packet}
use cs.Network.Neighbors.{nbrcosttable_getcost}
use cs.Network.Distance.{Dv}
use cs.Network.Distance.Laws.{nodes_of, Others}
use cs.Network.Routes.Laws.{IsValid}
use cs.Network.Update.{UpdateEntry, encode_update}
use cs.Network.Handler.{Net, handle, handle_update, apply_entry, apply_entries, route_update}
use cs.Network.Handler.Own.{OwnApart, cost_over, apply_entries_infinite}
use cs.Network.Handler.Extends.{apply_entries-Keeps}
use cs.Network.Daemon.{own_vector, broadcast_packet}
use cs.Network.Daemon.Inert.{
  own_vector_infinite, own_vector-IsEntry, length-own_vector, length-encode_update,
  handle_update-encode_update,
}

-- A process that has not met a fault: its own ID is no neighbour's, its routing table is valid, its
-- variable `pktUpdate` has its 84 bytes, and no cost of a direct link comes near 2 ^ 31.
pub record IsSound (site : Site) (net : Net) : Type 0 where
  pub apart : OwnApart site net
  pub valid : IsValid net.routing_table
  pub buffer : length net.pkt_update ≡ 84
  pub small : (n : ℕ) → nbrcosttable_getcost site net.nbr_cost_table n ≤ 2147482648

infinite_over :
    (site : Site) (net : Net) (src : ℕ) (es : List UpdateEntry)
    → ((n : ℕ) → nbrcosttable_getcost site net.nbr_cost_table n ≤ 2147482648)
    → All (λ e. e.cost ≡ 999) es
    → All (λ e. lt_int (cost_over site net src e) 999 ≡ false) es
infinite_over site net src [] small h = tt
infinite_over site net src (e ∷ es) small h =
    (ground (arith, small src, h.0), infinite_over site net src es small h.1)

apply_entry-pkt_update :
    (site : Site) (heap : ℕ → ℕ) (i src : ℕ) (net : Net) (e : UpdateEntry)
    → (apply_entry site heap i src net e).pkt_update ≡ net.pkt_update
unfolding apply_entry
apply_entry-pkt_update site heap i src net e = ground arith

apply_entries-pkt_update :
    (site : Site) (heap : ℕ → ℕ) (i src : ℕ) (net : Net) (es : List UpdateEntry)
    → (apply_entries site heap i src net es).pkt_update ≡ net.pkt_update
unfolding apply_entries
apply_entries-pkt_update site heap i src net [] = refl
apply_entries-pkt_update site heap i src net (e ∷ es) =
    apply_entries-pkt_update site heap (suc i) src (apply_entry site heap i src net e) es
    ∙ apply_entry-pkt_update site heap i src net e

handle-updated :
    (site : Site) (heap : ℕ → ℕ) (net : Net) (p : Packet) {net' : Net}
    → p.header.type ≡ route_update
    → handle_update site heap net p ≡ some net'
    → handle site heap net p ≡ some (net', [])
unfolding handle
handle-updated site heap net p t e = ground arith

-- What a sound process makes of a broadcast of another: no fault, no output, no change of the
-- routing table.
abbrev pub Unmoved : Site → (ℕ → ℕ) → Net → Packet → Type 0
Unmoved site heap net p =
    (net' : Net) × (handle site heap net p ≡ some (net', []))
    × (net'.routing_table ≡ net.routing_table)
    × IsSound site net'

-- The route update of routeupdate_daemon for any node IDs that its ten entries have room for, its own
-- ID being no neighbour's in its table, is handled by every sound process without a fault and
-- without a call, leaves its routing table as it is, and leaves the process sound.
pub handle-broadcast_packet :
    (from at : Site) (dv : List Dv) (nodes old : List ℕ) (heap : ℕ → ℕ) (net : Net)
    → length nodes ≤ 10
    → Fits nodes
    → Others (get_nbr_num from) (get_my_node_id from) (nodes_of dv)
    → IsSound at net
    → Unmoved at heap net (broadcast_packet from dv nodes old)
handle-broadcast_packet from at dv nodes old heap net room fits apart sound =
    let p = broadcast_packet from dv nodes old in
    let es = own_vector from dv nodes in
    let count : length es ≤ 10 = rw (length-own_vector from dv nodes) room in
    let fit = own_vector-IsEntry from dv nodes apart fits in
    let read : Net = record net { pkt_update = encode_update es } in
    let src = get_my_node_id from in
    let length_is : p.header.length ≡ 84 = unfold broadcast_packet in refl in
    let type_is : p.header.type ≡ route_update = unfold broadcast_packet in refl in
    let payload_is : p.payload ≡ encode_update es ++ drop 84 old =
      unfold broadcast_packet in refl in
    let src_is : p.header.src_node ≡ src = unfold broadcast_packet in refl in
    let update =
      handle_update-encode_update at heap net p es (drop 84 old) length_is payload_is sound.buffer
        count fit in
    let kept = apply_entries-Keeps at heap 0 src read es sound.valid in
    (
      apply_entries at heap 0 src read es,
      handle-updated at heap net p type_is (rw (← src_is) update),
      apply_entries_infinite at heap 0 src read es sound.apart sound.valid
          (infinite_over at read src es sound.small (own_vector_infinite from dv nodes apart)),
      record {
        apart = rw kept.rows sound.apart;
        valid = kept.routes.valid;
        buffer =
            rw (apply_entries-pkt_update at heap 0 src read es) (length-encode_update es count);
        small = λ n. rw kept.nbrs (sound.small n);
      },
    )

-- The processes of all nodes, by index, and one broadcast of node `i` that node `j` hears.
module _ (sites : ℕ → Site) where
  pub data Step (nets : ℕ → Net) : (ℕ → Net) → Type 0 where
    hears :
        (i j : ℕ) (heap : ℕ → ℕ) (nodes old : List ℕ) (net' : Net)
        → length nodes ≤ 10
        → Fits nodes
        → handle (sites j) heap (nets j) (broadcast_packet (sites i) (nets i).dv_table nodes old)
          ≡ some (net', [])
        → Step nets (λ k. if k == j then net' else nets k)

  pub data Reach (nets : ℕ → Net) : (ℕ → Net) → Type 0 where
    here : Reach nets nets
    next : {mid last : ℕ → Net} → Reach nets mid → Step mid last → Reach nets last

  abbrev pub Same : (ℕ → Net) → (ℕ → Net) → Type 0
  Same nets last =
      (k : ℕ) → ((last k).routing_table ≡ (nets k).routing_table) × IsSound (sites k) (last k)

  Step-Same :
      {nets last : ℕ → Net}
      → ((k : ℕ) → IsSound (sites k) (nets k))
      → Step nets last
      → Same nets last
  Step-Same {nets} sound (hears i j heap nodes old net' room fits heard) k =
      let (new, run, same, after) =
        handle-broadcast_packet (sites i) (sites j) (nets i).dv_table nodes old heap (nets j) room
          fits (sound i).apart (sound j) in
      elim (Bool-cases (k == j)) [
        | inl e ↦
            let index : k ≡ j = ground arith in
            let got : new ≡ net' = ground (arith, run, heard) in rw (e, index, ← got) (same, after)
        | inr e ↦ rw e (refl, sound k)
      ]

  -- From processes that are sound, no number of broadcasts of route updates between any nodes changes
  -- the routing table of any of them, and all processes stay sound, whatever array of at most ten
  -- node IDs each round of routeupdate_daemon goes through. Sound is a process whose node is no
  -- neighbour of its own, whose routing table is valid, whose variable pktUpdate has its 84 bytes,
  -- and for which no cost of a direct link comes near 2 ^ 31.
  pub Reach-Same :
      {nets last : ℕ → Net}
      → ((k : ℕ) → IsSound (sites k) (nets k))
      → Reach nets last
      → Same nets last
  Reach-Same sound here k = (refl, sound k)
  Reach-Same sound (next r s) k =
      let before = Reach-Same sound r in
      let after = Step-Same (λ n. (before n).1) s k in (after.0 ∙ (before k).0, after.1)
