-- ===== src/Network/Handler.antt =====
-- lab4/network/network.c: the thread pkthandler, and waitTransport. The mutexes are held over
-- each update of the tables, so a packet is handled in one step.
pub mod Extends
pub mod Own
pub mod Deliver
use cs.Base.{
  ℕ, zero, suc, ◌+◌, ◌*◌, List, [], ◌∷◌, ◌++◌, Bool, true, false, not, ◌&&◌, ◌==◌, leb, lt_int, u32,
  if◌then◌else◌, take, drop, Option, none, some,
}
use cs.Topology.{Site, get_my_node_id}
use cs.Wire.Layout.{
  Packet, Segment, SendSegmentArg, MnpHeader, encode_segment, decode_segment, get4,
}
use cs.Network.Neighbors.{NbrCost, nbrcosttable_getcost}
use cs.Network.Distance.{Dv, dvtable_setcost, dvtable_getcost}
use cs.Network.Routes.{Routes, routingtable_setnextnode, routingtable_getnextnode}
use cs.Network.Update.{UpdateEntry, read_entries, max_node_num}

abbrev pub route_update : ℕ
route_update = 1

abbrev pub mnp : ℕ
mnp = 2

-- The tables of the process, and the bytes of the thread's local variables `pktUpdate` and
-- `segment`, which stay from one packet to the next.
pub record Net : Type 0 where
  pub nbr_cost_table : List NbrCost
  pub dv_table : List Dv
  pub routing_table : Routes
  pub pkt_update : List ℕ
  pub segment : List ℕ

-- The calls of overlay_sendpkt and forwardsegToMRT, whose results are not looked at.
pub data Output : Type 0 where
  to_overlay : ℕ → Packet → Output
  to_mrt : ℕ → Segment → Output

-- One round of the loop over the entries: `heap i` is what the memory that round `i` may allocate
-- holds.
unfoldable pub apply_entry : Site → (ℕ → ℕ) → ℕ → ℕ → Net → UpdateEntry → Net
apply_entry site heap i src net e =
    let me = get_my_node_id site in
    let dv = (dvtable_setcost site net.dv_table src e.node e.cost).1 in
    let dv_cost = dvtable_getcost site dv me e.node in
    let nbr_cost = u32 (nbrcosttable_getcost site net.nbr_cost_table src + e.cost) in
    if lt_int nbr_cost dv_cost
    then record net {
      dv_table = (dvtable_setcost site dv me e.node nbr_cost).1;
      routing_table = routingtable_setnextnode (heap i) net.routing_table e.node src;
    }
    else record net { dv_table = dv }

unfoldable pub apply_entries : Site → (ℕ → ℕ) → ℕ → ℕ → Net → List UpdateEntry → Net
apply_entries site heap i src net [] = net
apply_entries site heap i src net (e ∷ es) =
    apply_entries site heap (suc i) src (apply_entry site heap i src net e) es

-- `memset(&v, 0, n); memcpy(&v, packet.data, n);` on the bytes of `v`
unfoldable pub copy_in : ℕ → List ℕ → List ℕ → List ℕ
copy_in n payload old = take n payload ++ drop n old

-- A ROUTE_UPDATE packet; `none` is a write or read past `pktUpdate`, of 84 bytes with 10 entries.
unfoldable pub handle_update : Site → (ℕ → ℕ) → Net → Packet → Option Net
handle_update site heap net p =
    let bytes = copy_in p.header.length p.payload net.pkt_update in
    let count = get4 bytes 0 in
    if leb p.header.length 84 && leb count max_node_num
    then some (
        apply_entries site heap 0 p.header.src_node (record net { pkt_update = bytes })
          (read_entries count (drop 4 bytes)))
    else none

-- A packet for this node; `none` is a write past `segment`, of 1488 bytes.
unfoldable pub handle_own : Net → Packet → Option (Net × List Output)
handle_own net p =
    let bytes = copy_in p.header.length p.payload net.segment in
    if leb p.header.length 1488
    then some (record net { segment = bytes }, to_mrt p.header.src_node (decode_segment bytes) ∷ [])
    else none

-- A route update calls nothing.
abbrev pub updated : Option Net → Option (Net × List Output)
updated none = none
updated (some net) = some (net, [])

-- The body of the loop of pkthandler.
unfoldable pub handle : Site → (ℕ → ℕ) → Net → Packet → Option (Net × List Output)
handle site heap net p =
    let me = get_my_node_id site in
    if p.header.type == route_update
    then updated (handle_update site heap net p)
    else if p.header.dest_node == me && p.header.type == mnp
    then handle_own net p
    else if not (p.header.dest_node == me) && p.header.type == mnp
    then some
        (net, to_overlay (routingtable_getnextnode net.routing_table p.header.dest_node) p ∷ [])
    else some (net, [])

-- Calls made before a run.
infixr 5 ◌ahead_of◌
abbrev pub ◌ahead_of◌ : List Output → Option (Net × List Output) → Option (Net × List Output)
out ahead_of none = none
out ahead_of some (net, outs) = some (net, out ++ outs)

-- The loop, over the packets that overlay_recvpkt returns before it fails. `heap k i` is what the
-- memory allocated in round `i` of packet `k` holds.
unfoldable pub pkthandler : Site → (ℕ → ℕ → ℕ) → ℕ → Net → List Packet → Option (Net × List Output)
pkthandler site heap k net [] = some (net, [])
pkthandler site heap k net (p ∷ ps) = elim (handle site (heap k) net p) [
  | none ↦ none
  | some (net', out) ↦ out ahead_of pkthandler site heap (suc k) net' ps
]

-- The inner loop of waitTransport, one round for each of the routing tables that the rounds read: it
-- gets a segment once, before the loop, and its test never changes.
unfoldable pub send_rounds : List Routes → Packet → List Output
send_rounds [] p = []
send_rounds (rt ∷ rts) p =
    to_overlay (routingtable_getnextnode rt p.header.dest_node) p ∷ send_rounds rts p

-- What the rounds that read the routing tables `rts` send for a connection whose segments are `args`.
unfoldable pub wait_transport : Site → List Routes → List SendSegmentArg → List Output
unfolding send_rounds
wait_transport site rts [] = []
wait_transport site rts (a ∷ args) =
    let header : MnpHeader = record {
      src_node = get_my_node_id site;
      dest_node = a.node;
      length = 1488;
      type = mnp;
    } in
    send_rounds rts (record { header = header; payload = encode_segment a.segment })
