-- ===== src/Network/Daemon/Inert.antt =====
-- The route updates that routeupdate_daemon sends, and what pkthandler makes of them.
use cs.Base.{
  ℕ, suc, ◌<◌, ◌≤◌, ◌≡◌, refl, sym, ap, ◌∙◌, List, [], ◌∷◌, ◌++◌, length, some, arith, All, take,
  drop, take-append, drop_all, append-nil,
}
use cs.Topology.{Site, get_my_node_id, get_nbr_num}
use cs.Wire.Layout.{Packet, get4, get4-put4}
use cs.Network.Distance.{Dv}
use cs.Network.Distance.Laws.{nodes_of, Others, own_cost_infinite}
use cs.Network.Update.{
  UpdateEntry, IsEntry, read_entries, write_entries, encode_update, read_entries-write_entries,
  length-write_entries,
}
use cs.Network.Handler.{Net, copy_in, handle_update, apply_entries}
use cs.Network.Daemon.{own_vector}

-- At a node that is not among its own neighbours, every cost of the vector is INFINITE_COST.
pub own_vector_infinite :
    (site : Site) (dv : List Dv) (ns : List ℕ)
    → Others (get_nbr_num site) (get_my_node_id site) (nodes_of dv)
    → All (λ e. e.cost ≡ 999) (own_vector site dv ns)
unfolding own_vector
own_vector_infinite site dv [] h = tt
own_vector_infinite site dv (n ∷ ns) h =
    ((own_cost_infinite site dv n 0 n h).0, own_vector_infinite site dv ns h)

pub own_vector-IsEntry :
    (site : Site) (dv : List Dv) (ns : List ℕ)
    → Others (get_nbr_num site) (get_my_node_id site) (nodes_of dv)
    → All (λ n. n < 4294967296) ns
    → All IsEntry (own_vector site dv ns)
unfolding own_vector
own_vector-IsEntry site dv [] h fit = tt
own_vector-IsEntry site dv (n ∷ ns) h fit =
    let cost = (own_cost_infinite site dv n 0 n h).0 in
    (
      record { node_fits = fit.0; cost_fits = rw cost (omega arith) },
      own_vector-IsEntry site dv ns h fit.1,
    )

pub length-own_vector :
    (site : Site) (dv : List Dv) (ns : List ℕ) → length (own_vector site dv ns) ≡ length ns
unfolding own_vector
length-own_vector site dv [] = refl
length-own_vector site dv (n ∷ ns) = ap suc (length-own_vector site dv ns)

pub length-encode_update : (es : List UpdateEntry) → length es ≤ 10 → length (encode_update es) ≡ 84
unfolding encode_update
length-encode_update es h = omega (arith, length-write_entries 10 es h)

-- The bytes that are copied are those that the sender encoded.
copy_in-encode_update :
    (es : List UpdateEntry) (rest old : List ℕ)
    → length es ≤ 10
    → length old ≡ 84
    → copy_in 84 (encode_update es ++ rest) old ≡ encode_update es
unfolding copy_in
copy_in-encode_update es rest old h l =
    let size = length-encode_update es h in
    let front : take 84 (encode_update es ++ rest) ≡ encode_update es =
      rw (← size) (take-append (encode_update es) rest) in
    let back : drop 84 old ≡ [] = rw (← l) (drop_all old) in
    rw (front, back) (append-nil (encode_update es))

decode-encode_update :
    (es : List UpdateEntry)
    → length es ≤ 10
    → All IsEntry es
    → (get4 (encode_update es) 0 ≡ length es)
      × (read_entries (length es) (drop 4 (encode_update es)) ≡ es)
unfolding encode_update
decode-encode_update es h fit = (
  get4-put4 (length es) (write_entries 10 es) (omega arith),
  ap (λ bs. read_entries (length es) bs) (sym (append-nil (write_entries 10 es)))
      ∙ read_entries-write_entries 10 es [] h fit,
)

-- A route update packet of 84 bytes whose array starts with at most ten encoded entries, with
-- fields that fit their types, is handled without a fault, for a variable `pktUpdate` of 84 bytes:
-- the entries that it applies are those that were encoded.
pub handle_update-encode_update :
    (site : Site) (heap : ℕ → ℕ) (net : Net) (p : Packet) (es : List UpdateEntry) (rest : List ℕ)
    → p.header.length ≡ 84
    → p.payload ≡ encode_update es ++ rest
    → length net.pkt_update ≡ 84
    → length es ≤ 10
    → All IsEntry es
    → handle_update site heap net p
      ≡ some (
          apply_entries site heap 0 p.header.src_node
            (record net { pkt_update = encode_update es })
            es)
handle_update-encode_update site heap net p es rest n b l h fit =
    let copied = copy_in-encode_update es rest net.pkt_update h l in
    let parts = decode-encode_update es h fit in
    unfold handle_update in ground (arith, copied, parts.0, parts.1)
