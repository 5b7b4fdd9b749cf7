-- ===== src/Overlay/Neighbors/Laws.antt =====
-- A neighbour table, and what nt_addconn changes in it.
use Prim.Native.String.{String}
use cs.Base.{
  ℕ, suc, ◌+◌, ◌≡◌, ◌≢◌, refl, sym, ap, ◌∙◌, List, [], ◌∷◌, ◌++◌, true, ◌==◌, is_positive,
  if◌then◌else◌, minus_one, if-both, member, some, ok, length, All, arith, inl, inr, Bool-cases,
}
use cs.Topology.{Line, Site, get_my_node_id, get_node_id_from_name, get_nbr_num, other_ends}
use cs.Topology.Laws.{get_nbr_num_lem}
use cs.Overlay.Neighbors.{
  NbrEntry, get_node_id_from_ip, entries_of, nt_create, rounds, addconn_from, nt_addconn,
}

abbrev pub nodes_of : List NbrEntry → List ℕ
nodes_of [] = []
nodes_of (e ∷ es) = e.node ∷ nodes_of es

-- No two entries have the same node ID.
abbrev pub Distinct : List NbrEntry → Type 0
Distinct [] = Unit
Distinct (e ∷ es) = All (λ f. e.node ≢ f.node) es × Distinct es

-- A table with an entry for each neighbour that topology_getNbrNum counts, with different node IDs
-- that are positive, and with the addresses of the nodes.
pub record IsTable (site : Site) (t : List NbrEntry) : Type 0 where
  pub size : length t ≡ rounds (get_nbr_num site)
  pub distinct : Distinct t
  pub positive : All (λ e. is_positive e.node ≡ true) t
  pub addressed : All (λ e. get_node_id_from_ip e.ip ≡ e.node) t

entries_of-other_ends :
    (site : Site) (address : String → ℕ) (ls : List Line)
    → nodes_of (entries_of site address ls) ≡ other_ends site ls
unfolding entries_of other_ends
entries_of-other_ends site address [] = refl
entries_of-other_ends site address (l ∷ ls) = ground (arith, entries_of-other_ends site address ls)

length-nodes_of : (t : List NbrEntry) → length (nodes_of t) ≡ length t
length-nodes_of [] = refl
length-nodes_of (e ∷ es) = ap suc (length-nodes_of es)

unconnected :
    (site : Site) (address : String → ℕ) (ls : List Line)
    → All (λ e. e.conn ≡ minus_one) (entries_of site address ls)
unfolding entries_of
unconnected site address [] = tt
unconnected site address (l ∷ ls) =
    let rest = unconnected site address ls in
    let P = All (λ e. e.conn ≡ minus_one) in
    let me = get_my_node_id site in
    if-both P (get_node_id_from_name site l.host1 == me) _ _ (refl, rest)
      (if-both P (get_node_id_from_name site l.host2 == me) _ _ (refl, rest) rest)

-- If topology.dat can be opened, nt_create makes a table of as many entries as topology_getNbrNum
-- counts, which is what it allocated, with the node IDs that topology_getNbrArray gathers, in their
-- order, and no connection.
pub nt_create-get_nbr_num :
    (site : Site) (address : String → ℕ) {ls : List Line}
    → site.file ≡ some ls
    → (t : List NbrEntry) × (nt_create site address ≡ some t)
      × (length t ≡ get_nbr_num site)
      × (nodes_of t ≡ other_ends site ls)
      × All (λ e. e.conn ≡ minus_one) t
nt_create-get_nbr_num site address {ls} e =
    let t = entries_of site address ls in
    let nodes = entries_of-other_ends site address ls in
    (
      t,
      unfold nt_create in ground arith,
      sym (length-nodes_of t) ∙ ap length nodes ∙ sym (get_nbr_num_lem site e),
      nodes,
      unconnected site address ls,
    )

-- The entry with the node ID `node`, behind others that do not have it.
pub addconn_from_lem :
    (done : List NbrEntry) (e : NbrEntry) (es : List NbrEntry) (m conn : ℕ)
    → All (λ f. f.node ≢ e.node) done
    → is_positive e.node ≡ true
    → addconn_from (length done + suc m) (done ++ e ∷ es) e.node conn
      ≡ ok (1, done ++ record e { conn = conn } ∷ es)
unfolding addconn_from
addconn_from_lem [] e es m conn apart p =
    let n : 0 + suc m ≡ suc m = omega arith in rw n (ground arith)
addconn_from_lem (d ∷ done) e es m conn apart p =
    let n : suc (length done) + suc m ≡ suc (length done + suc m) = omega arith in
    rw n (ground (arith, addconn_from_lem done e es m conn apart.1 p, apart.0))

-- What nt_addconn makes of a table.
abbrev pub joined : ℕ → ℕ → List NbrEntry → List NbrEntry
joined node conn [] = []
joined node conn (e ∷ es) =
    (if e.node == node then record e { conn = conn } else e) ∷ joined node conn es

joined_other :
    (node conn : ℕ) (es : List NbrEntry) → All (λ f. node ≢ f.node) es → joined node conn es ≡ es
joined_other node conn [] h = refl
joined_other node conn (e ∷ es) h = ground (arith, h.0, joined_other node conn es h.1)

-- nt_addconn on such a table does not fault: it returns 1 and sets the connection of the neighbour's
-- entry, or returns -1 and changes nothing if no entry has the node ID.
addconn_from-joined :
    (node conn : ℕ) (t : List NbrEntry)
    → Distinct t
    → All (λ e. is_positive e.node ≡ true) t
    → addconn_from (length t) t node conn
      ≡ ok (if member node (nodes_of t) then 1 else minus_one, joined node conn t)
unfolding addconn_from
addconn_from-joined node conn [] d p = refl
addconn_from-joined node conn (e ∷ es) d p = elim (Bool-cases (e.node == node)) [
  | inl same ↦
      let eq : node ≡ e.node = ground arith in
      rw eq (ground (arith, p.0, joined_other e.node conn es d.0))
  | inr other ↦ ground (arith, addconn_from-joined node conn es d.1 p.1)
]

pub nt_addconn-joined :
    (site : Site) (node conn : ℕ) (t : List NbrEntry)
    → IsTable site t
    → nt_addconn site t node conn
      ≡ ok (if member node (nodes_of t) then 1 else minus_one, joined node conn t)
unfolding nt_addconn
nt_addconn-joined site node conn t v =
    rw (← v.size) (addconn_from-joined node conn t v.distinct v.positive)
