-- ===== src/Network/Distance/Laws.antt =====
-- What dvtable_getcost reads after dvtable_setcost.
use cs.Base.{
  ℕ, zero, suc, ◌+◌, ◌≡◌, ◌≢◌, refl, List, [], ◌∷◌, Bool, true, false, ◌&&◌, ◌==◌, if◌then◌else◌,
  Option, none, some, arith,
}
use cs.Topology.{Site, get_my_node_id, get_nbr_num, get_node_num}
use cs.Network.Distance.{
  DvEntry, Dv, set_entry, set_rows, get_entry, get_rows, dvtable_setcost, dvtable_getcost,
  or_infinite,
}

-- A write to a cost that is there.
abbrev pub written : ℕ → Option ℕ → Option ℕ
written cost none = none
written cost (some c) = some cost

abbrev or_same : List DvEntry → Option (List DvEntry) → List DvEntry
or_same es none = es
or_same es (some es') = es'

get_entry-set_entry :
    (m : ℕ) (es : List DvEntry) (to cost q : ℕ)
    → get_entry m (or_same es (set_entry m es to cost)) q
      ≡ (if to == q then written cost (get_entry m es q) else get_entry m es q)
unfolding get_entry set_entry
get_entry-set_entry zero es to cost q = ground arith
get_entry-set_entry (suc m) [] to cost q = ground arith
get_entry-set_entry (suc m) (e ∷ es) to cost q = ground (arith, get_entry-set_entry m es to cost q)

abbrev found {ℓ} : {A : Type ℓ} → Option A → Bool
found none = false
found (some a) = true

set_entry_finds :
    (m : ℕ) (es : List DvEntry) (to cost : ℕ)
    → found (set_entry m es to cost) ≡ found (get_entry m es to)
unfolding get_entry set_entry
set_entry_finds zero es to cost = refl
set_entry_finds (suc m) [] to cost = refl
set_entry_finds (suc m) (e ∷ es) to cost = ground (arith, set_entry_finds m es to cost)

-- Looking over `n` rows, after a write that looked over one more.
get_rows-set_rows :
    (n m : ℕ) (dv : List Dv) (from to cost p q : ℕ)
    → get_rows n m (set_rows (suc n) m dv from to cost).1 p q
      ≡ (if from == p && to == q then written cost (get_rows n m dv p q) else get_rows n m dv p q)
unfolding get_rows set_rows
get_rows-set_rows zero m dv from to cost p q = ground arith
get_rows-set_rows (suc n) m [] from to cost p q = ground arith
get_rows-set_rows (suc n) m (r ∷ rs) from to cost p q = ground (
  arith,
  get_rows-set_rows n m rs from to cost p q,
  get_entry-set_entry m r.entries to cost q,
  set_entry_finds m r.entries to cost,
)

pub getcost_lem :
    (site : Site) (dv : List Dv) (p q : ℕ)
    → dvtable_getcost site dv p q
      ≡ or_infinite (get_rows (get_nbr_num site) (get_node_num site) dv p q)
unfolding dvtable_getcost
getcost_lem site dv p q = refl

setcost_lem :
    (site : Site) (dv : List Dv) (from to cost : ℕ)
    → dvtable_setcost site dv from to cost
      ≡ set_rows (suc (get_nbr_num site)) (get_node_num site) dv from to cost
unfolding dvtable_setcost
setcost_lem site dv from to cost =
    let one_more : get_nbr_num site + 1 ≡ suc (get_nbr_num site) = omega arith in rw one_more

-- dvtable_getcost after dvtable_setcost: the new cost at the pair of nodes that was set, if the rows
-- that dvtable_getcost looks over (all but the last) have an entry for it, and the old cost at
-- every other pair.
pub getcost-setcost :
    (site : Site) (dv : List Dv) (from to cost p q : ℕ)
    → dvtable_getcost site (dvtable_setcost site dv from to cost).1 p q ≡ (
        if from == p && to == q && found (get_rows (get_nbr_num site) (get_node_num site) dv p q)
        then cost
        else dvtable_getcost site dv p q)
getcost-setcost site dv from to cost p q =
    let n = get_nbr_num site in
    let m = get_node_num site in
    ground (
      arith,
      setcost_lem site dv from to cost,
      getcost_lem site dv p q,
      getcost_lem site (dvtable_setcost site dv from to cost).1 p q,
      get_rows-set_rows n m dv from to cost p q,
    )

-- The source nodes of the rows.
abbrev pub nodes_of : List Dv → List ℕ
nodes_of [] = []
nodes_of (r ∷ rs) = r.node ∷ nodes_of rs

set_rows-nodes_of :
    (n m : ℕ) (dv : List Dv) (from to cost : ℕ)
    → nodes_of (set_rows n m dv from to cost).1 ≡ nodes_of dv
unfolding set_rows
set_rows-nodes_of zero m dv from to cost = refl
set_rows-nodes_of (suc n) m [] from to cost = refl
set_rows-nodes_of (suc n) m (r ∷ rs) from to cost =
    ground (arith, set_rows-nodes_of n m rs from to cost)

pub setcost-nodes_of :
    (site : Site) (dv : List Dv) (from to cost : ℕ)
    → nodes_of (dvtable_setcost site dv from to cost).1 ≡ nodes_of dv
unfolding dvtable_setcost
setcost-nodes_of site dv from to cost =
    set_rows-nodes_of (get_nbr_num site + 1) (get_node_num site) dv from to cost

-- None of the first `n` nodes is `me`.
abbrev pub Others : ℕ → ℕ → List ℕ → Type 0
Others zero me ns = Unit
Others (suc n) me [] = Unit
Others (suc n) me (k ∷ ns) = (me ≢ k) × Others n me ns

get_rows-Others :
    (n m : ℕ) (dv : List Dv) (me q : ℕ) → Others n me (nodes_of dv) → get_rows n m dv me q ≡ none
unfolding get_rows
get_rows-Others zero m dv me q h = refl
get_rows-Others (suc n) m [] me q h = refl
get_rows-Others (suc n) m (r ∷ rs) me q h = ground (arith, get_rows-Others n m rs me q h.1)

-- If no neighbour's row is for this node, dvtable_getcost gives INFINITE_COST for every cost from
-- this node, in any table, also right after dvtable_setcost has set that cost and returned 1.
pub own_cost_infinite :
    (site : Site) (dv : List Dv) (to cost q : ℕ)
    → Others (get_nbr_num site) (get_my_node_id site) (nodes_of dv)
    → (dvtable_getcost site dv (get_my_node_id site) q ≡ 999)
      × (dvtable_getcost site
            (dvtable_setcost site dv (get_my_node_id site) to cost).1
            (get_my_node_id site)
            q
          ≡ 999)
own_cost_infinite site dv to cost q h =
    let me = get_my_node_id site in
    let old = get_rows-Others (get_nbr_num site) (get_node_num site) dv me q h in
    let get : dvtable_getcost site dv me q ≡ 999 = ground (arith, getcost_lem site dv me q) in
    (get, ground (arith, getcost-setcost site dv me to cost me q))
