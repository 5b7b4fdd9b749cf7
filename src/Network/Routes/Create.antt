-- ===== src/Network/Routes/Create.antt =====
-- The routing table that routingtable_create builds.
use cs.Base.{
  ℕ, suc, ◌%◌, ◌≡◌, refl, List, [], ◌∷◌, false, ◌&&◌, ◌==◌, if◌then◌else◌, some, arith, minus_one,
  is_positive, is_negative, replicate, member, get_or-replicate,
}
use cs.Topology.{Site, get_nbr_num, get_nbr_array, first_of_array}
use cs.Network.Routes.{
  chain_find, Entry, Routes, insert_all, routingtable_create, routingtable_setnextnode,
  routingtable_getnextnode,
}
use cs.Network.Routes.Laws.{IsValid, setnextnode-IsValid, getnextnode-setnextnode, getnextnode_lem}

empty-IsValid : IsValid (replicate 10 [])
empty-IsValid = record {
  slots = refl;
  placed = (tt, (tt, (tt, (tt, (tt, (tt, (tt, (tt, (tt, (tt, tt))))))))));
}

no_routes : (q : ℕ) → routingtable_getnextnode (replicate 10 []) q ≡ minus_one
unfolding chain_find
no_routes q = ground (
  arith,
  getnextnode_lem (replicate 10 []) q empty-IsValid,
  get_or-replicate {A = List Entry} 10 (q % 10) [],
)

insert_all-suc :
    (heap : ℕ → ℕ) (i : ℕ) (rt : Routes) (n : ℕ) (ns : List ℕ)
    → insert_all heap i rt (n ∷ ns)
      ≡ insert_all heap (suc i) (routingtable_setnextnode (heap i) rt n n) ns
unfolding insert_all routingtable_setnextnode
insert_all-suc heap i rt n ns = refl

insert_all-IsValid :
    (heap : ℕ → ℕ) (i : ℕ) (rt : Routes) (ns : List ℕ)
    → IsValid rt
    → IsValid (insert_all heap i rt ns)
insert_all-IsValid heap i rt [] v = unfold insert_all in v
insert_all-IsValid heap i rt (n ∷ ns) v =
    rw (insert_all-suc heap i rt n ns)
      (insert_all-IsValid heap (suc i) _ ns (setnextnode-IsValid (heap i) rt n n v))

getnextnode-insert_all :
    (heap : ℕ → ℕ) (i : ℕ) (rt : Routes) (ns : List ℕ) (q : ℕ)
    → ((k : ℕ) → is_negative (heap k) ≡ false)
    → IsValid rt
    → routingtable_getnextnode (insert_all heap i rt ns) q ≡ (
        if routingtable_getnextnode rt q == minus_one && member q ns && is_positive q
        then q
        else routingtable_getnextnode rt q)
getnextnode-insert_all heap i rt [] q clean v = unfold insert_all in ground arith
getnextnode-insert_all heap i rt (n ∷ ns) q clean v = ground (
  arith,
  insert_all-suc heap i rt n ns,
  clean i,
  getnextnode-setnextnode (heap i) rt n n q v,
  getnextnode-insert_all heap (suc i) (routingtable_setnextnode (heap i) rt n n) ns q clean
      (setnextnode-IsValid (heap i) rt n n v),
)

-- If the array of neighbours can be read in full, and no fresh memory looks negative,
-- routingtable_create returns a valid table in which the next hop to a neighbour, with a positive
-- node ID, is that neighbour, and every other destination has none.
pub routingtable_create_lem :
    (site : Site) (heap : ℕ → ℕ) (nbrs : List ℕ)
    → first_of_array (get_nbr_num site) (get_nbr_array site) ≡ some nbrs
    → ((k : ℕ) → is_negative (heap k) ≡ false)
    → (rt : Routes) × (routingtable_create site heap ≡ some rt)
      × IsValid rt
      × ((q : ℕ)
          → routingtable_getnextnode rt q
            ≡ (if member q nbrs && is_positive q then q else minus_one))
routingtable_create_lem site heap nbrs e clean =
    let empty : Routes = replicate 10 [] in
    let rt = insert_all heap 0 empty nbrs in
    (
      rt,
      unfold routingtable_create in ground arith,
      insert_all-IsValid heap 0 empty nbrs empty-IsValid,
      λ q.
          ground
            (arith, no_routes q, getnextnode-insert_all heap 0 empty nbrs q clean empty-IsValid),
    )
