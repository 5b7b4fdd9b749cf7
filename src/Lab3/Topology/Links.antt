-- ===== src/Lab3/Topology/Links.antt =====
-- The neighbours and costs of lab3/topology/topology.c, against those of lab4/topology/topology.c.
use cs.Base.{
  ℕ, ◌+◌, ◌<◌, ◌≤◌, ◌≡◌, refl, sym, ap, subst, List, [], ◌∷◌, ◌++◌, Bool, true, false, ◌==◌, ◌&&◌,
  ◌||◌, ltb, length, take, drop, set, none, some, ok, and_then, arith, inl, inr, Bool-cases,
  length-append, append_assoc, length-replicate, take_front, append-nil, length-drop,
}
use cs.Topology.{Line, Site, get_my_node_id, get_node_id_from_name, ends, other_ends, copy_positive}
use cs.Topology as Lab4
use cs.Lab3.Topology.{if_opened, cleared, store, gather, get_nbr_array}

length-cleared : (n : ℕ) → length (cleared n) ≡ n
unfolding cleared
length-cleared n = length-replicate n 0

set-end :
    (front spare : List ℕ) (v : ℕ)
    → 0 < length spare
    → set (front ++ spare) (length front) v ≡ (front ++ v ∷ []) ++ drop 1 spare
set-end [] [] v h = absurd (omega arith)
set-end [] (y ∷ ys) v h = refl
set-end (x ∷ front) spare v h = ap (λ t. x ∷ t) (set-end front spare v h)

store_lem :
    (front spare : List ℕ) (v : ℕ)
    → 0 < length spare
    → store v (front ++ spare, length front)
      ≡ ok ((front ++ v ∷ []) ++ drop 1 spare, length (front ++ v ∷ []))
unfolding store
store_lem front spare v h =
    let room : ltb (length front) (length (front ++ spare)) ≡ true =
      ground (arith, length-append front spare, h) in
    let size : length front + 1 ≡ length (front ++ v ∷ []) =
      omega (arith, length-append front (v ∷ [])) in
    rw (room, set-end front spare v h, size) refl

abbrev IsGathered : Site → List Line → List ℕ → List ℕ → List ℕ → Type 0
IsGathered site ls front spare rest =
    let all = front ++ other_ends site ls in
    gather site (front ++ spare, length front) ls ≡ ok (all ++ rest, length all)

-- The array behind `front` after the lines, when it has room for one ID of each.
gather_lem :
    (site : Site) (ls : List Line) (front spare : List ℕ)
    → length ls ≤ length spare
    → (rest : List ℕ) × IsGathered site ls front spare rest
unfolding gather other_ends
gather_lem site [] front spare h = let e = append-nil front in (spare, rw e refl)
gather_lem site (l ∷ ls) front spare h =
    let me = get_my_node_id site in
    let a = get_node_id_from_name site l.host1 in
    let b = get_node_id_from_name site l.host2 in
    let room : 0 < length spare = omega (arith, h) in
    let left : length ls ≤ length (drop 1 spare) = omega (arith, h, length-drop 1 spare) in
    let out = other_ends site ls in
    elim (Bool-cases (a == me)) [
      | inl mine ↦
          let (rest, run) = gather_lem site ls (front ++ b ∷ []) (drop 1 spare) left in
          (rest, rw (mine, store_lem front spare b room, ← append_assoc front (b ∷ []) out) run)
      | inr other ↦ elim (Bool-cases (me == b)) [
        | inl mine ↦
            let (rest, run) = gather_lem site ls (front ++ a ∷ []) (drop 1 spare) left in
            (
              rest,
              rw (other, mine, store_lem front spare a room, ← append_assoc front (a ∷ []) out) run,
            )
        | inr neither ↦
            let (rest, run) = gather_lem site ls front spare (omega (arith, h)) in
            (rest, rw (other, neither) run)
      ]
    ]

-- Where topology.dat has at most 2,048 lines, topology_getNbrArray does not write past its array and
-- returns what lab4's does.
pub get_nbr_array_lem :
    (site : Site) (ls : List Line)
    → site.file ≡ some ls
    → length ls ≤ 2048
    → get_nbr_array site ≡ ok (Lab4.get_nbr_array site)
unfolding get_nbr_array Lab4.get_nbr_array
get_nbr_array_lem site ls e h =
    let all = other_ends site ls in
    let (rest, run) =
      gather_lem site ls [] (cleared 2048) (omega (arith, h, length-cleared 2048)) in
    let copied : take (length all) (all ++ rest) ≡ all = take_front all rest refl in
    subst
      (λ f.
        if_opened f (ok none) (λ ls.
          and_then (gather site (cleared 2048, 0) ls)
            (λ s. ok (some (copy_positive site (take s.1 s.0)))))
        ≡ ok (elim f [ none ↦ none | some ls ↦ some (copy_positive site (other_ends site ls)) ]))
      (sym e) (rw (run, copied) refl)

-- The lines of the file, each followed by the line in the other direction.
abbrev pub both_ways : List Line → List Line
both_ways [] = []
both_ways (l ∷ ls) =
    l ∷ record { host1 = l.host2; host2 = l.host1; link_cost = l.link_cost } ∷ both_ways ls

-- Does a line join the two nodes, in either direction?
abbrev pub linked : Site → ℕ → ℕ → List Line → Bool
linked site from to [] = false
linked site from to (l ∷ ls) =
    let (a, b) = ends site l in
    (from == a && to == b || from == b && to == a) || linked site from to ls
