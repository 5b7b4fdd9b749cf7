-- ===== src/Lab3/Topology.antt =====
-- lab3/topology/topology.c: the node IDs, neighbours and link costs, kept in arrays of 2,048 ints.
pub mod Nodes
pub mod Links
use cs.Base.{
  ℕ, zero, suc, ◌+◌, List, [], ◌∷◌, Bool, ◌&&◌, ◌==◌, ltb, u32, if◌then◌else◌, length, take, set,
  get_elem?, replicate, minus_one, Option, none, some, Run, ok, fault, and_then,
}
use cs.Topology.{Line, Site, get_my_node_id, ends, copy_positive}

-- `int nodes[n]`, cleared by memset.
unfoldable pub cleared : ℕ → List ℕ
cleared n = replicate n 0

-- The array `nodes`, and `nodeNumber`.
abbrev pub Nodes : Type 0
Nodes = List ℕ × ℕ

-- `if (nodes[id] == 0) { nodes[id] = id; nodeNumber++; }`, for what stands at `nodes[id]`
unfoldable pub count_new : ℕ → Nodes → Option ℕ → Run Nodes
count_new id s none = fault
count_new id (nodes, n) (some v) = ok (if v == 0 then (set nodes id id, n + 1) else (nodes, n))

-- `(nodes[id] == 0) ? nodes[id] = id : nodeNumber++`
unfoldable pub count_old : ℕ → Nodes → Option ℕ → Run Nodes
count_old id s none = fault
count_old id (nodes, n) (some v) = ok (if v == 0 then (set nodes id id, n) else (nodes, n + 1))

-- The loop over the lines, for the statement `count` of each of its ends.
unfoldable pub over_lines :
    Site → (ℕ → Nodes → Option ℕ → Run Nodes) → Nodes → List Line → Run Nodes
over_lines site count s [] = ok s
over_lines site count s (l ∷ ls) =
    let (a, b) = ends site l in
    and_then (count a s (get_elem? s.0 a))
      (λ s1. and_then (count b s1 (get_elem? s1.0 b)) (λ s2. over_lines site count s2 ls))

-- What a function returns if the file cannot be opened, or what it makes of its lines.
abbrev pub if_opened {ℓ} : {A : Type ℓ} → Option (List Line) → A → (List Line → A) → A
if_opened none a f = a
if_opened (some ls) a f = f ls

-- topology_getNodeNum
unfoldable pub get_node_num : Site → Run ℕ
get_node_num site = if_opened site.file (ok minus_one) (λ ls.
    and_then (over_lines site count_new (cleared 2048, 0) ls) (λ s. ok (u32 (s.1 + minus_one))))

-- `if (nodes[i] > 0) nodeArray[index++] = i;`, for what stands at `nodes[i]`
unfoldable pub keep_positive : ℕ → Option ℕ → Nodes → Run Nodes
keep_positive i none (array, index) = fault
keep_positive i (some v) (array, index) =
    if ltb 0 v
    then if ltb index (length array) then ok (set array index i, index + 1) else fault
    else ok (array, index)

-- The loop from `i` on, with `k` rounds left.
unfoldable pub keep_rounds : List ℕ → ℕ → ℕ → Nodes → Run Nodes
keep_rounds nodes zero i s = ok s
keep_rounds nodes (suc k) i s =
    and_then (keep_positive i (get_elem? nodes i) s) (keep_rounds nodes k (suc i))

-- topology_getNodeArray; `none` is NULL.
unfoldable pub get_node_array : Site → Run (Option (List ℕ))
get_node_array site = if_opened site.file (ok none) (λ ls.
    and_then (over_lines site count_old (cleared 2048, 0) ls)
      (λ s. and_then (keep_rounds s.0 4 0 (replicate s.1 site.fresh, 0)) (λ r. ok (some r.0))))

-- `nodes[nodeNumber] = id; nodeNumber++;`
unfoldable pub store : ℕ → Nodes → Run Nodes
store id (nodes, n) = if ltb n (length nodes) then ok (set nodes n id, n + 1) else fault

-- The loop of topology_getNbrArray
unfoldable pub gather : Site → Nodes → List Line → Run Nodes
gather site s [] = ok s
gather site s (l ∷ ls) =
    let me = get_my_node_id site in
    let (a, b) = ends site l in
    and_then (if a == me then store b s else if me == b then store a s else ok s)
      (λ s1. gather site s1 ls)

-- topology_getNbrArray
unfoldable pub get_nbr_array : Site → Run (Option (List ℕ))
get_nbr_array site = if_opened site.file (ok none) (λ ls.
    and_then (gather site (cleared 2048, 0) ls)
      (λ s. ok (some (copy_positive site (take s.1 s.0)))))

-- The loop of topology_getCost: only the line from the first node to the second.
unfoldable pub find_cost : Site → ℕ → ℕ → List Line → ℕ
find_cost site from to [] = 0
find_cost site from to (l ∷ ls) =
    let (a, b) = ends site l in
    let rest = find_cost site from to ls in if from == a && to == b then l.link_cost else rest

-- topology_getCost
unfoldable pub get_cost : Site → ℕ → ℕ → ℕ
get_cost site from to = if_opened site.file minus_one (find_cost site from to)
