-- ===== src/Topology.antt =====
-- lab4/topology/topology.c: the node IDs, neighbours and link costs of the overlay.
pub mod Laws
use text.Mathlib.Text.{◌==◌ as str_eq}
use Prim.Native.String.{String}
use cs.Base.{
  ℕ, zero, suc, ◌+◌, List, [], ◌∷◌, ◌++◌, Bool, ◌&&◌, ◌||◌, ◌==◌, ltb, if◌then◌else◌, length, take,
  minus_one, Option, none, some, Run, ok, fault,
}

-- A line of topology.dat, as `fscanf("%s %s %d")` reads it.
pub record Line : Type 0 where
  pub host1 : String
  pub host2 : String
  pub link_cost : ℕ

-- What the functions ask of the machine: the name that `gethostname` gives, the last number of the
-- address that `gethostbyname` gives for a name, the lines of topology.dat (`none` if it cannot be
-- opened), and what an int of fresh memory holds.
pub record Site : Type 0 where
  pub hostname : String
  pub address_end : String → ℕ
  pub file : Option (List Line)
  pub fresh : ℕ

-- topology_getMyNodeID; the host's own name is not "localhost", at which it would not return.
unfoldable pub get_my_node_id : Site → ℕ
get_my_node_id site = site.address_end site.hostname

-- topology_getNodeIDfromname
unfoldable pub get_node_id_from_name : Site → String → ℕ
unfolding get_my_node_id
get_node_id_from_name site name =
    if str_eq name "localhost" then get_my_node_id site else site.address_end name

-- The two node IDs of a line.
abbrev pub ends : Site → Line → ℕ × ℕ
ends site l = (get_node_id_from_name site l.host1, get_node_id_from_name site l.host2)

count_mine : Site → ℕ → List Line → ℕ
count_mine site n [] = n
count_mine site n (l ∷ ls) =
    let me = get_my_node_id site in
    let (a, b) = ends site l in count_mine site (if a == me || b == me then n + 1 else n) ls

-- topology_getNbrNum; -1 if the file cannot be opened
unfoldable pub get_nbr_num : Site → ℕ
unfolding count_mine
get_nbr_num site = elim site.file [ none ↦ minus_one | some ls ↦ count_mine site 0 ls ]

-- `if (nodes[id] == 0) { nodes[id] = id; nodeNumber++; }` on the array `nodes`
note : ℕ → (ℕ → ℕ) × ℕ → (ℕ → ℕ) × ℕ
note id (nodes, n) =
    if nodes id == 0 then (λ j. if j == id then id else nodes j, n + 1) else (nodes, n)

count_nodes : Site → (ℕ → ℕ) × ℕ → List Line → ℕ
count_nodes site s [] = s.1
count_nodes site s (l ∷ ls) = let (a, b) = ends site l in count_nodes site (note b (note a s)) ls

-- topology_getNodeNum
unfoldable pub get_node_num : Site → ℕ
unfolding count_nodes note
get_node_num site = elim site.file [ none ↦ minus_one | some ls ↦ count_nodes site (λ j. 0, 0) ls ]

-- The other end of each line that names this node: what the loops of topology_getNodeArray and
-- topology_getNbrArray gather in `nodes`.
unfoldable pub other_ends : Site → List Line → List ℕ
other_ends site [] = []
other_ends site (l ∷ ls) =
    let me = get_my_node_id site in
    let (a, b) = ends site l in
    let rest = other_ends site ls in
    if a == me then b ∷ rest else if me == b then a ∷ rest else rest

-- `if (nodes[i] > 0) nodeArray[i] = nodes[i];` into fresh memory
unfoldable pub copy_positive : Site → List ℕ → List ℕ
copy_positive site [] = []
copy_positive site (n ∷ ns) = (if ltb 0 n then n else site.fresh) ∷ copy_positive site ns

-- topology_getNodeArray; `none` is NULL. The array is allocated for the other ends alone, so this
-- node's own ID, which is copied unless it is 0, is written one past it: a fault.
unfoldable pub get_node_array : Site → Run (Option (List ℕ))
unfolding other_ends copy_positive
get_node_array site = elim site.file [
  | none ↦ ok none
  | some ls ↦
      if ltb 0 (get_my_node_id site)
      then fault
      else ok (some (copy_positive site (other_ends site ls)))
]

-- topology_getNbrArray
unfoldable pub get_nbr_array : Site → Option (List ℕ)
unfolding other_ends copy_positive
get_nbr_array site = elim site.file [
  | none ↦ none
  | some ls ↦ some (copy_positive site (other_ends site ls))
]

abbrev pub infinite_cost : ℕ
infinite_cost = 999

unfoldable pub find_cost : Site → ℕ → ℕ → List Line → ℕ
find_cost site from to [] = infinite_cost
find_cost site from to (l ∷ ls) =
    let (a, b) = ends site l in
    let rest = find_cost site from to ls in
    if from == a && to == b || from == b && to == a then l.link_cost else rest

-- topology_getCost
unfoldable pub get_cost : Site → ℕ → ℕ → ℕ
unfolding find_cost
get_cost site from to =
    if from == to
    then 0
    else elim site.file [ none ↦ minus_one | some ls ↦ find_cost site from to ls ]

-- Reading `array[0]` to `array[n - 1]`; `none` is a read past its end or through NULL.
unfoldable pub first_of_array : ℕ → Option (List ℕ) → Option (List ℕ)
first_of_array zero array = some []
first_of_array (suc n) none = none
first_of_array (suc n) (some []) = none
first_of_array (suc n) (some (x ∷ xs)) = elim (first_of_array n (some xs)) [
  | none ↦ none
  | some ys ↦ some (x ∷ ys)
]

-- Making an array and reading its first `n` entries; `none` is a fault in either.
unfoldable pub read_array : ℕ → Run (Option (List ℕ)) → Option (List ℕ)
unfolding first_of_array
read_array n fault = none
read_array n (ok array) = first_of_array n array
