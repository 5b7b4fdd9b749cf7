-- ===== src/Lab3/Topology/Nodes.antt =====
-- The arrays of node IDs, against the IDs that topology.dat mentions.
use cs.Base.{
  ℕ, zero, suc, ◌+◌, ◌-◌, ◌<◌, ◌≤◌, ◌≡◌, refl, sym, ap, subst, ◌∙◌, List, [], ◌∷◌, ◌++◌, Bool, true,
  false, ◌==◌, ◌||◌, ltb, leb, u32, if◌then◌else◌, length, set, get_elem?, replicate, minus_one,
  Option, none, some, Run, ok, fault, and_then, All, arith, inl, inr, Bool-cases, length-set, drop,
  length-append, append_assoc, get_elem?-set_self, get_elem?-set_ne, length-replicate,
}
use cs.Topology.{Line, Site, ends}
use cs.Lab3.Topology.{
  if_opened, cleared, Nodes, count_new, count_old, over_lines, get_node_num, keep_positive,
  keep_rounds, get_node_array,
}

-- The node IDs of the lines, in the order of the file.
abbrev pub mentions : Site → List Line → List ℕ
mentions site [] = []
mentions site (l ∷ ls) = (ends site l).0 ∷ (ends site l).1 ∷ mentions site ls

abbrev pub listed : ℕ → List ℕ → Bool
listed x [] = false
listed x (y ∷ ys) = x == y || listed x ys

-- The IDs that are neither in `seen` nor earlier in the list.
abbrev pub first_mentions : List ℕ → List ℕ → List ℕ
first_mentions seen [] = []
first_mentions seen (x ∷ xs) =
    let rest = first_mentions (x ∷ seen) xs in if listed x seen then rest else x ∷ rest

-- An ID that is positive and within the arrays.
abbrev pub IsId : ℕ → Type 0
IsId x = (0 < x) × (x < 2048)

-- The array holds the IDs seen, each at its own place.
record Noted (seen : List ℕ) (nodes : List ℕ) : Type 0 where
  size : length nodes ≡ 2048
  holds : (j : ℕ) → j < 2048 → get_elem? nodes j ≡ some (if listed j seen then j else 0)

get_elem?-replicate : (n j : ℕ) → j < n → get_elem? {A = ℕ} (replicate n 0) j ≡ some 0
get_elem?-replicate zero j h = absurd (omega arith)
get_elem?-replicate (suc n) zero h = refl
get_elem?-replicate (suc n) (suc j) h = get_elem?-replicate n j (omega arith)

cleared-Noted : (n : ℕ) → n ≡ 2048 → Noted [] (cleared n)
unfolding cleared
cleared-Noted n e = record {
  size = length-replicate n 0 ∙ e;
  holds = λ j h. get_elem?-replicate n j (omega arith);
}

-- An ID that is not there yet is written at its place.
set-Noted :
    (seen nodes : List ℕ) (id : ℕ)
    → IsId id
    → Noted seen nodes
    → Noted (id ∷ seen) (set nodes id id)
set-Noted seen nodes id i s = record {
  size = length-set nodes id id ∙ s.size;
  holds = λ j h. elim (Bool-cases (j == id)) [
    | inl e ↦
        let same : j ≡ id = ground arith in
        rw (e, same) (get_elem?-set_self nodes id id (omega (arith, s.size, i.1)))
    | inr e ↦ rw e (get_elem?-set_ne nodes id j id (λ k. ground arith) ∙ s.holds j h)
  ];
}

seen-Noted :
    (seen nodes : List ℕ) (id : ℕ)
    → listed id seen ≡ true
    → Noted seen nodes
    → Noted (id ∷ seen) nodes
seen-Noted seen nodes id l s = record {
  size = s.size;
  holds = λ j h. elim (Bool-cases (j == id)) [
    | inl e ↦
        let same : j ≡ id = ground arith in
        let there : listed j seen ≡ true = ap (λ k. listed k seen) same ∙ l in
        s.holds j h ∙ rw (e, there) refl
    | inr e ↦ s.holds j h ∙ rw e refl
  ];
}

-- A statement that notes an ID, and changes the number by `up` as the ID is new or not.
Counts : (ℕ → Nodes → Option ℕ → Run Nodes) → (Bool → ℕ → ℕ) → Type 0
Counts count up =
    (seen nodes : List ℕ) (n id : ℕ)
    → IsId id
    → Noted seen nodes
    → (nodes' : List ℕ) × (count id (nodes, n) (get_elem? nodes id)
        ≡ ok (nodes', up (listed id seen) n))
      × Noted (id ∷ seen) nodes'

abbrev up_new : Bool → ℕ → ℕ
up_new old n = if old then n else n + 1

abbrev up_old : Bool → ℕ → ℕ
up_old old n = if old then n + 1 else n

count_new-Counts : Counts count_new up_new
unfolding Counts count_new
count_new-Counts seen nodes n id i s = elim (Bool-cases (listed id seen)) [
  | inl old ↦
      let there : (id == 0) ≡ false = ground (arith, i.0) in
      (nodes, rw (s.holds id i.1, old, there) refl, seen-Noted seen nodes id old s)
  | inr new ↦ (set nodes id id, rw (s.holds id i.1, new) refl, set-Noted seen nodes id i s)
]

count_old-Counts : Counts count_old up_old
unfolding Counts count_old
count_old-Counts seen nodes n id i s = elim (Bool-cases (listed id seen)) [
  | inl old ↦
      let there : (id == 0) ≡ false = ground (arith, i.0) in
      (nodes, rw (s.holds id i.1, old, there) refl, seen-Noted seen nodes id old s)
  | inr new ↦ (set nodes id id, rw (s.holds id i.1, new) refl, set-Noted seen nodes id i s)
]

-- The number after all the IDs, and the IDs that are seen then.
abbrev total : (Bool → ℕ → ℕ) → List ℕ → ℕ → List ℕ → ℕ
total up seen n [] = n
total up seen n (x ∷ xs) = total up (x ∷ seen) (up (listed x seen) n) xs

abbrev after : List ℕ → List ℕ → List ℕ
after seen [] = seen
after seen (x ∷ xs) = after (x ∷ seen) xs

over_lines_lem :
    (site : Site) (count : ℕ → Nodes → Option ℕ → Run Nodes) (up : Bool → ℕ → ℕ)
    (seen nodes : List ℕ) (n : ℕ) (ls : List Line)
    → Counts count up
    → All IsId (mentions site ls)
    → Noted seen nodes
    → (nodes' : List ℕ) × (over_lines site count (nodes, n) ls
        ≡ ok (nodes', total up seen n (mentions site ls)))
      × Noted (after seen (mentions site ls)) nodes'
unfolding Counts over_lines
over_lines_lem site count up seen nodes n [] c h s = (nodes, refl, s)
over_lines_lem site count up seen nodes n (l ∷ ls) c h s =
    let (a, b) = ends site l in
    let (nodes1, first, s1) = c seen nodes n a h.0 s in
    let (nodes2, second, s2) = c (a ∷ seen) nodes1 (up (listed a seen) n) b h.1.0 s1 in
    let (nodes3, rest, s3) =
      over_lines_lem site count up (b ∷ a ∷ seen) nodes2
        (up (listed b (a ∷ seen)) (up (listed a seen) n)) ls c h.1.1 s2 in
    (nodes3, rw (first, second) rest, s3)

total-new :
    (seen : List ℕ) (n : ℕ) (xs : List ℕ)
    → total up_new seen n xs ≡ n + length (first_mentions seen xs)
total-new seen n [] = omega arith
total-new seen n (x ∷ xs) =
    ground (arith, total-new (x ∷ seen) n xs, total-new (x ∷ seen) (n + 1) xs)

total-old :
    (seen : List ℕ) (n : ℕ) (xs : List ℕ)
    → total up_old seen n xs + length (first_mentions seen xs) ≡ n + length xs
total-old seen n [] = omega arith
total-old seen n (x ∷ xs) =
    ground (arith, total-old (x ∷ seen) n xs, total-old (x ∷ seen) (n + 1) xs)

-- If topology.dat can be opened and each node ID that it mentions is positive and below 2,048,
-- topology_getNodeNum returns one less than the number of different IDs, and -1 for an empty file.
pub get_node_num_lem :
    (site : Site) (ls : List Line)
    → site.file ≡ some ls
    → All IsId (mentions site ls)
    → get_node_num site ≡ ok (u32 (length (first_mentions [] (mentions site ls)) + minus_one))
unfolding get_node_num
get_node_num_lem site ls e h =
    let (nodes, run, s) =
      over_lines_lem site count_new up_new [] (cleared 2048) 0 ls count_new-Counts h
        (cleared-Noted 2048 refl) in
    let count : total up_new [] 0 (mentions site ls)
        ≡ length (first_mentions [] (mentions site ls)) =
      omega (arith, total-new [] 0 (mentions site ls)) in
    subst
      (λ f.
        if_opened f (ok minus_one) (λ ls.
          and_then (over_lines site count_new (cleared 2048, 0) ls)
            (λ s. ok (u32 (s.1 + minus_one))))
        ≡ ok (u32 (length (first_mentions [] (mentions site ls)) + minus_one)))
      (sym e) (rw (run, count) refl)

-- The IDs from `i` on that are seen, `k` of them looked at.
abbrev pub kept : List ℕ → ℕ → ℕ → List ℕ
kept seen zero i = []
kept seen (suc k) i = let rest = kept seen k (suc i) in if listed i seen then i ∷ rest else rest

set-front :
    (front : List ℕ) (y : ℕ) (ys : List ℕ) (v : ℕ)
    → set (front ++ y ∷ ys) (length front) v ≡ front ++ v ∷ ys
set-front [] y ys v = refl
set-front (x ∷ front) y ys v = ap (λ t. x ∷ t) (set-front front y ys v)

-- The array when `ids` are written from `front` on, if there is room for them.
abbrev filled : List ℕ → List ℕ → List ℕ → Run Nodes
filled front spare ids =
    if leb (length ids) (length spare)
    then ok (front ++ (ids ++ drop (length ids) spare), length front + length ids)
    else fault

filled-front :
    (front : List ℕ) (y i : ℕ) (spare ids : List ℕ)
    → filled (front ++ i ∷ []) spare ids ≡ filled front (y ∷ spare) (i ∷ ids)
filled-front front y i spare ids = ground (
  arith,
  append_assoc front (i ∷ []) (ids ++ drop (length ids) spare),
  length-append front (i ∷ []),
)

keep_one :
    (seen nodes : List ℕ) (k i : ℕ) (front spare : List ℕ)
    → 0 < i
    → get_elem? nodes i ≡ some (if listed i seen then i else 0)
    → listed i seen ≡ true
    → ((front spare : List ℕ)
        → keep_rounds nodes k (suc i) (front ++ spare, length front)
          ≡ filled front spare (kept seen k (suc i)))
    → keep_rounds nodes (suc k) i (front ++ spare, length front)
      ≡ filled front spare (kept seen (suc k) i)
unfolding keep_rounds keep_positive
keep_one seen nodes k i front [] h there old rest =
    let positive : ltb 0 i ≡ true = ground (arith, h) in
    let full : ltb (length front) (length (front ++ [])) ≡ false =
      ground (arith, length-append front []) in
    rw (there, old, positive, full) (ground arith)
keep_one seen nodes k i front (y ∷ ys) h there old rest =
    let positive : ltb 0 i ≡ true = ground (arith, h) in
    let room : ltb (length front) (length (front ++ y ∷ ys)) ≡ true =
      ground (arith, length-append front (y ∷ ys)) in
    let array : set (front ++ y ∷ ys) (length front) i ≡ (front ++ i ∷ []) ++ ys =
      set-front front y ys i ∙ sym (append_assoc front (i ∷ []) ys) in
    let size : length front + 1 ≡ length (front ++ i ∷ []) =
      omega (arith, length-append front (i ∷ [])) in
    rw (there, old, positive, room, array, size)
      (rest (front ++ i ∷ []) ys ∙ filled-front front y i ys (kept seen k (suc i)))

keep_rounds_lem :
    (seen nodes : List ℕ) (k i : ℕ) (front spare : List ℕ)
    → Noted seen nodes
    → 0 < i
    → i + k ≤ 2048
    → keep_rounds nodes k i (front ++ spare, length front) ≡ filled front spare (kept seen k i)
unfolding keep_rounds keep_positive
keep_rounds_lem seen nodes zero i front spare s h l = ground arith
keep_rounds_lem seen nodes (suc k) i front spare s h l =
    let there = s.holds i (omega (arith, l)) in
    elim (Bool-cases (listed i seen)) [
      | inr new ↦
          rw (there, new)
            (keep_rounds_lem seen nodes k (suc i) front spare s (omega arith) (omega (arith, l)))
      | inl old ↦ keep_one seen nodes k i front spare h there old (λ front spare.
          keep_rounds_lem seen nodes k (suc i) front spare s (omega arith) (omega (arith, l)))
    ]

listed-after :
    (j : ℕ) (seen xs : List ℕ) → listed j (after seen xs) ≡ (listed j xs || listed j seen)
listed-after j seen [] = refl
listed-after j seen (x ∷ xs) = ground (arith, listed-after j (x ∷ seen) xs)

kept_same :
    (xs ys : List ℕ) (k i : ℕ) → ((j : ℕ) → listed j xs ≡ listed j ys) → kept xs k i ≡ kept ys k i
kept_same xs ys zero i h = refl
kept_same xs ys (suc k) i h = rw (h i, kept_same xs ys k (suc i) h) refl

-- The place 0 is never positive.
skips_zero :
    (seen nodes array : List ℕ) (index : ℕ)
    → Noted seen nodes
    → keep_rounds nodes 4 0 (array, index) ≡ keep_rounds nodes 3 1 (array, index)
unfolding keep_rounds keep_positive
skips_zero seen nodes array index s =
    let there : get_elem? nodes 0 ≡ some 0 =
      s.holds 0 (omega arith) ∙ ap some (if-same (listed 0 seen)) in
    rw there refl
  where
    if-same : (b : Bool) → (if◌then◌else◌ {A = ℕ} b 0 0) ≡ 0
    if-same true = refl
    if-same false = refl

-- How many mentions are not the first of their ID.
abbrev pub repeats : List ℕ → ℕ
repeats xs = length xs - length (first_mentions [] xs)

-- If topology.dat can be opened and each node ID that it mentions is positive and below 2,048,
-- topology_getNodeArray allocates an entry for each mention of an ID that is not its first, and
-- writes those of the IDs 1, 2 and 3 that are mentioned into it: where there are more of them than
-- entries, it writes past the array, else the entries that are left over stay as they were.
pub get_node_array_lem :
    (site : Site) (ls : List Line)
    → site.file ≡ some ls
    → All IsId (mentions site ls)
    → let ids = kept (mentions site ls) 3 1 in
      let size = repeats (mentions site ls) in
      get_node_array site ≡ (
        if leb (length ids) size
        then ok (some (ids ++ drop (length ids) (replicate size site.fresh)))
        else fault)
unfolding get_node_array
get_node_array_lem site ls e h =
    let all = mentions site ls in
    let (nodes, run, s) =
      over_lines_lem site count_old up_old [] (cleared 2048) 0 ls count_old-Counts h
        (cleared-Noted 2048 refl) in
    let count : total up_old [] 0 all ≡ repeats all = omega (arith, total-old [] 0 all) in
    let spare = replicate (repeats all) site.fresh in
    let same : kept (after [] all) 3 1 ≡ kept all 3 1 =
      kept_same (after [] all) all 3 1 (λ j. ground (arith, listed-after j [] all)) in
    let wrote : keep_rounds nodes 4 0 (spare, 0) ≡ filled [] spare (kept all 3 1) =
      skips_zero (after [] all) nodes spare 0 s
      ∙ keep_rounds_lem (after [] all) nodes 3 1 [] spare s (omega arith) (omega arith)
      ∙ ap (filled [] spare) same in
    subst
      (λ f.
        if_opened f (ok none) (λ ls.
          and_then (over_lines site count_old (cleared 2048, 0) ls) (λ s.
            and_then (keep_rounds s.0 4 0 (replicate s.1 site.fresh, 0)) (λ r. ok (some r.0))))
        ≡ (if leb (length (kept all 3 1)) (repeats all)
            then ok (some (kept all 3 1 ++ drop (length (kept all 3 1)) spare))
            else fault))
      (sym e) (rw (run, count, wrote) (ground (arith, length-replicate (repeats all) site.fresh)))
