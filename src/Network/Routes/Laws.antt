-- ===== src/Network/Routes/Laws.antt =====
-- The invariant of the hash table, and what a lookup sees after an insertion.
use cs.Base.{
  ℕ, zero, suc, ◌+◌, ◌%◌, ◌<◌, ◌≡◌, refl, ap, ◌∙◌, inl, inr, List, [], ◌∷◌, ◌++◌, Bool, true, not,
  ◌&&◌, ◌==◌, if◌then◌else◌, length, arith, minus_one, All, get_or, set, is_positive, is_negative,
  length-set, Bool-cases, ◌||◌,
}
use cs.Network.Routes.{
  Entry, Routes, chain_find, set_find, hashtable_find, routingtable_setnextnode,
  routingtable_getnextnode,
}

-- An entry of slot `i`: positive node IDs, and a destination that hashes to `i`.
pub record IsPlaced (i : ℕ) (e : Entry) : Type 0 where
  pub dest_positive : is_positive e.dest ≡ true
  pub next_positive : is_positive e.next ≡ true
  pub slot : e.dest % 10 ≡ i

abbrev pub PlacedFrom : ℕ → Routes → Type 0
PlacedFrom i [] = Unit
PlacedFrom i (c ∷ cs) = All (IsPlaced i) c × PlacedFrom (suc i) cs

-- The ten slots, each with entries of its own.
pub record IsValid (rt : Routes) : Type 0 where
  pub slots : length rt ≡ 10
  pub placed : PlacedFrom 0 rt

get_or-set :
    (rt : Routes) (i j : ℕ) (v : List Entry)
    → i < length rt
    → get_or (set rt i v) j [] ≡ (if i == j then v else get_or rt j [])
get_or-set [] i j v h = absurd (omega arith)
get_or-set (x ∷ xs) zero zero v h = refl
get_or-set (x ∷ xs) zero (suc j) v h = ground arith
get_or-set (x ∷ xs) (suc i) zero v h = ground arith
get_or-set (x ∷ xs) (suc i) (suc j) v h = ground (arith, get_or-set xs i j v)

-- A lookup in a chain gives a positive ID or -1.
chain_find_positive :
    (i : ℕ) (c : List Entry) (q : ℕ)
    → All (IsPlaced i) c
    → (is_positive (chain_find c q) || (chain_find c q == minus_one)) ≡ true
unfolding chain_find
chain_find_positive i [] q h = refl
chain_find_positive i (e ∷ es) q h = ground (arith, chain_find_positive i es q h.1)

chain_find-append :
    (i : ℕ) (c : List Entry) (e : Entry) (q : ℕ)
    → All (IsPlaced i) c
    → chain_find (c ++ e ∷ []) q
      ≡ (if e.dest == q && chain_find c q == minus_one then e.next else chain_find c q)
unfolding chain_find
chain_find-append i [] e q h = ground arith
chain_find-append i (d ∷ c) e q h = ground (arith, chain_find-append i c e q h.1)

chain_of : (i : ℕ) (rt : Routes) (j : ℕ) → PlacedFrom i rt → All (IsPlaced (i + j)) (get_or rt j [])
chain_of i [] j h = tt
chain_of i (c ∷ cs) zero h = let e : i + 0 ≡ i = omega arith in rw e h.0
chain_of i (c ∷ cs) (suc j) h =
    let e : i + suc j ≡ suc i + j = omega arith in rw e (chain_of (suc i) cs j h.1)

get_or-chain : (rt : Routes) (j : ℕ) → IsValid rt → All (IsPlaced j) (get_or rt j [])
get_or-chain rt j v = let e : 0 + j ≡ j = omega arith in rw e at (chain_of 0 rt j v.placed)

set_find_lem :
    (c : List Entry) (q : ℕ) → set_find c q ≡ (if is_negative q then minus_one else chain_find c q)
unfolding set_find
set_find_lem [] q = ground arith
set_find_lem (e ∷ es) q = refl

hashtable_find_lem :
    (rt : Routes) (q : ℕ)
    → hashtable_find rt q
      ≡ (if is_positive q then chain_find (get_or rt (q % 10) []) q else minus_one)
unfolding hashtable_find
hashtable_find_lem rt q = ground (arith, set_find_lem (get_or rt (q % 10) []) q)

set-get_or : (rt : Routes) (i : ℕ) → set rt i (get_or rt i []) ≡ rt
set-get_or [] i = refl
set-get_or (x ∷ xs) zero = refl
set-get_or (x ∷ xs) (suc i) = ap (λ t. x ∷ t) (set-get_or xs i)

setnextnode_lem :
    (fresh : ℕ) (rt : Routes) (dest next : ℕ)
    → routingtable_setnextnode fresh rt dest next ≡ (
        if is_positive next && is_positive dest && not (is_negative fresh)
        then set rt
            (dest % 10)
            (get_or rt (dest % 10) [] ++ record { dest = dest; next = next } ∷ [])
        else rt)
unfolding routingtable_setnextnode
setnextnode_lem fresh rt dest next = ground (arith, set-get_or rt (dest % 10))

pub getnextnode_lem :
    (rt : Routes) (q : ℕ)
    → IsValid rt
    → routingtable_getnextnode rt q
      ≡ (if is_positive q then chain_find (get_or rt (q % 10) []) q else minus_one)
unfolding routingtable_getnextnode
getnextnode_lem rt q v =
    let chain = get_or rt (q % 10) [] in
    ground (
      arith,
      set_find_lem chain q,
      chain_find_positive (q % 10) chain q (get_or-chain rt (q % 10) v),
    )

-- The entry is added, rather than refused.
abbrev pub accepted : ℕ → ℕ → ℕ → Bool
accepted fresh dest next = is_positive next && is_positive dest && not (is_negative fresh)

All-append :
    {i : ℕ} (c : List Entry) {e : Entry}
    → All (IsPlaced i) c
    → IsPlaced i e
    → All (IsPlaced i) (c ++ e ∷ [])
All-append [] h p = (p, tt)
All-append (d ∷ c) h p = (h.0, All-append c h.1 p)

set-PlacedFrom :
    (i : ℕ) (rt : Routes) (j : ℕ) (c : List Entry)
    → PlacedFrom i rt
    → All (IsPlaced (i + j)) c
    → PlacedFrom i (set rt j c)
set-PlacedFrom i [] j c h p = tt
set-PlacedFrom i (d ∷ cs) zero c h p = let e : i + 0 ≡ i = omega arith in (rw e at p, h.1)
set-PlacedFrom i (d ∷ cs) (suc j) c h p =
    let e : i + suc j ≡ suc i + j = omega arith in
    (h.0, set-PlacedFrom (suc i) cs j c h.1 (rw e at p))

-- routingtable_setnextnode keeps a valid routing table valid: ten slots, with entries of positive
-- node IDs, each in the slot of its destination.
pub setnextnode-IsValid :
    (fresh : ℕ) (rt : Routes) (dest next : ℕ)
    → IsValid rt
    → IsValid (routingtable_setnextnode fresh rt dest next)
setnextnode-IsValid fresh rt dest next v =
    let e : Entry = record { dest = dest; next = next } in
    let slot = dest % 10 in
    elim (Bool-cases (accepted fresh dest next)) [
      | inl kept ↦
          rw (setnextnode_lem fresh rt dest next, kept)
            (record {
              slots = length-set rt slot _ ∙ v.slots;
              placed = set-PlacedFrom 0 rt slot _ v.placed (
                  let z : 0 + slot ≡ slot = omega arith in
                  rw z (
                    All-append (get_or rt slot []) (get_or-chain rt slot v) (record {
                      dest_positive = ground arith;
                      next_positive = ground arith;
                      slot = refl;
                    })));
            })
      | inr refused ↦ rw (setnextnode_lem fresh rt dest next, refused) v
    ]

-- In a valid table, a call of routingtable_setnextnode with positive node IDs, and new memory that
-- does not look negative, gives a destination without a route the new next hop; a destination
-- that has a route keeps it, and so does every other one. In all other cases nothing changes.
pub getnextnode-setnextnode :
    (fresh : ℕ) (rt : Routes) (dest next q : ℕ)
    → IsValid rt
    → routingtable_getnextnode (routingtable_setnextnode fresh rt dest next) q ≡ (
        if accepted fresh dest next && dest == q && routingtable_getnextnode rt q == minus_one
        then next
        else routingtable_getnextnode rt q)
getnextnode-setnextnode fresh rt dest next q v =
    let e : Entry = record { dest = dest; next = next } in
    let chain = get_or rt (dest % 10) [] in
    ground (
      arith,
      setnextnode_lem fresh rt dest next,
      getnextnode_lem rt q v,
      getnextnode_lem _ q (setnextnode-IsValid fresh rt dest next v),
      get_or-set rt (dest % 10) (q % 10) (chain ++ e ∷ []),
      chain_find-append (dest % 10) chain e q (get_or-chain rt (dest % 10) v),
    )
