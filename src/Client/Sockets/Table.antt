-- ===== src/Client/Sockets/Table.antt =====
-- Sockets that are closed are given out again.
use cs.Base.{
  ℕ, zero, suc, ◌≤◌, ◌≡◌, refl, sym, ap, subst, [], ◌∷◌, get_elem?, set, Option, none, some, ok,
  arith, true,
}
use cs.Client.Buffer.{closed}
use cs.Client.Handler.{ClientTcb}
use cs.Client.Sockets.{
  Slot, free, live, Sockets, later, create_tcb_table, fresh_block, mrt_client_sock, is_closed,
  mrt_client_close,
}

-- Where create_TCB_table puts a block, in a table that has a free entry at `fd`.
abbrev Made : ℕ → ClientTcb → ℕ → Sockets → Option (ℕ × Sockets) → Type 0
Made port block fd table none = ⊥
Made port block fd table (some (i, after)) =
    (i ≤ fd) × (get_elem? table i ≡ some free) × (after ≡ set table i (live port block))

later-Made :
    (port : ℕ) (block : ClientTcb) (fd : ℕ) (slot : Slot) (table : Sockets)
    (r : Option (ℕ × Sockets))
    → Made port block fd table r
    → Made port block (suc fd) (slot ∷ table) (later slot r)
unfolding later
later-Made port block fd slot table (some (i, after)) h =
    (omega (arith, h.0), h.1, ap (λ t. slot ∷ t) h.2)
later-Made port block fd slot table none h = h

create_tcb_table-Made :
    (port : ℕ) (block : ClientTcb) (fd : ℕ) (table : Sockets)
    → get_elem? table fd ≡ some free
    → Made port block fd table (create_tcb_table port block table)
unfolding create_tcb_table
create_tcb_table-Made port block fd [] at = cc
create_tcb_table-Made port block fd (free ∷ slots) at = (omega arith, refl, refl)
create_tcb_table-Made port block zero (live p t ∷ slots) at = cc
create_tcb_table-Made port block (suc fd) (live p t ∷ slots) at =
    later-Made port block fd (live p t) slots (create_tcb_table port block slots)
      (create_tcb_table-Made port block fd slots at)

get_elem?-set :
    (table : Sockets) (fd : ℕ) {s : Slot} (new : Slot)
    → get_elem? table fd ≡ some s
    → get_elem? (set table fd new) fd ≡ some new
get_elem?-set [] fd new at = cc
get_elem?-set (x ∷ xs) zero new at = refl
get_elem?-set (x ∷ xs) (suc fd) new at = get_elem?-set xs fd new at

found :
    (port : ℕ) (block : ClientTcb) (fd : ℕ) (table : Sockets) (r : Option (ℕ × Sockets))
    → Made port block fd table r
    → (i : ℕ) × (i ≤ fd)
      × (get_elem? table i ≡ some free)
      × (r ≡ some (i, set table i (live port block)))
found port block fd table (some (i, after)) h = (i, h.0, h.1, ap (λ t. some (i, t)) h.2)
found port block fd table none h = absurd h

-- mrt_client_close of a closed block returns 1, and mrt_client_sock then finds a free entry, that one or
-- one before it, puts a fresh block there and changes no other entry.
mrt_client_sock-mrt_client_close :
    (fd port new_port : ℕ) (t memory : ClientTcb) (table : Sockets)
    → get_elem? table fd ≡ some (live port t)
    → t.state ≡ closed
    → (mrt_client_close fd table (get_elem? table fd) ≡ ok (1, set table fd free))
      × (i : ℕ) × (i ≤ fd)
      × (get_elem? (set table fd free) i ≡ some free)
      × (mrt_client_sock new_port memory (set table fd free)
          ≡ some (i, set (set table fd free) i (live new_port (fresh_block memory))))
unfolding mrt_client_close mrt_client_sock
mrt_client_sock-mrt_client_close fd port new_port t memory table at c =
    let shut : is_closed t.state ≡ true =
      subst (λ s. is_closed s ≡ true) (sym c) (unfold is_closed in refl) in
    let table' = set table fd free in
    let (i, before, empty, made) =
      found new_port (fresh_block memory) fd table'
        (create_tcb_table new_port (fresh_block memory) table')
        (create_tcb_table-Made new_port (fresh_block memory) fd table'
          (get_elem?-set table fd free at)) in
    (rw (at, shut) refl, i, before, empty, made)
