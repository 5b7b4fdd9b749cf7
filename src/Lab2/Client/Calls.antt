-- ===== src/Lab2/Client/Calls.antt =====
-- What the calls of lab2's client return.
use cs.Base.{
  ℕ, zero, suc, ◌≤◌, ◌<◌, ◌≡◌, refl, sym, subst, ap, List, [], ◌∷◌, false, ◌||◌, ltb, is_negative,
  if-both, length, set, get_elem?, some, ok, arith,
}
use cs.Wire.Layout.{Segment}
use cs.Client.Buffer.{ClientState, closed, null}
use cs.Client.Handler.{ClientTcb}
use cs.Lab2.Client.{
  Slot, live, freed, is_connected, syn_over, syn_rounds, connect_at, mrt_client_connect,
  mrt_client_disconnect, close_in, mrt_client_close,
}

syn_rounds_most :
    (states : ℕ → ClientState) (seg : Segment) (n i : ℕ) → length (syn_rounds states seg n i) ≤ n
unfolding syn_rounds
syn_rounds_most states seg zero i = omega arith
syn_rounds_most states seg (suc n) i =
    if-both (λ l. length l ≤ suc n) (is_connected (states i)) (seg ∷ [])
      (seg ∷ syn_rounds states seg n (suc i)) (omega arith)
      (omega (arith, syn_rounds_most states seg n (suc i)))

get_elem?-set :
    (table : List Slot) (fd : ℕ) {s : Slot} (new : Slot)
    → get_elem? table fd ≡ some s
    → get_elem? (set table fd new) fd ≡ some new
get_elem?-set [] fd new at = cc
get_elem?-set (x ∷ xs) zero new at = refl
get_elem?-set (x ∷ xs) (suc fd) new at = get_elem?-set xs fd new at

ended_at :
    (table : List Slot) (fd p : ℕ) (t : ClientTcb)
    → get_elem? table fd ≡ some (live p t)
    → (ended : List Slot) × (u : ClientTcb) × (mrt_client_disconnect fd table (get_elem? table fd)
        ≡ ok (1, ended))
      × (get_elem? ended fd ≡ some (live p u))
      × (u.state ≡ closed)
unfolding mrt_client_disconnect
ended_at table fd p t at =
    let u : ClientTcb = record t {
      state = closed;
      buffer = record t.buffer { chain = []; tail_set = false; unsent = null; unack = 0 };
    } in
    (set table fd (live p u), u, rw at refl, get_elem?-set table fd (live p u) at, refl)

shut_at :
    (table : List Slot) (fd p : ℕ) (u : ClientTcb)
    → get_elem? table fd ≡ some (live p u)
    → u.state ≡ closed
    → (shut : List Slot) × (mrt_client_close fd table (get_elem? table fd) ≡ ok (1, shut))
      × (get_elem? shut fd ≡ some freed)
unfolding mrt_client_close close_in
shut_at table fd p u at c =
    let now : close_in u.state fd table ≡ (1, set table fd freed) =
      subst (λ s. close_in s fd table ≡ (1, set table fd freed)) (sym c) refl in
    (set table fd freed, rw at (ap (λ r. ok r) now), get_elem?-set table fd freed at)

-- On a block in any state, mrt_client_connect returns 1 after six SYNs at most, whether or not the server
-- answers; then mrt_client_disconnect returns 1, and mrt_client_close returns 1 and leaves the
-- pointer to the freed block in the table.
pub mrt_client_disconnect-mrt_client_connect :
    (states : ℕ → ClientState) (last : ClientState) (memory : Segment) (fd port server_port : ℕ)
    (t : ClientTcb) (table : List Slot)
    → fd < 10
    → get_elem? table fd ≡ some (live port t)
    → (dialled : List Slot) × (sent : List Segment) × (ended : List Slot) × (shut : List Slot)
      × (mrt_client_connect states last memory fd server_port table ≡ ok (1, (dialled, sent)))
      × (length sent ≤ 6)
      × (mrt_client_disconnect fd dialled (get_elem? dialled fd) ≡ ok (1, ended))
      × (mrt_client_close fd ended (get_elem? ended fd) ≡ ok (1, shut))
      × (get_elem? shut fd ≡ some freed)
unfolding mrt_client_connect connect_at
mrt_client_disconnect-mrt_client_connect states last memory fd port server_port t table h at =
    let inside : ltb 10 fd || is_negative fd ≡ false = ground arith in
    let up : ClientTcb = record t { svr_port = server_port; state = last } in
    let dialled = set table fd (live port up) in
    let there = get_elem?-set table fd (live port up) at in
    let seg = syn_over memory port server_port in
    let (ended, u, run, now, c) = ended_at dialled fd port up there in
    let (shut, run2, gone) = shut_at ended fd port u now c in
    (
      dialled,
      seg ∷ syn_rounds states seg 5 0,
      ended,
      shut,
      rw (inside, at) refl,
      omega (arith, syn_rounds_most states seg 5 0),
      run,
      run2,
      gone,
    )
