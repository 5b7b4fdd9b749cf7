-- ===== src/Overlay/Connect.antt =====
-- lab4/overlay/overlay.c: how a node is connected to its neighbours, and how it stops.
pub mod Laws
pub mod Joined
use cs.Base.{
  ℕ, zero, suc, ◌+◌, List, [], ◌∷◌, ◌++◌, Bool, ◌==◌, is_negative, lt_int, if◌then◌else◌, minus_one,
  Option, none, some, Run, ok, fault, and_then, get_elem?,
}
use cs.Topology.{Site, get_my_node_id, get_nbr_num, get_nbr_array, first_of_array}
use cs.Overlay.Neighbors.{
  NbrEntry, get_node_id_from_ip, rounds, nt_addconn, Call, connect, close, nt_destroy,
}

-- What the system gives connectNbrs in round `i`: the descriptor of `socket`, and whether `connect`
-- succeeds.
pub record Sockets : Type 0 where
  pub socket : ℕ → ℕ
  pub connects : ℕ → Bool

-- What connectNbrs has done: its value, the table and the calls.
abbrev pub Dialled : Type 0
Dialled = Run (ℕ × (List NbrEntry × List Call))

-- How connectNbrs goes on after nt_addconn: it returns -1, or goes to the next round.
unfoldable pub after_addconn : Call → ℕ × List NbrEntry → (List NbrEntry → Dialled) → Dialled
after_addconn call (value, t) next =
    if is_negative value
    then ok (minus_one, (t, call ∷ []))
    else and_then (next t) (λ r. ok (r.0, (r.1.0, call ∷ r.1.1)))

-- The body of the `if` of connectNbrs.
unfoldable pub dial :
    Site → Sockets → ℕ → List NbrEntry → NbrEntry → (List NbrEntry → Dialled) → Dialled
dial site os i t e next =
    let fd = os.socket i in
    if is_negative fd
    then ok (minus_one, (t, []))
    else if os.connects i
    then and_then (nt_addconn site t (get_node_id_from_ip e.ip) fd)
        (λ r. after_addconn (connect e.ip fd) r next)
    else ok (minus_one, (t, connect e.ip fd ∷ close fd ∷ []))

-- A round of connectNbrs, for `nt[i]`.
unfoldable pub connect_round :
    Site → Sockets → ℕ → List NbrEntry → Option NbrEntry → (List NbrEntry → Dialled) → Dialled
connect_round site os i t none next = fault
connect_round site os i t (some e) next =
    if lt_int e.node (get_my_node_id site) then dial site os i t e next else next t

-- The rounds of connectNbrs from round `i` on.
unfoldable pub connect_rounds : Site → Sockets → ℕ → ℕ → List NbrEntry → Dialled
connect_rounds site os zero i t = ok (1, (t, []))
connect_rounds site os (suc n) i t =
    connect_round site os i t (get_elem? t i) (connect_rounds site os n (suc i))

unfoldable pub connect_nbrs : Site → Sockets → List NbrEntry → Dialled
connect_nbrs site os t = connect_rounds site os (rounds (get_nbr_num site)) 0 t

-- `counter` of waitNbrs: the neighbours with larger node IDs.
unfoldable pub count_larger : ℕ → List ℕ → ℕ
count_larger me [] = 0
count_larger me (n ∷ ns) = let rest = count_larger me ns in if lt_int me n then suc rest else rest

-- The loop of waitNbrs while `counter` connections are awaited; `arrivals k` is what `accept` gives
-- in round `k`: the descriptor, and the address it is from. A failed `accept` ends the thread.
unfoldable pub accept_rounds : Site → (ℕ → ℕ × ℕ) → ℕ → ℕ → List NbrEntry → Run (List NbrEntry)
accept_rounds site arrivals zero k t = ok t
accept_rounds site arrivals (suc counter) k t =
    let (fd, ip) = arrivals k in
    if is_negative fd
    then ok t
    else and_then (nt_addconn site t (get_node_id_from_ip ip) fd)
        (λ r. accept_rounds site arrivals counter (suc k) r.1)

-- waitNbrs once it has its neighbours' IDs; `none` is a read past the array.
unfoldable pub wait_for :
    Site → ℕ → (ℕ → ℕ × ℕ) → List NbrEntry → Option (List ℕ) → Run (List NbrEntry)
wait_for site socket_fd arrivals t none = fault
wait_for site socket_fd arrivals t (some nbrs) =
    if is_negative socket_fd
    then ok t
    else accept_rounds site arrivals (count_larger (get_my_node_id site) nbrs) 0 t

-- waitNbrs; `bind` and `listen` only print when they fail.
unfoldable pub wait_nbrs : Site → ℕ → (ℕ → ℕ × ℕ) → List NbrEntry → Run (List NbrEntry)
wait_nbrs site socket_fd arrivals t =
    wait_for site socket_fd arrivals t
      (first_of_array (rounds (get_nbr_num site)) (get_nbr_array site))

-- The loop of overlay_stop, with `n` entries left.
unfoldable pub close_conns : ℕ → List NbrEntry → Run (List Call)
close_conns zero es = ok []
close_conns (suc n) [] = fault
close_conns (suc n) (e ∷ es) = and_then (close_conns n es) (λ calls. ok (close e.conn ∷ calls))

unfoldable pub overlay_stop : Site → ℕ → List NbrEntry → Run (List Call)
overlay_stop site network_conn t = and_then (close_conns (rounds (get_nbr_num site)) t) (λ closed.
    and_then (nt_destroy site t) (λ last.
      ok (closed ++ ((if network_conn == minus_one then [] else close network_conn ∷ []) ++ last))))
