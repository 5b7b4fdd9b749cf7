-- ===== src/Overlay/Process.antt =====
-- lab4/overlay/overlay.c: main, and the outer loop of waitNetwork.
pub mod Start
pub mod Sessions
use Prim.Native.String.{String}
use cs.Base.{
  ℕ, zero, suc, List, [], ◌∷◌, ◌++◌, Bool, is_negative, if◌then◌else◌, length, Option, none, some,
  Run, ok, fault, and_then,
}
use cs.Topology.{Site, get_nbr_num}
use cs.Overlay.Neighbors.{NbrEntry, nt_create, rounds}
use cs.Overlay.Connect.{Sockets, connect_nbrs, wait_nbrs}
use cs.Overlay.Traffic.{End, gone, assertion, past_buffer, unfinished, serve}

-- The table of main; NULL has no entries.
unfoldable pub table_of : Option (List NbrEntry) → List NbrEntry
table_of none = []
table_of (some t) = t

-- The connections that the threads listen_to_neighbor read from the table, one thread for each of the
-- `n` rounds.
unfoldable pub listeners : ℕ → List NbrEntry → Run (List ℕ)
listeners zero t = ok []
listeners (suc n) [] = fault
listeners (suc n) (e ∷ es) = and_then (listeners n es) (λ conns. ok (e.conn ∷ conns))

-- main up to waitNetwork: the table, and the connections that are listened to. The thread waitNbrs
-- and connectNbrs write to different entries; here its connections come last.
unfoldable pub start :
    Site → (String → ℕ) → Sockets → ℕ → (ℕ → ℕ × ℕ) → Run (List NbrEntry × List ℕ)
start site address os socket_fd arrivals =
    and_then (connect_nbrs site os (table_of (nt_create site address))) (λ r.
      and_then (wait_nbrs site socket_fd arrivals r.1.0)
        (λ t. and_then (listeners (rounds (get_nbr_num site)) t) (λ conns. ok (t, conns))))

-- How waitNetwork goes on after its inner loop: if the network process is gone, it accepts the next.
unfoldable pub after_session :
    List (ℕ × List ℕ) × End → Run (List (ℕ × List ℕ) × End) → Run (List (ℕ × List ℕ) × End)
after_session (ws, gone) rest = and_then rest (λ r. ok (ws ++ r.0, r.1))
after_session (ws, assertion) rest = ok (ws, assertion)
after_session (ws, past_buffer) rest = ok (ws, past_buffer)
after_session (ws, unfinished) rest = ok (ws, unfinished)

-- The outer loop of waitNetwork over its calls of `accept`: the descriptor of each, and the bytes that
-- come in that connection. Nothing is read from a negative descriptor.
unfoldable pub wait_network :
    Site
    → (ℕ → ℕ → ℕ → ℕ → Bool)
    → List NbrEntry
    → ℕ
    → List (ℕ × List ℕ)
    → Run (List (ℕ × List ℕ) × End)
wait_network site sends t k [] = ok ([], gone)
wait_network site sends t k ((fd, bytes) ∷ sessions) =
    let rest = wait_network site sends t (suc k) sessions in
    let input = if is_negative fd then [] else bytes in
    and_then (serve site (sends k) t (suc (length input)) 0 input) (λ r. after_session r rest)
