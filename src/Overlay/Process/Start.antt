-- ===== src/Overlay/Process/Start.antt =====
-- main of the overlay process.
use Prim.Native.String.{String}
use cs.Base.{
  ℕ, ◌<◌, ◌≡◌, refl, subst, List, [], ◌∷◌, true, false, is_negative, lt_int, length, All, some, ok,
}
use cs.Topology.{Site, get_my_node_id, get_nbr_num, get_nbr_array, first_of_array}
use cs.Overlay.Neighbors.{NbrEntry, get_node_id_from_ip, nt_create, rounds}
use cs.Overlay.Neighbors.Laws.{IsTable}
use cs.Overlay.Connect.{Sockets, count_larger}
use cs.Overlay.Connect.Joined.{IsUp, wait_nbrs-connect_nbrs}
use cs.Overlay.Process.{table_of, listeners, start}

abbrev pub conns_of : List NbrEntry → List ℕ
conns_of [] = []
conns_of (e ∷ es) = e.conn ∷ conns_of es

listeners_lem : (t : List NbrEntry) → listeners (length t) t ≡ ok (conns_of t)
unfolding listeners
listeners_lem [] = refl
listeners_lem (e ∷ es) = rw (listeners_lem es) refl

-- If nt_create makes a table of the neighbours, all sockets can be made, connected and accepted, the
-- array of the neighbours can be read, and every neighbour whose node ID is not smaller is among the
-- connections that waitNbrs counts on, then main comes to waitNetwork with a table of the neighbours,
-- all of them connected, and with one thread listening to the connection of each.
pub start-IsUp :
    (site : Site) (address : String → ℕ) (os : Sockets) (socket_fd : ℕ) (arrivals : ℕ → ℕ × ℕ)
    (t : List NbrEntry) (nbrs : List ℕ)
    → nt_create site address ≡ some t
    → IsTable site t
    → ((j : ℕ) → is_negative (os.socket j) ≡ false)
    → ((j : ℕ) → os.connects j ≡ true)
    → is_negative socket_fd ≡ false
    → ((j : ℕ) → is_negative (arrivals j).0 ≡ false)
    → first_of_array (rounds (get_nbr_num site)) (get_nbr_array site) ≡ some nbrs
    → All
        (λ e.
          lt_int e.node (get_my_node_id site) ≡ false
          → (j : ℕ) × (j < count_larger (get_my_node_id site) nbrs)
            × (get_node_id_from_ip (arrivals j).1 ≡ e.node))
        t
    → (joined : List NbrEntry) × (start site address os socket_fd arrivals
        ≡ ok (joined, conns_of joined))
      × IsTable site joined
      × All IsUp joined
unfolding start table_of
start-IsUp site address os socket_fd arrivals t nbrs made v opens connects listens accepts array
      come =
    let (dialled, calls, joined, first, second, table, up) =
      wait_nbrs-connect_nbrs site os socket_fd arrivals t nbrs v opens connects listens accepts
        array come in
    let threads : listeners (rounds (get_nbr_num site)) joined ≡ ok (conns_of joined) =
      subst (λ n. listeners n joined ≡ ok (conns_of joined)) table.size (listeners_lem joined) in
    (joined, rw (made, first, second, threads) refl, table, up)
