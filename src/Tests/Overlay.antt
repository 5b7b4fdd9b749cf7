-- ===== src/Tests/Overlay.antt =====
-- The overlay process of the host "bob", between "ada" and "cyd".
use Prim.Native.String.{String}
use cs.Base.{
  ℕ, ◌+◌, ◌*◌, ◌≡◌, refl, List, [], ◌∷◌, ◌++◌, true, some, ok, arith, replicate, All, minus_one,
}
use cs.Wire.Layout.{encode_packet, encode_packet_arg}
use cs.Wire.Frame.{frame}
use cs.Wire.Frame.Cut.{cut}
use cs.Wire.Packets.{got, overlay_sendpkt, overlay_recvpkt}
use cs.Wire.Packets.RoundTrip.{overlay_payload}
use cs.Topology.{
  Line, Site, get_my_node_id, get_node_id_from_name, get_nbr_num, get_nbr_array, first_of_array,
  other_ends, copy_positive,
}
use cs.Topology.Laws.{get_nbr_num_lem}
use cs.Overlay.Neighbors.{nt_create, entries_of, NbrEntry, get_node_id_from_ip, connect, rounds}
use cs.Overlay.Neighbors.Laws.{IsTable}
use cs.Overlay.Connect.{Sockets, connect_nbrs, count_larger}
use cs.Overlay.Connect.Laws.{connect_nbrs-dialled}
use cs.Overlay.Connect.Joined.{IsUp}
use cs.Overlay.Process.{start, wait_network}
use cs.Overlay.Process.Start.{conns_of, start-IsUp}
use cs.Overlay.Process.Sessions.{wait_network-Ended}
use cs.Overlay.Traffic.{broadcast_node, gone, dispatch, serve, listen_rounds}
use cs.Overlay.Traffic.Serve.{Ended}
use cs.Overlay.Traffic.Dispatch.{wire, to_all, dispatch_one}
use cs.Overlay.Traffic.Path.{
  IsClean, wires, heard, last_heard, frames, listen_rounds-wires, overlay_recvpkt-overlay_sendpkt,
}
use cs.Tests.Data.{
  all_sent, all_sent-Sends, small_packet, small_packet-IsPacket, link, site_of, address_of,
}

abbrev other_link : Line
other_link = record { host1 = "bob"; host2 = "cyd"; link_cost = 7 }

abbrev bob : Site
bob = site_of "bob" (link ∷ other_link ∷ [])

-- 129.170.0.1 to 129.170.0.3
abbrev address : String → ℕ
address name = 43649 + 16777216 * address_of name

abbrev entry : ℕ → ℕ → NbrEntry
entry node conn = record { node = node; ip = 43649 + 16777216 * node; conn = conn }

abbrev fresh : List NbrEntry
fresh = entry 1 minus_one ∷ entry 3 minus_one ∷ []

abbrev up : List NbrEntry
up = entry 1 4 ∷ entry 3 5 ∷ []

bob_nbr_num : get_nbr_num bob ≡ 2
unfolding other_ends get_node_id_from_name get_my_node_id
bob_nbr_num = get_nbr_num_lem bob refl

bob_nbrs : first_of_array (rounds (get_nbr_num bob)) (get_nbr_array bob) ≡ some (1 ∷ 3 ∷ [])
unfolding other_ends get_node_id_from_name get_my_node_id get_nbr_array copy_positive first_of_array
bob_nbrs = rw bob_nbr_num refl

fresh-IsTable : IsTable bob fresh
unfolding get_node_id_from_ip
fresh-IsTable = record {
  size = rw bob_nbr_num refl;
  distinct = ((omega arith, tt), (tt, tt));
  positive = (refl, (refl, tt));
  addressed = (refl, (refl, tt));
}

up-IsTable : IsTable bob up
unfolding get_node_id_from_ip
up-IsTable = record {
  size = rw bob_nbr_num refl;
  distinct = ((omega arith, tt), (tt, tt));
  positive = (refl, (refl, tt));
  addressed = (refl, (refl, tt));
}

abbrev sockets : Sockets
sockets = record { socket = λ i. 4; connects = λ i. true }

connect_nbrs-dialled_example :
    connect_nbrs bob sockets fresh
    ≡ ok (1, (entry 1 4 ∷ entry 3 minus_one ∷ [], connect 16820865 4 ∷ []))
unfolding get_my_node_id
connect_nbrs-dialled_example = connect_nbrs-dialled bob sockets fresh fresh-IsTable

made : nt_create bob address ≡ some fresh
unfolding nt_create entries_of get_node_id_from_name get_my_node_id
made = refl

start-IsUp_example :
    (joined : List NbrEntry) × (start bob address sockets 3 (λ k. (5, 43649 + 16777216 * 3))
      ≡ ok (joined, conns_of joined))
    × IsTable bob joined
    × All IsUp joined
unfolding count_larger get_node_id_from_ip get_my_node_id
start-IsUp_example =
    start-IsUp bob address sockets 3 (λ k. (5, 43649 + 16777216 * 3)) fresh (1 ∷ 3 ∷ []) made
      fresh-IsTable (λ j. refl) (λ j. refl) refl (λ j. refl) bob_nbrs
      ((λ h. absurd cc), ((λ h. (0, omega arith, refl)), tt))

dispatch_one_example :
    (dispatch bob (λ i. all_sent) up 3 small_packet ≡ ok ((5, wire small_packet) ∷ []))
    × (dispatch bob (λ i. all_sent) up broadcast_node small_packet
        ≡ ok (to_all (wire small_packet) (4 ∷ 5 ∷ [])))
dispatch_one_example =
    dispatch_one bob (λ i. all_sent) up 1 (entry 3 5) small_packet up-IsTable (λ j. all_sent-Sends)
      (omega arith) refl (omega arith) (refl, (refl, tt))

-- The first network process writes no whole frame, the second nothing.
abbrev sessions : List (ℕ × List ℕ)
sessions = (6, b'!' ∷ b'&' ∷ 7 ∷ []) ∷ (6, []) ∷ []

wait_network-Ended_example : Ended (wait_network bob (λ i k j. all_sent) up 0 sessions)
wait_network-Ended_example = wait_network-Ended bob (λ i k j. all_sent) up 0 sessions

small_packet-IsClean : IsClean small_packet
unfolding encode_packet cut
small_packet-IsClean = record { packet = small_packet-IsPacket; fits = omega arith; clean = refl }

listen_rounds-wires_example :
    listen_rounds (λ k. all_sent) (2 + 3) 0 small_packet (wires (small_packet ∷ small_packet ∷ []))
    ≡ ok (
        frames (heard small_packet (small_packet ∷ small_packet ∷ []))
        ++ replicate 3
            (frame (encode_packet (last_heard small_packet (small_packet ∷ small_packet ∷ [])))))
listen_rounds-wires_example =
    listen_rounds-wires (λ k. all_sent) 3 0 small_packet (small_packet ∷ small_packet ∷ [])
      (λ j. all_sent-Sends) (small_packet-IsClean, (small_packet-IsClean, tt))

overlay_recvpkt-overlay_sendpkt_example :
    (serve bob (λ k i. all_sent) up 2 0 (overlay_sendpkt all_sent 3 small_packet).1
      ≡ ok ((5, wire small_packet) ∷ [], gone))
    × (bytes : List ℕ) × (listen_rounds (λ k. all_sent) 1 0 small_packet (wire small_packet)
        ≡ ok (bytes ∷ []))
    × (overlay_recvpkt bytes ≡ got (overlay_payload small_packet small_packet) [])
unfolding encode_packet_arg encode_packet overlay_payload cut
overlay_recvpkt-overlay_sendpkt_example =
    overlay_recvpkt-overlay_sendpkt bob up 1 0 (entry 3 5) small_packet small_packet all_sent
      (λ k i. all_sent) (λ k. all_sent) up-IsTable all_sent-Sends (λ k j. all_sent-Sends)
      (λ k. all_sent-Sends) refl (omega arith) (omega arith) (refl, (refl, tt))
      small_packet-IsPacket small_packet-IsClean refl refl
