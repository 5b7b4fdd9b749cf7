-- ===== src/Tests/Sockets.antt =====
-- The sockets of a client.
use cs.Base.{ℕ, ◌≤◌, ◌≡◌, ◌⊎◌, refl, List, [], ◌∷◌, some, ok, set, length, minus_one}
use cs.Wire.Layout.{Segment, syn, synack, control_segment}
use cs.Client.Buffer.{SendBuffer, closed, synsent, connected}
use cs.Client.Handler.{ClientTcb, seghandler_rounds, on_segment}
use cs.Client.Sockets.{
  free, live, Sockets, dialling, connect_from, disconnect_from, mrt_client_connect,
  mrt_client_disconnect, mrt_client_close,
}
use cs.Client.Sockets.Connect.{mrt_client_connect_lem}
use cs.Client.Sockets.Disconnect.{mrt_client_disconnect_lem}
use cs.Tests.Client.{two, node_of}

abbrev clock : ℕ → ℕ → ℕ
clock k i = 7

-- A block that is closed, and one that is connected to the port 7 of the node 2, with two segments.
abbrev idle : ClientTcb
idle = record {
  svr_node = minus_one;
  svr_port = 0;
  state = closed;
  buffer = record two { chain = []; unack = 0 };
}

abbrev up : ClientTcb
up = record { svr_node = 2; svr_port = 7; state = connected; buffer = two }

abbrev sockets : Sockets
sockets = live 5 up ∷ live 6 idle ∷ free ∷ []

-- The server answers the SYN.
abbrev answer : List (ℕ × Segment)
answer = (2, control_segment synack 7 6 0) ∷ []

answered :
    seghandler_rounds clock 0 (dialling idle 2 7) answer
    ≡ ok (record idle { svr_node = 2; svr_port = 7; state = connected })
unfolding seghandler_rounds on_segment dialling control_segment
answered = refl

mrt_client_connect_lem_example :
    let seg = control_segment syn 6 7 0 in
    let u : ClientTcb = record idle { svr_node = 2; svr_port = 7; state = connected } in
    (value : ℕ) × (sent : List (ℕ × Segment)) × (mrt_client_connect clock answer 1 2 7 sockets
        (some (live 6 idle))
      ≡ ok (value, (set sockets 1 (live 6 u), sent)))
    × (((value ≡ 1) × (u.state ≡ connected) × (sent ≡ (2, seg) ∷ []))
        ⊎ ((value ≡ minus_one)
            × (u.state ≡ synsent)
            × (sent ≡ (2, seg) ∷ (u.svr_node, seg) ∷ [])
            × (connect_from clock answer u.state 6 u 2 7 ≡ ok (minus_one, (u, [])))
            × (disconnect_from clock (λ i. answer) u.state 6 u ≡ ok (minus_one, (u, [])))
            × (mrt_client_close 1 sockets (some (live 6 u)) ≡ ok (minus_one, sockets))))
mrt_client_connect_lem_example =
    mrt_client_connect_lem clock answer 1 6 2 7 sockets idle refl answered

mrt_client_disconnect_lem_example :
    (value : ℕ) × (u : ClientTcb) × (sent : List (ℕ × Segment)) × (mrt_client_disconnect clock
        (λ i. answer)
        0
        sockets
        (some (live 5 up))
      ≡ ok (value, (set sockets 0 (live 5 u), sent)))
    × (u.state ≡ closed)
    × (((value ≡ 1)
          × (length sent ≤ 6)
          × (u.buffer.chain ≡ [])
          × (u.buffer.unack ≡ 0)
          × (u.buffer.next_seq ≡ 0))
        ⊎ ((value ≡ minus_one) × (length sent ≡ 6) × (u.buffer ≡ two)))
mrt_client_disconnect_lem_example =
    mrt_client_disconnect_lem clock (λ i. answer) 0 5 sockets up refl

-- The first segment was sent.
abbrev timed : SendBuffer
timed = record two {
  chain =
      record (node_of 0 (104 ∷ 105 ∷ [])) { sent_time = 4294967295 }
      ∷ node_of 2 (106 ∷ 107 ∷ [])
      ∷ [];
}
