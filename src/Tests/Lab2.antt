-- ===== src/Tests/Lab2.antt =====
-- The server of lab2.
use cs.Base.{
  ok, ◌≤◌, ◌==◌, if◌then◌else◌, false, ℕ, ◌≡◌, refl, List, [], ◌∷◌, some, arith, replicate, length,
  length-replicate, get_elem?,
}
use cs.Wire.Layout.{Segment, syn, control_segment}
use cs.Server.Tcb.{Tcb, connected, listening}
use cs.Server.Handler.Stream.{IsPiece}
use cs.Lab2.Server as Server
use cs.Lab2.Server.{Loop, on_segment}
use cs.Lab2.Server.Stream.{IsReceiving, Receives, on_segment-Receives}
use cs.Client.Buffer as Buffer
use cs.Client.Buffer.{ClientState, closed, synsent, null}
use cs.Client.Handler.{ClientTcb}
use cs.Lab2.Client.{Slot, live, freed, mrt_client_connect, mrt_client_disconnect, mrt_client_close}
use cs.Lab2.Client.Calls.{mrt_client_disconnect-mrt_client_connect}
use cs.Tests.Data.{two_bytes, all_sent, all_sent-Sends, two_bytes-IsSegment}
use cs.Base.{none, u32, ◌+◌, ◌*◌, All}
use cs.Lab2.Client.Send as Send
use cs.Lab2.Client.Send.{Sending, fill, link, send_from, window, send_round, send_rounds}
use cs.Lab2.Client.Send.Rounds.{Carries, mrt_client_send_lem}
use cs.Lab2.Segments.{mnp_sendseg, mnp_recvseg}
use cs.Lab2.Segments.RoundTrip.{heard, mnp_recvseg-mnp_sendseg}
use cs.Wire.Frame.Cut.{cut}
use cs.Wire.Layout.{encode_segment}
use cs.Base.{◌++◌}

abbrev stream : List ℕ
stream = 104 ∷ 105 ∷ 106 ∷ []

-- What malloc gives mrt_server_sock for the buffer.
unfoldable memory : ℕ → List ℕ
memory size = replicate size 0

length-memory : (size : ℕ) → length (memory size) ≡ size
unfolding memory
length-memory size = length-replicate {A = ℕ} size 0

abbrev block : Tcb
block = record {
  svr_node = 0;
  svr_port = 7;
  client_node = 0;
  client_port = 5;
  state = connected;
  expect_seq = 0;
  recv_buf = memory 1000000;
  used_buf_len = 0;
}

block-IsReceiving : IsReceiving stream [] block
block-IsReceiving = record {
  in_stream = record { bounded = omega arith; fits = omega arith; prefix = refl };
  size = length-memory 1000000;
}

two_bytes-IsPiece : IsPiece stream two_bytes
two_bytes-IsPiece = record {
  inside = omega arith;
  short = omega arith;
  full = omega (arith, length-replicate {A = ℕ} 1462 0);
  same = refl;
}

on_segment-Receives_example : Receives stream [] (on_segment connected block two_bytes two_bytes)
on_segment-Receives_example =
    on_segment-Receives stream [] block two_bytes two_bytes (omega arith) (λ e. two_bytes-IsPiece)
      block-IsReceiving

-- A block that listens to the port 8, when the segment before was for the port 7.
abbrev other : Tcb
other = record block { svr_port = 8; state = listening }

abbrev loop : Loop
loop = record {
  table = Server.live block ∷ Server.live other ∷ [];
  segment = two_bytes;
  segment_send = two_bytes;
}

abbrev block_of_client : ClientTcb
block_of_client = record {
  svr_node = 0;
  svr_port = 0;
  state = closed;
  buffer = record { next_seq = 0; chain = []; tail_set = false; unsent = null; unack = 0 };
}

-- The server answers in the third round.
abbrev states : ℕ → ClientState
states i = if i == 2 then Buffer.connected else synsent

mrt_client_disconnect-mrt_client_connect_example :
    (dialled : List Slot) × (sent : List Segment) × (ended : List Slot) × (shut : List Slot)
    × (mrt_client_connect states Buffer.connected two_bytes 0 7 (live 5 block_of_client ∷ [])
        ≡ ok (1, (dialled, sent)))
    × (length sent ≤ 6)
    × (mrt_client_disconnect 0 dialled (get_elem? dialled 0) ≡ ok (1, ended))
    × (mrt_client_close 0 ended (get_elem? ended 0) ≡ ok (1, shut))
    × (get_elem? shut 0 ≡ some freed)
mrt_client_disconnect-mrt_client_connect_example =
    mrt_client_disconnect-mrt_client_connect states Buffer.connected two_bytes 0 5 7 block_of_client
      (live 5 block_of_client ∷ []) (omega arith) refl

mnp_recvseg-mnp_sendseg_example :
    let sent = mnp_sendseg all_sent two_bytes in
    (sent.0 ≡ 1)
    × (mnp_recvseg (λ k. 50) 0 [] (sent.1 ++ 33 ∷ [])
        ≡ heard (λ k. 50) 0 [] two_bytes (33 ∷ []) (cut (encode_segment two_bytes)))
mnp_recvseg-mnp_sendseg_example =
    mnp_recvseg-mnp_sendseg all_sent (λ k. 50) 0 [] two_bytes (33 ∷ []) all_sent-Sends
      two_bytes-IsSegment

-- A block that is just connected, and a node in memory that is all zero.
abbrev sending : Sending
sending = record {
  next_seq = 0;
  unack = 0;
  held = false;
  unsent = false;
  loops = false;
  segment = control_segment syn 0 0 0;
}

-- The second round sends the node nine times over, since the node is linked to itself.
repeats : length (send_rounds 5 7 2 2 (104 ∷ 105 ∷ []) sending).1 ≡ 10
unfolding send_rounds send_round send_from link fill window
repeats = refl

mrt_client_send_lem_example :
    ((fuel : ℕ) → Send.mrt_client_send 5 7 fuel 2 (104 ∷ 105 ∷ []) sending ≡ none)
    × ((k : ℕ)
        → ((send_rounds 5 7 k 2 (104 ∷ 105 ∷ []) sending).0.next_seq ≡ u32 (0 + k * 2))
          × All (Carries 2 (104 ∷ 105 ∷ [])) (send_rounds 5 7 k 2 (104 ∷ 105 ∷ []) sending).1)
mrt_client_send_lem_example =
    mrt_client_send_lem 5 7 2 (104 ∷ 105 ∷ []) sending (omega arith) (omega arith) (omega arith)
      (omega arith)
