-- ===== src/Tests/Transport.antt =====
-- A server's sockets.
use cs.Base.{ℕ, ◌≡◌, refl, List, [], ◌∷◌, some, arith, replicate, length-replicate}
use cs.Wire.Layout.{Segment, dataack, control_segment}
use cs.Server.Tcb.{closed, connected, closewait, Tcb, ok, fault, save_to_buffer, write_at}
use cs.Server.Handler.{
  send, on_segment, on_listening, on_connected, segment_recv, data_received, acknowledge,
  after_save,
}
use cs.Server.Handler.Stream.{IsPiece, InStream, Received, data_received-InStream}
use cs.Server.Handler.Machine.{Moves, next_state, on_segment-Moves}
use cs.Server.Sockets.{
  null, live, mrt_server_init, create_tcb_table, mrt_server_sock, block_of, accept_from, write_back,
  mrt_server_accept, fetch_server_tcb, store, handle_at, seghandler, Event, sock, accept, arrive,
  after_sock, after_segment, on_event, on_events, close_in, close_block, mrt_server_close,
}
use cs.Server.Sockets.Laws.Overflow.{seghandler-fault}
use cs.Server.Sockets.Laws.Index.{mrt_server_sock-socks, descriptor}
use cs.Tests.Data.{data_of, two_bytes}

abbrev stream : List ℕ
stream = 104 ∷ 105 ∷ 106 ∷ []

-- A connected block whose buffer has eight bytes, the first of them used by the stream's first.
abbrev block : Tcb
block = record {
  svr_node = 2;
  svr_port = 7;
  client_node = 1;
  client_port = 5;
  state = connected;
  expect_seq = 1;
  recv_buf = 104 ∷ replicate 7 0;
  used_buf_len = 1;
}

block-InStream : InStream stream [] block
block-InStream = record { bounded = omega arith; fits = omega arith; prefix = refl }

-- The rest of the stream.
abbrev piece : Segment
piece = data_of 4 1 (105 ∷ 106 ∷ []) 1462

piece-IsPiece : IsPiece stream piece
piece-IsPiece = record {
  inside = omega arith;
  short = omega arith;
  full = omega (arith, length-replicate {A = ℕ} 1462 0);
  same = refl;
}

data_received-block :
    data_received block piece
    ≡ ok (
      record block { expect_seq = 3; recv_buf = 104 ∷ 105 ∷ 106 ∷ replicate 5 0; used_buf_len = 3 },
      send 1 (control_segment dataack 7 5 3) ∷ [],
    )
unfolding data_received save_to_buffer write_at after_save acknowledge
data_received-block = refl

data_received-InStream_example : Received stream [] (
  record block { expect_seq = 3; recv_buf = 104 ∷ 105 ∷ 106 ∷ replicate 5 0; used_buf_len = 3 },
  send 1 (control_segment dataack 7 5 3) ∷ [],
)
unfolding data_received save_to_buffer write_at after_save acknowledge
data_received-InStream_example =
    data_received-InStream stream [] block piece (omega arith) piece-IsPiece block-InStream

on_segment-Moves_example : Moves connected block block (send 1 (control_segment dataack 7 5 1) ∷ [])
unfolding on_segment on_connected data_received acknowledge next_state
on_segment-Moves_example = on_segment-Moves block 1 two_bytes

-- A server with one socket that accepts, and gets a SYN.
abbrev fresh : Tcb
fresh = record {
  svr_node = 0;
  svr_port = 0;
  client_node = 0;
  client_port = 0;
  state = closewait;
  expect_seq = 0;
  recv_buf = [];
  used_buf_len = 0;
}

abbrev events : List Event
events = sock 2 fresh (replicate 8 0) 7 ∷ accept 0 ∷ arrive 1 (data_of 0 0 [] 1464) ∷ []

abbrev joined : Tcb
joined = record {
  svr_node = 2;
  svr_port = 7;
  client_node = 1;
  client_port = 5;
  state = connected;
  expect_seq = 0;
  recv_buf = replicate 4 0;
  used_buf_len = 0;
}

events_run : on_events (ok mrt_server_init) events ≡ ok (live joined ∷ replicate 9 null)
unfolding mrt_server_init on_events on_event after_sock mrt_server_sock create_tcb_table write_back
    mrt_server_accept accept_from block_of after_segment seghandler fetch_server_tcb handle_at store
    on_segment on_listening segment_recv
events_run = refl

seghandler-fault_example :
    seghandler
      (live joined ∷ replicate 9 null)
      1
      (data_of 4 0 (104 ∷ 105 ∷ 106 ∷ 107 ∷ 108 ∷ []) 1459)
    ≡ fault
seghandler-fault_example =
    seghandler-fault events (live joined ∷ replicate 9 null) 0 1 joined
      (data_of 4 0 (104 ∷ 105 ∷ 106 ∷ 107 ∷ 108 ∷ []) 1459) events_run
      (unfold fetch_server_tcb in refl) refl refl refl refl refl (omega arith) (omega arith)

mrt_server_sock-socks_example :
    descriptor (mrt_server_sock 2 fresh (replicate 8 0) 9 (live joined ∷ replicate 9 null)) ≡ some 1
mrt_server_sock-socks_example =
    mrt_server_sock-socks events (live joined ∷ replicate 9 null) 2 fresh (replicate 8 0) 9
      events_run

-- A closed socket is read after it is freed.
close_test : mrt_server_close (live (record joined { state = closed }) ∷ []) 0 ≡ fault
unfolding mrt_server_close block_of close_block close_in
close_test = refl
