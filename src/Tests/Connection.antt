-- ===== src/Tests/Connection.antt =====
-- A client and a server, connected.
use cs.Base.{ℕ, ◌≡◌, ◌≤◌, ◌++◌, refl, List, [], ◌∷◌, some, length, replicate, true}
use cs.Wire.Layout.{Segment, data_segment, dataack, control_segment}
use cs.Server.Tcb as Block
use cs.Server.Tcb.{Tcb, save_to_buffer}
use cs.Client.Buffer.{SendBuffer, connected, null}
use cs.Client.Handler.{ClientTcb}
use cs.Client.Handler as Client
use cs.Transport.System.{System}
use cs.Transport.Invariant.{IsLive}
use cs.Transport.Opening.{IsOpened, idle, opening-IsLive}
use cs.Base.{none}
use cs.Server.Sockets.{
  Slot, live, Table, mrt_server_init, mrt_server_sock, create_tcb_table, fetch_server_tcb, counted,
}

-- A segment of 1,464 equal bytes.
abbrev full_of : ℕ → ℕ → Segment
full_of seq byte = record {
  header = record {
    src_port = 5;
    dest_port = 7;
    seq_num = seq;
    ack_num = 0;
    length = 1464;
    type = data_segment;
    rcv_win = 0;
    checksum = 0;
  };
  payload = replicate 1464 byte;
}

abbrev stream : List ℕ
stream = replicate 1464 7 ++ replicate 1464 8

abbrev first : Segment
first = full_of 0 7

abbrev second : Segment
second = full_of 1464 8

-- Two segments, both sent.
abbrev both : SendBuffer
both = record {
  next_seq = 2928;
  chain =
      record { segment = first; sent_time = 0 } ∷ record { segment = second; sent_time = 0 } ∷ [];
  tail_set = true;
  unsent = null;
  unack = 2;
}

-- The server has the first of the two segments that the client has sent, and has acknowledged it; the
-- client has not heard of it, and the second segment is lost.
abbrev start : System
start = record {
  client = record { svr_node = 2; svr_port = 7; state = connected; buffer = both };
  server = record {
    svr_node = 2;
    svr_port = 7;
    client_node = 1;
    client_port = 5;
    state = Block.connected;
    expect_seq = 1464;
    recv_buf = replicate 1464 7 ++ replicate 1464 0;
    used_buf_len = 1464;
  };
  calls = stream ∷ [];
  kept = stream;
  got = [];
  to_server = first ∷ [];
  to_client = control_segment dataack 7 5 1464 ∷ [];
}

-- The server's application has taken what the server had.
abbrev taken : Tcb
taken = record start.server { used_buf_len = 0 }

-- The client has heard the acknowledgement.
abbrev told : SendBuffer
told = record {
  next_seq = 2928;
  chain = record { segment = second; sent_time = 0 } ∷ [];
  tail_set = true;
  unsent = null;
  unack = 1;
}

-- The client hears the acknowledgement; the server's application takes the first segment's bytes.
abbrev after : System
after = record start {
  client = record start.client { buffer = told };
  server = taken;
  got = replicate 1464 7;
  to_server = first ∷ [];
}

-- A fresh socket at each side; the server's memory held other bytes before.
abbrev memory : ClientTcb
memory = record { svr_node = 0; svr_port = 9; state = connected; buffer = told }

-- mrt_server_sock on the table of mrt_server_init.
abbrev server_block : Tcb
server_block = record taken {
  svr_port = 7;
  state = Block.closed;
  svr_node = 2;
  used_buf_len = 0;
  recv_buf = 9 ∷ 9 ∷ 9 ∷ 9 ∷ [];
}

abbrev sockets : Table
sockets = live server_block ∷ replicate 9 Slot.null

no_socket : fetch_server_tcb 7 mrt_server_init ≡ none
unfolding fetch_server_tcb mrt_server_init counted
no_socket = refl

socket_made : mrt_server_sock 2 taken (9 ∷ 9 ∷ 9 ∷ 9 ∷ 9 ∷ []) 7 mrt_server_init ≡ some (0, sockets)
unfolding mrt_server_sock mrt_server_init create_tcb_table
socket_made = refl

opening-IsLive_example :
    (client : ClientTcb) × (server : Tcb) × IsOpened 1 2 5 7
      (λ i k. k)
      memory
      sockets
      0
      (idle client server)
    × IsLive 1 2 5 7 (idle client server)
    × (server.used_buf_len ≡ 0)
    × (length server.recv_buf ≤ 4)
opening-IsLive_example =
    opening-IsLive 1 2 5 7 (λ i k. k) memory taken (9 ∷ 9 ∷ 9 ∷ 9 ∷ 9 ∷ []) mrt_server_init sockets
      0 no_socket socket_made
