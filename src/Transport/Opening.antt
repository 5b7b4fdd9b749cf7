-- ===== src/Transport/Opening.antt =====
-- The handshake of mrt_client_connect and mrt_server_accept, up to the data phase.
use cs.Base.{
  ℕ, ◌≡◌, refl, List, [], ◌∷◌, ◌≤◌, Option, ok, some, none, length, length-take, take, true, false,
  ◌==◌, arith, get_elem?, set, subst, Bool-cases, inl, inr,
}
use cs.Wire.Layout.{Segment, syn, synack, control_segment}
use cs.Server.Tcb as Block
use cs.Server.Tcb.{Tcb}
use cs.Server.Handler as Server
use cs.Server.Sockets.{
  accept_from, sizeof_receive_buf_size, Table, live, null, later, create_tcb_table, counted,
  fetch_server_tcb, mrt_server_sock, mrt_server_accept, block_of, seghandler, handle_at, store,
}
use cs.Client.Buffer as Buffer
use cs.Client.Buffer.{position}
use cs.Client.Handler as Client
use cs.Client.Handler.{ClientTcb, seghandler_rounds}
use cs.Client.Sockets.{fresh_block, connect_from, dialling, after_wait}
use cs.Transport.System.{System}
use cs.Transport.Invariant.{IsLive}

-- Of what create_TCB_table makes for the block `b`: `b` is where it says, and a block with `b`'s port
-- that is put there is the one that fetch_server_TCB finds.
abbrev Placed : ℕ → Tcb → Option (ℕ × Table) → Type 0
Placed port b none = Unit
Placed port b (some (fd, table)) =
    (get_elem? table fd ≡ some (live b))
    × ((b' : Tcb)
        → b'.svr_port ≡ port
        → fetch_server_tcb port (set table fd (live b')) ≡ some (fd, b'))

later-Placed :
    (port : ℕ) (b t : Tcb) (r : Option (ℕ × Table))
    → (t.svr_port == port) ≡ false
    → Placed port b r
    → Placed port b (later (live t) r)
unfolding later fetch_server_tcb counted
later-Placed port b t none other h = tt
later-Placed port b t (some (fd, table)) other h = (h.0, λ b' own. rw (other, h.1 b' own) refl)

counted-none : (r : Option (ℕ × Tcb)) → counted r ≡ none → r ≡ none
unfolding counted
counted-none none e = refl
counted-none (some (i, t)) e = cc

create-Placed :
    (port : ℕ) (b : Tcb) (table : Table)
    → fetch_server_tcb port table ≡ none
    → Placed port b (create_tcb_table b table)
unfolding create_tcb_table fetch_server_tcb
create-Placed port b [] free = tt
create-Placed port b (null ∷ slots) free =
    (refl, λ b' own. let same : (b'.svr_port == port) ≡ true = ground arith in rw same refl)
create-Placed port b (live t ∷ slots) free = elim (Bool-cases (t.svr_port == port)) [
  | inl same ↦ absurd (ground arith)
  | inr other ↦
      let rest : counted (fetch_server_tcb port slots) ≡ none = rw other at free in
      later-Placed port b t (create_tcb_table b slots) other
        (create-Placed port b slots (counted-none (fetch_server_tcb port slots) rest))
]

-- A connection before any data, with nothing under way.
abbrev pub idle : ClientTcb → Tcb → System
idle client server = record {
  client = client;
  server = server;
  calls = [];
  kept = [];
  got = [];
  to_server = [];
  to_client = [];
}

-- The handshake: mrt_server_accept makes the block at `fd` listen; the SYN of mrt_client_connect comes
-- to the server's table, and its answer, in the wait, to the client.
pub record IsOpened (client_node server_node client_port server_port : ℕ) (clock : ℕ → ℕ → ℕ)
    (memory : ClientTcb) (table : Table) (fd : ℕ) (last : System) : Type 0 where
  pub listens : Tcb
  pub answer : Segment
  pub accepts : mrt_server_accept (block_of (get_elem? table fd)) ≡ ok (some listens)
  pub hears :
      seghandler
        (set table fd (live listens))
        client_node
        (control_segment syn client_port server_port 0)
      ≡ ok (
        set (set table fd (live listens)) fd (live last.server),
        Server.send client_node answer ∷ [],
      )
  pub connects :
      connect_from clock
        ((server_node, answer) ∷ [])
        Buffer.closed
        client_port
        (fresh_block memory)
        server_node
        server_port
      ≡ ok (1, (last.client, (server_node, control_segment syn client_port server_port 0) ∷ []))

-- Whatever the fresh memory holds: when mrt_server_sock has made a socket for a port that no other
-- socket of the table has, mrt_server_accept waits at it, the SYN of mrt_client_connect on a fresh
-- socket comes to seghandler, and its answer comes to the client, then mrt_client_connect returns 1
-- after that one SYN, and the two blocks, with nothing under way, are a live connection, with a
-- receive buffer of four bytes at most.
pub opening-IsLive :
    (client_node server_node client_port server_port : ℕ) (clock : ℕ → ℕ → ℕ) (memory : ClientTcb)
    (block : Tcb) (bytes : List ℕ) (table table' : Table) (fd : ℕ)
    → fetch_server_tcb server_port table ≡ none
    → mrt_server_sock server_node block bytes server_port table ≡ some (fd, table')
    → (client : ClientTcb) × (server : Tcb) × IsOpened client_node server_node client_port
        server_port clock memory table' fd
        (idle client server)
      × IsLive client_node server_node client_port server_port (idle client server)
      × (server.used_buf_len ≡ 0)
      × (length server.recv_buf ≤ 4)
unfolding control_segment mrt_server_accept block_of accept_from seghandler handle_at store
    Server.on_segment Server.on_listening Server.segment_recv connect_from dialling fresh_block
    after_wait seghandler_rounds Client.on_segment position
opening-IsLive client_node server_node client_port server_port clock memory block bytes table table'
      fd free made =
    let made_block : Tcb = record block {
      svr_port = server_port;
      state = Block.closed;
      svr_node = server_node;
      used_buf_len = 0;
      recv_buf = take sizeof_receive_buf_size bytes;
    } in
    let created : create_tcb_table made_block table ≡ some (fd, table') =
      unfold mrt_server_sock in made in
    let placed : Placed server_port made_block (some (fd, table')) =
      subst (Placed server_port made_block) created
        (create-Placed server_port made_block table free) in
    let there_block = placed.0 in
    let listens : Tcb = record made_block { state = Block.listening } in
    let looked_up = placed.1 listens refl in
    let own : (server_port == server_port) ≡ true = ground arith in
    let there : (server_node == server_node) ≡ true = ground arith in
    let server : Tcb = record listens {
      state = Block.connected;
      client_node = client_node;
      client_port = client_port;
      expect_seq = 0;
    } in
    let client : ClientTcb = record {
      svr_node = server_node;
      svr_port = server_port;
      state = Buffer.connected;
      buffer = record {
        next_seq = 0;
        chain = [];
        tail_set = false;
        unsent = Buffer.null;
        unack = 0;
      };
    } in
    (
      client,
      server,
      record {
        listens = listens;
        answer = control_segment synack server_port client_port 0;
        accepts = rw there_block refl;
        hears = rw looked_up refl;
        connects = rw (own, there) refl;
      },
      record {
        base = 0;
        client_up = refl;
        client_peer = refl;
        client_peer_port = refl;
        server_up = refl;
        server_port_is = refl;
        server_peer = refl;
        server_peer_port = refl;
        small = omega arith;
        logged = refl;
        window = record {
          contiguous = refl;
          tail = refl;
          narrow = omega arith;
          held = omega arith;
          unsent = refl;
        };
        holds = record { ends = refl; aligned = refl; sendable = tt };
        opened = refl;
        acked = omega arith;
        aligned = refl;
        in_stream = record { bounded = omega arith; fits = omega arith; prefix = refl };
        behind = omega arith;
        flying = tt;
        answers_behind = tt;
      },
      refl,
      omega (arith, length-take 4 bytes),
    )
