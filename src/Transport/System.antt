-- ===== src/Transport/System.antt =====
-- One connection in its data phase: lab4/client/mrt_client.c, lab4/server/mrt_server.c, and a network
-- that loses, repeats and reorders segments.
use cs.Base.{ℕ, ◌≡◌, List, [], ◌∷◌, ◌++◌, ok, some, get_elem?, take, ◌*◌, ◌/◌, ◌≤◌, ◌<◌, length}
use cs.Wire.Layout.{Segment, max_seg_len}
use cs.Server.Tcb.{Tcb, copied, mrt_server_recv}
use cs.Server.Handler as Server
use cs.Client.Buffer.{SendBuffer, connected, mrt_client_send, sendbuffer_timeout}
use cs.Client.Buffer as Buffer
use cs.Client.Buffer.Window.{sent}
use cs.Client.Handler.{ClientTcb}
use cs.Client.Handler as Client

-- The two blocks; the bytes of each call of mrt_client_send that the client's application has made, in
-- order, those that the calls kept, and those that the server's application has got; and all the
-- segments that each side has ever handed to the network, which may deliver each of them at any
-- time, any number of times or never.
pub record System : Type 0 where
  pub client : ClientTcb
  pub server : Tcb
  pub calls : List (List ℕ)
  pub kept : List ℕ
  pub got : List ℕ
  pub to_server : List Segment
  pub to_client : List Segment

-- The whole segments of each call, of MAX_SEG_LEN bytes; a call loses the bytes behind them.
abbrev pub whole : List (List ℕ) → List ℕ
whole [] = []
whole (bytes ∷ calls) = take (length bytes / max_seg_len * max_seg_len) bytes ++ whole calls

-- The segments among the calls that the server's handler makes.
abbrev pub answers : List Server.Output → List Segment
answers [] = []
answers (Server.send node seg ∷ outs) = seg ∷ answers outs
answers (Server.start_closewait ∷ outs) = answers outs

module _ (client_node server_node client_port server_port : ℕ) where
  pub data Step (s : System) : System → Type 0 where
    -- The client's application calls mrt_client_send with `n` bytes, 2 ^ 31 at most. Its sequence numbers
    -- do not come to 2 ^ 32.
    gives :
        (clock : ℕ → ℕ) (bytes : List ℕ) (n : ℕ) (b : SendBuffer) (outs : List Buffer.Output)
        → n ≤ length bytes
        → n ≤ 2147483648
        → length (s.kept ++ take (n / max_seg_len * max_seg_len) bytes) < 4294967296
        → mrt_client_send s.client.state client_port server_port clock s.client.buffer bytes n
          ≡ ok (some (b, outs))
        → Step s (record s {
          client = record s.client { buffer = b };
          calls = s.calls ++ take n bytes ∷ [];
          kept = s.kept ++ take (n / max_seg_len * max_seg_len) bytes;
          to_server = s.to_server ++ sent outs;
        })
    -- The client's timer resends.
    resends :
        (clock : ℕ → ℕ) (b : SendBuffer) (outs : List Buffer.Output)
        → sendbuffer_timeout clock s.client.buffer ≡ ok (b, outs)
        → Step s (record s {
          client = record s.client { buffer = b };
          to_server = s.to_server ++ sent outs;
        })
    -- A segment comes to the server.
    arrives :
        (i : ℕ) (seg : Segment) (t : Tcb) (outs : List Server.Output)
        → get_elem? s.to_server i ≡ some seg
        → Server.on_segment s.server.state s.server client_node seg ≡ ok (t, outs)
        → Step s (record s { server = t; to_client = s.to_client ++ answers outs })
    -- A segment comes to the client.
    answered :
        (clock : ℕ → ℕ) (i : ℕ) (seg : Segment) (t : ClientTcb) (outs : List Buffer.Output)
        → get_elem? s.to_client i ≡ some seg
        → Client.on_segment clock s.client.state s.client server_node seg ≡ ok (t, outs)
        → Step s (record s { client = t; to_server = s.to_server ++ sent outs })
    -- The server's application calls mrt_server_recv, and gets its bytes.
    gets :
        (n : ℕ) (bytes : List ℕ) (t : Tcb)
        → mrt_server_recv s.server.state s.server n ≡ ok (copied bytes t)
        → Step s (record s { server = t; got = s.got ++ bytes })

  pub data Reach (s : System) : System → Type 0 where
    here : Reach s s
    next : {mid last : System} → Reach s mid → Step mid last → Reach s last
