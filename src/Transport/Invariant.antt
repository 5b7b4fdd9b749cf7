-- ===== src/Transport/Invariant.antt =====
-- What every run of a connection keeps.
use cs.Base.{
  ℕ, zero, suc, ap, [], ◌∷◌, append-nil, append_assoc, length-take, min, ◌%◌, ◌+◌, ◌-◌, ◌*◌, ◌/◌,
  ◌≤◌, ◌<◌, ◌≡◌, refl, sym, subst, ◌∙◌, List, ◌++◌, Run, ok, Option, some, none, length, take, All,
  All-append, All-mono, All-get_elem?, get_elem?, arith,
}
use cs.Wire.Layout.{Segment, max_seg_len}
use cs.Server.Tcb as Block
use cs.Server.Tcb.{Tcb, Recv, copied, recv_round, mrt_server_recv}
use cs.Server.Handler as Server
use cs.Server.Handler.Machine.{IfOk}
use cs.Server.Handler.Stream.{
  InStream, Ends, Received, data_received-InStream, Copied, recv_round-InStream,
}
use cs.Client.Buffer.{SendBuffer, connected, mrt_client_send, sendbuffer_timeout}
use cs.Client.Buffer as Buffer
use cs.Client.Buffer.Window.{IsWindow, sent}
use cs.Client.Handler.{ClientTcb}
use cs.Client.Handler as Client
use cs.Transport.System.{
  System, whole, answers, Step, gives, resends, arrives, answered, gets, Reach, here, next,
}
use cs.Transport.Sent.{boundary}
use cs.Transport.Pieces.{IsSendable, IsSendable-append, InStream-append, Holds}
use cs.Transport.Sending.{
  IsFlying, IsSending, mrt_client_send-IsSending, sendbuffer_timeout-IsSending,
}
use cs.Transport.Answers.{
  IsAnswer, Acknowledges, IsHeard, Advances, AdvancesTo, data_received-Advances, on_data, Same,
  OfRecv, recv_round-Same, on_answer,
}

take-take_le : (k n : ℕ) (xs : List ℕ) → k ≤ n → take k (take n xs) ≡ take k xs
take-take_le zero n xs h = refl
take-take_le (suc k) zero xs h = absurd (omega (arith, h))
take-take_le (suc k) (suc n) [] h = refl
take-take_le (suc k) (suc n) (x ∷ xs) h = ap (λ t. x ∷ t) (take-take_le k n xs (omega (arith, h)))

whole_snoc :
    (calls : List (List ℕ)) (bytes : List ℕ)
    → whole (calls ++ bytes ∷ [])
      ≡ whole calls ++ take (length bytes / max_seg_len * max_seg_len) bytes
whole_snoc [] bytes = append-nil (take (length bytes / max_seg_len * max_seg_len) bytes)
whole_snoc (c ∷ cs) bytes =
    let front = take (length c / max_seg_len * max_seg_len) c in
    ap (λ t. front ++ t) (whole_snoc cs bytes)
    ∙ sym (append_assoc front (whole cs) (take (length bytes / max_seg_len * max_seg_len) bytes))

-- One call more.
whole-append :
    (calls : List (List ℕ)) (bytes : List ℕ) (n : ℕ) (kept : List ℕ)
    → n ≤ length bytes
    → kept ≡ whole calls
    → kept ++ take (n / 1464 * 1464) bytes ≡ whole (calls ++ take n bytes ∷ [])
whole-append calls bytes n kept h e =
    let size : length (take n bytes) ≡ n = omega (arith, length-take n bytes, h) in
    let same : take (n / 1464 * 1464) (take n bytes) ≡ take (n / 1464 * 1464) bytes =
      take-take_le (n / 1464 * 1464) n bytes (omega arith) in
    ap (λ k. k ++ take (n / 1464 * 1464) bytes) e
    ∙ ap (λ t. whole calls ++ t)
        (sym same ∙ ap (λ l. take (l / 1464 * 1464) (take n bytes)) (sym size))
    ∙ sym (whole_snoc calls (take n bytes))

-- Two values of one run.
same_ok {ℓ κ} :
    {A : Type ℓ} (P : A → Type κ) {r : Run A} {x y : A} → r ≡ ok x → r ≡ ok y → P x → P y
same_ok P e f p = subst (IfOk P) (sym e ∙ f) p

module _ (client_node server_node client_port server_port : ℕ) where
  -- Both blocks are connected to each other; the send buffer starts no later than the number that the
  -- server expects and ends with what was kept, and its window is full or holds all; the server has
  -- got and holds what was kept up to the number that it expects; all that is under way is sent,
  -- and acknowledges nothing that has not come.
  pub record IsLive (s : System) : Type 0 where
    pub base : ℕ
    pub client_up : s.client.state ≡ connected
    pub client_peer : s.client.svr_node ≡ server_node
    pub client_peer_port : s.client.svr_port ≡ server_port
    pub server_up : s.server.state ≡ Block.connected
    pub server_port_is : s.server.svr_port ≡ server_port
    pub server_peer : s.server.client_node ≡ client_node
    pub server_peer_port : s.server.client_port ≡ client_port
    pub small : length s.kept < 4294967296
    pub logged : s.kept ≡ whole s.calls
    pub window : IsWindow base s.client.buffer
    pub holds : Holds s.kept client_port server_port s.client.buffer
    pub opened : s.client.buffer.unack ≡ min 10 (length s.client.buffer.chain)
    pub acked : base ≤ s.server.expect_seq
    pub aligned : s.server.expect_seq % 1464 ≡ 0
    pub in_stream : InStream s.kept s.got s.server
    pub behind : s.server.expect_seq ≤ boundary base s.client.buffer
    pub flying :
        All (IsFlying s.kept client_port server_port (boundary base s.client.buffer)) s.to_server
    pub answers_behind : All (IsAnswer server_port s.server.expect_seq) s.to_client

  -- After a call of the client; what was kept is then `now`.
  sent-IsLive :
      (s : System) (v : IsLive s) (now : List ℕ) (calls : List (List ℕ)) (base : ℕ) (b : SendBuffer)
      (outs : List Buffer.Output)
      → length now < 4294967296
      → now ≡ whole calls
      → base ≤ s.server.expect_seq
      → InStream now s.got s.server
      → ((seg : Segment)
          → IsSendable s.kept client_port server_port seg
          → IsSendable now client_port server_port seg)
      → IsSending now client_port server_port base (boundary v.base s.client.buffer) b outs
      → IsLive (record s {
        client = record s.client { buffer = b };
        calls = calls;
        kept = now;
        to_server = s.to_server ++ sent outs;
      })
  sent-IsLive s v now calls base b outs small logged known stream grow sending =
      let fly = IsFlying now client_port server_port (boundary base b) in
      record {
        base = base;
        client_up = v.client_up;
        client_peer = v.client_peer;
        client_peer_port = v.client_peer_port;
        server_up = v.server_up;
        server_port_is = v.server_port_is;
        server_peer = v.server_peer;
        server_peer_port = v.server_peer_port;
        small = small;
        logged = logged;
        window = sending.window;
        holds = sending.holds;
        opened = sending.opened;
        acked = known;
        aligned = v.aligned;
        in_stream = stream;
        behind = omega (arith, v.behind, sending.forward);
        flying =
            All-append fly s.to_server (sent outs)
              (All-mono (IsFlying s.kept client_port server_port (boundary v.base s.client.buffer))
                fly
                (λ seg f. record {
                  sendable = grow seg f.sendable;
                  ends = omega (arith, f.ends, sending.forward);
                })
                s.to_server v.flying)
              sending.flying;
        answers_behind = v.answers_behind;
      }

  gives-IsLive :
      (s : System) (v : IsLive s) (clock : ℕ → ℕ) (bytes : List ℕ) (n : ℕ) {b : SendBuffer}
      {outs : List Buffer.Output}
      → n ≤ length bytes
      → n ≤ 2147483648
      → length (s.kept ++ take (n / 1464 * 1464) bytes) < 4294967296
      → mrt_client_send s.client.state client_port server_port clock s.client.buffer bytes n
        ≡ ok (some (b, outs))
      → IsLive (record s {
        client = record s.client { buffer = b };
        calls = s.calls ++ take n bytes ∷ [];
        kept = s.kept ++ take (n / 1464 * 1464) bytes;
        to_server = s.to_server ++ sent outs;
      })
  gives-IsLive s v clock bytes n {b} {outs} h int small e =
      let more = take (n / 1464 * 1464) bytes in
      let (b1, outs1, run, sending) =
        mrt_client_send-IsSending s.kept client_port server_port v.base clock s.client.buffer bytes
          n v.window v.holds h int small in
      let now = s.kept ++ more in
      let made : mrt_client_send s.client.state client_port server_port clock s.client.buffer bytes
            n
          ≡ ok (some (b1, outs1)) =
        subst
          (λ st.
            mrt_client_send st client_port server_port clock s.client.buffer bytes n
            ≡ ok (some (b1, outs1)))
          (sym v.client_up) run in
      sent-IsLive s v now (s.calls ++ take n bytes ∷ []) v.base b outs small
        (whole-append s.calls bytes n s.kept h v.logged) v.acked
        (InStream-append s.kept more s.got s.server v.in_stream)
        (λ seg f. IsSendable-append s.kept more client_port server_port seg f)
        (same_ok
          (OfSend (IsSending now client_port server_port v.base (boundary v.base s.client.buffer)))
          made e sending)
    where
      OfSend :
          (SendBuffer → List Buffer.Output → Type 0)
          → Option (SendBuffer × List Buffer.Output)
          → Type 0
      OfSend P none = Unit
      OfSend P (some (b, outs)) = P b outs

  resends-IsLive :
      (s : System) (v : IsLive s) (clock : ℕ → ℕ) {b : SendBuffer} {outs : List Buffer.Output}
      → sendbuffer_timeout clock s.client.buffer ≡ ok (b, outs)
      → IsLive (record s {
        client = record s.client { buffer = b };
        to_server = s.to_server ++ sent outs;
      })
  resends-IsLive s v clock {b} {outs} e =
      let (b1, outs1, run, sending) =
        sendbuffer_timeout-IsSending s.kept client_port server_port v.base clock s.client.buffer
          v.window v.holds v.opened in
      sent-IsLive s v s.kept s.calls v.base b outs v.small v.logged v.acked v.in_stream (λ seg f. f)
        (same_ok
          (λ r.
            IsSending s.kept client_port server_port v.base (boundary v.base s.client.buffer) r.0
              r.1)
          run e sending)

  -- The client handles every answer without a fault.
  pub answered_lem :
      (s : System) (v : IsLive s) (clock : ℕ → ℕ) (i : ℕ) {seg : Segment}
      → get_elem? s.to_client i ≡ some seg
      → (base : ℕ) × (b : SendBuffer) × (outs : List Buffer.Output) × (Client.on_segment clock
            s.client.state s.client server_node seg
          ≡ ok (record s.client { buffer = b }, outs))
        × IsHeard s.kept client_port server_port v.base s.server.expect_seq seg.header.ack_num
            (boundary v.base s.client.buffer)
            base
            b
            outs
  answered_lem s v clock i {seg} e =
      let answer =
        All-get_elem? (IsAnswer server_port s.server.expect_seq) s.to_client i v.answers_behind e in
      on_answer s.kept client_port server_port v.base s.server.expect_seq clock s.client server_node
        seg v.client_up v.client_peer
        (subst (λ p. IsAnswer p s.server.expect_seq seg) (sym v.client_peer_port) answer) v.behind
        v.acked v.window v.holds v.opened

  answered-IsLive :
      (s : System) (v : IsLive s) (clock : ℕ → ℕ) (i : ℕ) {seg : Segment} {t : ClientTcb}
      {outs : List Buffer.Output}
      → get_elem? s.to_client i ≡ some seg
      → Client.on_segment clock s.client.state s.client server_node seg ≡ ok (t, outs)
      → IsLive (record s { client = t; to_server = s.to_server ++ sent outs })
  answered-IsLive s v clock i {seg} {t} {outs} e f =
      let (base, b, outs1, run, heard) = answered_lem s v clock i e in
      same_ok (λ r. IsLive (record s { client = r.0; to_server = s.to_server ++ sent r.1 })) run f
        (sent-IsLive s v s.kept s.calls base b outs1 v.small v.logged heard.behind v.in_stream
          (λ seg f. f) heard.sending)

  acknowledged :
      (port e : ℕ) (segs : List Segment)
      → e % 1464 ≡ 0
      → All (Acknowledges port e) segs
      → All (IsAnswer port e) segs
  acknowledged port e segs h a =
      All-mono (Acknowledges port e) (IsAnswer port e)
        (λ seg f. record {
          type_is = f.type_is;
          from = f.from;
          within = omega (arith, f.exact);
          aligned = rw f.exact h;
        })
        segs a

  -- What the server does with what is under way.
  arrives-IsLive :
      (s : System) (v : IsLive s) (i : ℕ) {seg : Segment} {t : Tcb} {outs : List Server.Output}
      → get_elem? s.to_server i ≡ some seg
      → Server.on_segment s.server.state s.server client_node seg ≡ ok (t, outs)
      → IsLive (record s { server = t; to_client = s.to_client ++ answers outs })
  arrives-IsLive s v i {seg} {t} {outs} e f =
      let server = s.server in
      let fly =
        All-get_elem? (IsFlying s.kept client_port server_port (boundary v.base s.client.buffer))
          s.to_server i v.flying e in
      let piece = fly.sendable.piece in
      let short : seg.header.seq_num + seg.header.length < 4294967296 =
        omega (arith, piece.inside, v.small) in
      let heard : Server.data_received server seg ≡ ok (t, outs) =
        sym (
          on_data server client_node seg v.server_up v.server_peer
            (v.server_peer_port ∙ sym fly.sendable.from) fly.sendable.type_is)
        ∙ f in
      let received : Received s.kept s.got (t, outs) =
        subst
          (Ends (Received s.kept s.got)
            (length server.recv_buf < server.used_buf_len + seg.header.length))
          heard (data_received-InStream s.kept s.got server seg v.small piece v.in_stream) in
      let moved : Advances server seg t outs =
        subst (IfOk (AdvancesTo server seg)) heard (data_received-Advances server seg short) in
      record {
        base = v.base;
        client_up = v.client_up;
        client_peer = v.client_peer;
        client_peer_port = v.client_peer_port;
        server_up = moved.state ∙ v.server_up;
        server_port_is = moved.svr_port ∙ v.server_port_is;
        server_peer = moved.client_node ∙ v.server_peer;
        server_peer_port = moved.client_port ∙ v.server_peer_port;
        small = v.small;
        logged = v.logged;
        window = v.window;
        holds = v.holds;
        opened = v.opened;
        acked = omega (arith, v.acked, moved.forward);
        aligned = moved.aligned v.aligned fly.sendable.whole;
        in_stream = received.0;
        behind = moved.upto (boundary v.base s.client.buffer) v.behind fly.ends;
        flying = v.flying;
        answers_behind =
            All-append (IsAnswer server_port t.expect_seq) s.to_client (answers outs)
              (All-mono (IsAnswer server_port server.expect_seq) (IsAnswer server_port t.expect_seq)
                (λ a h. record {
                  type_is = h.type_is;
                  from = h.from;
                  within = omega (arith, h.within, moved.forward);
                  aligned = h.aligned;
                })
                s.to_client v.answers_behind)
              (subst (λ p. All (IsAnswer p t.expect_seq) (answers outs)) v.server_port_is
                (acknowledged server.svr_port t.expect_seq (answers outs)
                  (moved.aligned v.aligned fly.sendable.whole) moved.answered));
      }

  gets-IsLive :
      (s : System) (v : IsLive s) (n : ℕ) {bytes : List ℕ} {t : Tcb}
      → mrt_server_recv s.server.state s.server n ≡ ok (copied bytes t)
      → IsLive (record s { server = t; got = s.got ++ bytes })
  gets-IsLive s v n {bytes} {t} e =
      let server = s.server in
      let round : recv_round server n ≡ ok (copied bytes t) =
        sym (
          subst (λ st. mrt_server_recv st server n ≡ recv_round server n) (sym v.server_up)
            (unfold mrt_server_recv in refl))
        ∙ e in
      let handed : Copied s.kept s.got n server (copied bytes t) =
        subst (Ends (Copied s.kept s.got n server) (n < server.used_buf_len - n)) round
          (recv_round-InStream s.kept s.got server n v.in_stream) in
      let same : Same server t = subst (IfOk (OfRecv server)) round (recv_round-Same server n) in
      record {
        base = v.base;
        client_up = v.client_up;
        client_peer = v.client_peer;
        client_peer_port = v.client_peer_port;
        server_up = same.state ∙ v.server_up;
        server_port_is = same.svr_port ∙ v.server_port_is;
        server_peer = same.client_node ∙ v.server_peer;
        server_peer_port = same.client_port ∙ v.server_peer_port;
        small = v.small;
        logged = v.logged;
        window = v.window;
        holds = v.holds;
        opened = v.opened;
        acked = omega (arith, same.expect_seq, v.acked);
        aligned = rw same.expect_seq v.aligned;
        in_stream = handed.0;
        behind = omega (arith, same.expect_seq, v.behind);
        flying = v.flying;
        answers_behind =
            subst (λ k. All (IsAnswer server_port k) s.to_client) (sym same.expect_seq)
              v.answers_behind;
      }

  pub Step-IsLive :
      {s t : System}
      → Step client_node server_node client_port server_port s t
      → IsLive s
      → IsLive t
  Step-IsLive {s} (gives clock bytes n b outs h int small e) v =
      gives-IsLive s v clock bytes n h int small e
  Step-IsLive {s} (resends clock b outs e) v = resends-IsLive s v clock e
  Step-IsLive {s} (arrives i seg t outs e f) v = arrives-IsLive s v i e f
  Step-IsLive {s} (answered clock i seg t outs e f) v = answered-IsLive s v clock i e f
  Step-IsLive {s} (gets n bytes t e) v = gets-IsLive s v n e

  -- Every run keeps a connection live.
  pub Reach-IsLive :
      {s t : System}
      → Reach client_node server_node client_port server_port s t
      → IsLive s
      → IsLive t
  Reach-IsLive here v = v
  Reach-IsLive (next r st) v = Step-IsLive st (Reach-IsLive r v)
