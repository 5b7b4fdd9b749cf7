-- ===== src/Transport/Progress.antt =====
-- How a live connection goes on, where the receive buffer has room for a whole segment.
use cs.Base.{
  ℕ, zero, suc, ◌+◌, ◌-◌, ◌≤◌, ◌<◌, ◌≡◌, refl, sym, ap, subst, ◌∙◌, List, [], ◌∷◌, ◌++◌, ok, length,
  take, arith, get_elem?, some, append-nil, take_all, ◌⊎◌, inl, inr, All,
}
use cs.Wire.Layout.{Segment}
use cs.Server.Tcb.{Tcb, copied, mrt_server_recv}
use cs.Client.Buffer.{SegBuf}
use cs.Client.Buffer.Window.{FromSeq, segments, bytes_in, sent}
use cs.Transport.System.{System, answers, Step, resends, arrives, answered, gets, Reach, here, next}
use cs.Transport.Sent.{FromSeq-bytes_in, sendbuffer_timeout_lem}
use cs.Transport.Pieces.{IsSendable}
use cs.Transport.Answers.{on_data}
use cs.Transport.Invariant.{IsLive, Step-IsLive, Reach-IsLive, answered_lem}
use cs.Transport.Calls.{IsEmptied, recv_round-IsEmptied, data_received-IsAnswered, get_elem?-sent}

first_sent :
    (k : ℕ) (x : Segment) (xs : List Segment) → 0 < k → take k (x ∷ xs) ≡ x ∷ take (k - 1) xs
first_sent zero x xs h = absurd (omega arith)
first_sent (suc k) x xs h = let same : suc k - 1 ≡ k = omega arith in rw same refl

empty_or_not :
    (ns : List SegBuf) → (ns ≡ []) ⊎ ((n : SegBuf) × (rest : List SegBuf) × (ns ≡ n ∷ rest))
empty_or_not [] = inl refl
empty_or_not (n ∷ rest) = inr (n, rest, refl)

module _ (client_node server_node client_port server_port : ℕ) where
  abbrev Live : System → Type 0
  Live s = IsLive client_node server_node client_port server_port s

  abbrev Leads : System → System → Type 0
  Leads s t = Reach client_node server_node client_port server_port s t

  Leads-trans : (s t u : System) → Leads s t → Leads t u → Leads s u
  Leads-trans s t u r here = r
  Leads-trans s t u r (next {mid} q st) = next (Leads-trans s t mid r q) st

  -- The send buffer's first number, by what it holds.
  base_is :
      (s : System) (v : Live s) → v.base + bytes_in (segments s.client.buffer.chain) ≡ length s.kept
  base_is s v =
      FromSeq-bytes_in v.base s.client.buffer.next_seq s.client.buffer.chain v.window.contiguous
      ∙ v.holds.ends

  -- The server's application takes all the bytes that the server holds.
  gets_all :
      (s : System) (v : Live s)
      → (t : Tcb) × (bytes : List ℕ) × Step client_node server_node client_port server_port s
          (record s { server = t; got = s.got ++ bytes })
        × IsEmptied s.server t
  gets_all s v =
      let (t, bytes, run, e) = recv_round-IsEmptied s.server v.in_stream.fits in
      let n = s.server.used_buf_len in
      (
        t,
        bytes,
        gets n bytes t (
            subst (λ st. mrt_server_recv st s.server n ≡ ok (copied bytes t)) (sym v.server_up)
              (unfold mrt_server_recv in run)),
        e,
      )

  -- The timer resends, and the oldest segment is under way then.
  resends_head :
      (s : System) (v : Live s) (n : SegBuf) (ns : List SegBuf)
      → s.client.buffer.chain ≡ n ∷ ns
      → (chain : List SegBuf) × (more : List Segment) × Step client_node server_node client_port
          server_port s
          (record s {
            client = record s.client { buffer = record s.client.buffer { chain = chain } };
            to_server = s.to_server ++ more;
          })
        × (segments chain ≡ segments s.client.buffer.chain)
        × (get_elem? (s.to_server ++ more) (length s.to_server) ≡ some n.segment)
  resends_head s v n ns e =
      let b = s.client.buffer in
      let clock : ℕ → ℕ = λ k. 0 in
      let (chain, outs, run, same, order) = sendbuffer_timeout_lem clock v.base b v.window in
      let some_sent : 0 < b.unack = omega (arith, v.opened, ap length e) in
      let is : sent outs ≡ n.segment ∷ take (b.unack - 1) (segments ns) =
        order
        ∙ ap (λ c. take b.unack (segments c)) e
        ∙ first_sent b.unack n.segment (segments ns) some_sent in
      (
        chain,
        sent outs,
        resends clock (record b { chain = chain }) outs run,
        same,
        rw is (get_elem?-sent s.to_server n.segment (take (b.unack - 1) (segments ns))),
      )

  -- A run that ends with the client's oldest segments freed.
  record Gains (s : System) (v : Live s) (t : System) : Type 0 where
    leads : Leads s t
    kept : t.kept ≡ s.kept
    room : length t.server.recv_buf ≡ length s.server.recv_buf
    gains : (w : Live t) → v.base < w.base

  -- The oldest segment comes to a server that holds no bytes; its answer comes to the client.
  hears :
      (s : System) (v : Live s) (i : ℕ) (seg : Segment)
      → s.server.used_buf_len ≡ 0
      → 1464 ≤ length s.server.recv_buf
      → get_elem? s.to_server i ≡ some seg
      → IsSendable s.kept client_port server_port seg
      → seg.header.seq_num ≡ v.base
      → (t : System) × Gains s v t
  hears s v i seg empty room there f oldest =
      let (t, outs, run, a) =
        data_received-IsAnswered s.server seg empty room f.whole f.piece.full
          (omega (arith, f.piece.inside, f.whole, v.small)) (omega (arith, oldest, v.acked)) in
      let came : Step client_node server_node client_port server_port s
          (record s { server = t; to_client = s.to_client ++ answers outs }) =
        arrives i seg t outs there (
          on_data s.server client_node seg v.server_up v.server_peer
            (v.server_peer_port ∙ sym f.from) f.type_is
          ∙ run) in
      let mid : System = record s { server = t; to_client = s.to_client ++ answers outs } in
      let v1 = Step-IsLive client_node server_node client_port server_port came v in
      let at : get_elem? mid.to_client (length s.to_client) ≡ some a.answer =
        rw a.only (get_elem?-sent s.to_client a.answer []) in
      let clock : ℕ → ℕ = λ k. 0 in
      let (base, b, more, handled, heard) =
        answered_lem client_node server_node client_port server_port mid v1 clock
          (length s.to_client) at in
      let last : System = record mid {
        client = record mid.client { buffer = b };
        to_server = mid.to_server ++ sent more;
      } in
      let freed : v1.base < base =
        heard.gains (omega (arith, a.acks, a.past, oldest, base_is s v, base_is mid v1)) in
      (
        last,
        record {
          leads =
              next (next here came)
                (answered clock (length s.to_client) a.answer _ more at handled);
          kept = refl;
          room = a.room;
          gains = λ w. omega (
            arith,
            freed,
            base_is last w,
            base_is mid v1,
            base_is s v,
            heard.sending.holds.ends,
            FromSeq-bytes_in base b.next_seq b.chain heard.sending.window.contiguous,
          );
        },
      )

  -- A round trip: the application takes what there is, the timer resends, the oldest segment comes, and
  -- its answer comes.
  round_trip :
      (s : System) (v : Live s) (n : SegBuf) (ns : List SegBuf)
      → s.client.buffer.chain ≡ n ∷ ns
      → 1464 ≤ length s.server.recv_buf
      → (t : System) × Gains s v t
  round_trip s v n ns e room =
      let (taken, bytes, first, emptied) = gets_all s v in
      let s1 : System = record s { server = taken; got = s.got ++ bytes } in
      let v1 = Step-IsLive client_node server_node client_port server_port first v in
      let (chain, more, second, same, there) = resends_head s1 v1 n ns e in
      let s2 : System = record s1 {
        client = record s1.client { buffer = record s1.client.buffer { chain = chain } };
        to_server = s1.to_server ++ more;
      } in
      let v2 = Step-IsLive client_node server_node client_port server_port second v1 in
      let held =
        subst (λ c. All (IsSendable s.kept client_port server_port) (segments c)) e
          v.holds.sendable in
      let oldest = subst (λ c. FromSeq v.base c s.client.buffer.next_seq) e v.window.contiguous in
      let base : v2.base ≡ v.base = omega (arith, base_is s2 v2, base_is s v, ap bytes_in same) in
      let (t, g) =
        hears s2 v2 (length s1.to_server) n.segment emptied.empty
          (omega (arith, emptied.room, room)) there held.0 (oldest.0 ∙ sym base) in
      (
        t,
        record {
          leads = Leads-trans s s2 t (next (next here first) second) g.leads;
          kept = g.kept;
          room = g.room ∙ emptied.room;
          gains = λ w. omega (arith, g.gains w, base);
        },
      )

  -- Of a state whose run has delivered all.
  record Delivers (s t : System) : Type 0 where
    leads : Leads s t
    kept : t.kept ≡ s.kept
    got_all : t.got ≡ s.kept

  -- When the client holds nothing, the server has it all.
  last_call : (s : System) (v : Live s) → s.client.buffer.chain ≡ [] → (t : System) × Delivers s t
  last_call s v e =
      let (taken, bytes, first, emptied) = gets_all s v in
      let t : System = record s { server = taken; got = s.got ++ bytes } in
      let w = Step-IsLive client_node server_node client_port server_port first v in
      let all : taken.expect_seq ≡ length s.kept = omega (
        arith,
        base_is s v,
        ap (λ c. bytes_in (segments c)) e,
        v.acked,
        emptied.expects,
        w.in_stream.bounded,
      ) in
      let prefix : t.got ++ take taken.used_buf_len taken.recv_buf ≡ take taken.expect_seq s.kept =
        w.in_stream.prefix in
      (
        t,
        record {
          leads = next here first;
          kept = refl;
          got_all =
              sym (append-nil t.got)
              ∙ (subst (λ k. t.got ++ take k taken.recv_buf ≡ take taken.expect_seq s.kept)
                  emptied.empty prefix)
              ∙ ap (λ k. take k s.kept) all
              ∙ take_all s.kept;
        },
      )

  -- `m` round trips are enough for `m` bytes.
  enough_rounds :
      (m : ℕ) (s : System) (v : Live s)
      → 1464 ≤ length s.server.recv_buf
      → length s.kept ≤ v.base + m
      → (t : System) × Delivers s t
  enough_rounds zero s v room left = elim (empty_or_not s.client.buffer.chain) [
    | inl e ↦ last_call s v e
    | inr h ↦
        let (n, ns, e) = h in
        let oldest = subst (λ c. FromSeq v.base c s.client.buffer.next_seq) e v.window.contiguous in
        absurd (omega (arith, left, oldest.1.0, base_is s v, ap (λ c. bytes_in (segments c)) e))
  ]
  enough_rounds (suc m) s v room left = elim (empty_or_not s.client.buffer.chain) [
    | inl e ↦ last_call s v e
    | inr h ↦
        let (n, ns, e) = h in
        let (mid, g) = round_trip s v n ns e room in
        let w = Reach-IsLive client_node server_node client_port server_port g.leads v in
        let (t, d) =
          enough_rounds m mid w (omega (arith, g.room, room))
            (omega (arith, left, g.gains w, ap length g.kept)) in
        (
          t,
          record {
            leads = Leads-trans s mid t g.leads d.leads;
            kept = d.kept ∙ g.kept;
            got_all = d.got_all ∙ g.kept;
          },
        )
  ]

  -- After every run from a live connection, if the server's buffer has room for one segment, some
  -- further run, in which the client is given no more, ends with all that its calls have kept got
  -- by the server's application: the connection cannot get stuck, whatever the network has lost.
  pub Reach-delivers :
      {s t : System}
      → Reach client_node server_node client_port server_port s t
      → IsLive client_node server_node client_port server_port s
      → 1464 ≤ length t.server.recv_buf
      → (u : System) × Reach client_node server_node client_port server_port t u
        × (u.kept ≡ t.kept)
        × (u.got ≡ t.kept)
  Reach-delivers {s} {t} r v room =
      let live = Reach-IsLive client_node server_node client_port server_port r v in
      let (u, d) = enough_rounds (length t.kept) t live room (omega arith) in
      (u, d.leads, d.kept, d.got_all)
