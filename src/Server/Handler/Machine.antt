-- ===== src/Server/Handler/Machine.antt =====
-- The state machine of a server's connection, and where its segments go.
use cs.Base.{
  ℕ, ◌+◌, ◌≡◌, refl, subst, inl, inr, List, [], ◌∷◌, Bool, true, false, ◌&&◌, ◌==◌, ltb, leb, u32,
  if◌then◌else◌, if-both, All, arith, Bool-cases, length,
}
use cs.Wire.Layout.{Segment, syn, fin, data_segment, control_segment}
use cs.Server.Tcb.{
  State, closed, listening, connected, closewait, Tcb, Run, ok, fault, save_to_buffer,
  receive_buf_size,
}
use cs.Server.Handler.{
  Output, send, start_closewait, segment_recv, acknowledge, after_save, data_received, on_connected,
  on_listening, on_segment,
}

-- Of a run: `P` of its value, if it has one.
abbrev pub IfOk {ℓ κ} : {A : Type ℓ} → (A → Type κ) → Run A → Type κ
IfOk P (ok a) = P a
IfOk P fault = Unit

-- The state in which a segment from the node `src` leaves a block.
unfoldable pub next_state : State → Tcb → ℕ → Segment → State
next_state closed t src seg = closed
next_state closewait t src seg = closewait
next_state listening t src seg = connected
next_state connected t src seg =
    if t.client_port == seg.header.src_port && t.client_node == src
    then if seg.header.type == fin then closewait else connected
    else connected

-- Segments sent carry the ports of the connection, and go to its client.
abbrev pub IsAddressed : Tcb → Output → Type 0
IsAddressed t (send node seg) =
    (node ≡ t.client_node)
    × ((seg.header.src_port ≡ t.svr_port) × (seg.header.dest_port ≡ t.client_port))
IsAddressed t start_closewait = Unit

-- What a step of a block in the state `s` leaves.
pub record Moves (s : State) (t t' : Tcb) (out : List Output) : Type 0 where
  pub state : t'.state ≡ s
  pub svr_port : t'.svr_port ≡ t.svr_port
  pub addressed : All (IsAddressed t') out

-- The same step, where the client is known.
abbrev pub Stays : State → Tcb → Tcb × List Output → Type 0
Stays s t r = Moves s t r.0 r.1

segment_recv-Moves : (t : Tcb) (seg : Segment) → Stays t.state t (segment_recv t seg)
unfolding control_segment
segment_recv-Moves t seg = elim (Bool-cases (seg.header.type == syn)) [
  | inl e ↦
      unfold segment_recv in
      rw (e, Stays)
        (record { state = refl; svr_port = refl; addressed = ((refl, (refl, refl)), tt) })
  | inr e ↦ elim (Bool-cases (seg.header.type == fin)) [
    | inl f ↦
        unfold segment_recv in
        rw (e, f, Stays)
          (record { state = refl; svr_port = refl; addressed = ((refl, (refl, refl)), tt) })
    | inr f ↦
        unfold segment_recv in
        rw (e, f, Stays) (record { state = refl; svr_port = refl; addressed = tt })
  ]
]

-- Saving leaves the state and the port.
abbrev Saved : Tcb → Bool × Tcb → Type 0
Saved t r = (r.1.state ≡ t.state) × (r.1.svr_port ≡ t.svr_port)

save_to_buffer-Saved : (t : Tcb) (seg : Segment) → IfOk (Saved t) (save_to_buffer t seg)
save_to_buffer-Saved t seg =
    let n = seg.header.length in
    elim (Bool-cases (ltb (u32 (n + t.used_buf_len)) receive_buf_size)) [
      | inr full ↦ unfold save_to_buffer in rw (full, IfOk) (refl, refl)
      | inl room ↦ elim (Bool-cases (leb n 1464 && leb (t.used_buf_len + n) (length t.recv_buf))) [
        | inr past ↦ unfold save_to_buffer in rw (room, past, IfOk) tt
        | inl inside ↦ unfold save_to_buffer in rw (room, inside, IfOk) (refl, refl)
      ]
    ]

acknowledge-Moves :
    (t t' : Tcb) → t'.state ≡ t.state → t'.svr_port ≡ t.svr_port → Stays t.state t (acknowledge t')
unfolding acknowledge control_segment
acknowledge-Moves t t' s p = record {
  state = s;
  svr_port = p;
  addressed = ((refl, (refl, refl)), tt);
}

after_save-Moves :
    (t : Tcb) (r : Run (Bool × Tcb)) → IfOk (Saved t) r → IfOk (Stays t.state t) (after_save r)
unfolding after_save
after_save-Moves t fault h = tt
after_save-Moves t (ok (true, t')) h = acknowledge-Moves t t' h.0 h.1
after_save-Moves t (ok (false, t')) h = record { state = h.0; svr_port = h.1; addressed = tt }

data_received-Moves : (t : Tcb) (seg : Segment) → IfOk (Stays t.state t) (data_received t seg)
data_received-Moves t seg = elim (Bool-cases (seg.header.seq_num == t.expect_seq)) [
  | inl e ↦
      unfold data_received in
      rw (e, IfOk) (after_save-Moves t (save_to_buffer t seg) (save_to_buffer-Saved t seg))
  | inr e ↦ unfold data_received in rw (e, IfOk) (acknowledge-Moves t t refl refl)
]

IsAddressed-state :
    (t : Tcb) (s : State) (out : List Output)
    → All (IsAddressed t) out
    → All (IsAddressed (record t { state = s })) out
IsAddressed-state t s [] h = tt
IsAddressed-state t s (send node seg ∷ out) h = (h.0, IsAddressed-state t s out h.1)
IsAddressed-state t s (start_closewait ∷ out) h = (tt, IsAddressed-state t s out h.1)

on_listening-Moves :
    (t : Tcb) (src : ℕ) (seg : Segment) → Stays connected t (on_listening t src seg)
on_listening-Moves t src seg =
    let t1 = record t { client_node = src; client_port = seg.header.src_port } in
    let m = segment_recv-Moves t1 seg in
    unfold on_listening in
    record {
      state = refl;
      svr_port = m.svr_port;
      addressed =
          IsAddressed-state (segment_recv t1 seg).0 connected (segment_recv t1 seg).1 m.addressed;
    }

-- A FIN from the client of a connected block.
finished-Moves :
    (t : Tcb) (seg : Segment)
    → Stays closewait t (
      (segment_recv (record t { state = closewait }) seg).0,
      start_closewait ∷ (segment_recv (record t { state = closewait }) seg).1,
    )
finished-Moves t seg =
    let m = segment_recv-Moves (record t { state = closewait }) seg in
    record { state = m.state; svr_port = m.svr_port; addressed = (tt, m.addressed) }

unmoved : (t : Tcb) (s : State) → t.state ≡ s → Stays s t (t, [])
unmoved t s e = record { state = e; svr_port = refl; addressed = tt }

-- A connected block that is not left, in the words of its state.
abbrev At : Tcb → State → Run (Tcb × List Output) → Type 0
At t s r = IfOk (Stays s t) r

At-state :
    (t : Tcb) (s : State) (r : Run (Tcb × List Output)) → t.state ≡ s → At t t.state r → At t s r
At-state t s r e = subst (λ x. At t x r) e

keeps_connected :
    (t : Tcb) (src : ℕ) (seg : Segment)
    → (seg.header.type == fin) ≡ false
    → next_state connected t src seg ≡ connected
unfolding next_state
keeps_connected t src seg no_fin = rw no_fin (
    if-both (λ s. s ≡ connected) (t.client_port == seg.header.src_port && t.client_node == src)
      connected connected refl refl)

closes :
    (t : Tcb) (src : ℕ) (seg : Segment)
    → (t.client_port == seg.header.src_port && t.client_node == src) ≡ true
    → (seg.header.type == fin) ≡ true
    → next_state connected t src seg ≡ closewait
unfolding next_state
closes t src seg own is_fin = rw (own, is_fin) refl

unowned :
    (t : Tcb) (src : ℕ) (seg : Segment)
    → (t.client_port == seg.header.src_port && t.client_node == src) ≡ false
    → next_state connected t src seg ≡ connected
unfolding next_state
unowned t src seg other = rw other refl

on_connected-Moves :
    (t : Tcb) (src : ℕ) (seg : Segment)
    → t.state ≡ connected
    → IfOk (Stays (next_state connected t src seg) t) (on_connected t src seg)
on_connected-Moves t src seg e =
    elim (Bool-cases (t.client_port == seg.header.src_port && t.client_node == src)) [
      | inr other ↦
          unfold on_connected in rw (other, unowned t src seg other) (unmoved t connected e)
      | inl own ↦ elim (Bool-cases (seg.header.type == syn)) [
        | inl is_syn ↦
            let no_fin : seg.header.type == fin ≡ false = ground arith in
            unfold on_connected in
            rw (own, is_syn, keeps_connected t src seg no_fin)
              (At-state t connected (ok (segment_recv t seg)) e (segment_recv-Moves t seg))
        | inr no_syn ↦ elim (Bool-cases (seg.header.type == data_segment)) [
          | inl is_data ↦
              let no_fin : seg.header.type == fin ≡ false = ground arith in
              unfold on_connected in
              rw (own, no_syn, is_data, keeps_connected t src seg no_fin)
                (At-state t connected (data_received t seg) e (data_received-Moves t seg))
          | inr no_data ↦ elim (Bool-cases (seg.header.type == fin)) [
            | inl is_fin ↦
                unfold on_connected in
                rw (own, no_syn, no_data, is_fin, closes t src seg own is_fin)
                  (finished-Moves t seg)
            | inr no_fin ↦
                unfold on_connected in
                rw (own, no_syn, no_data, no_fin, keeps_connected t src seg no_fin)
                  (unmoved t connected e)
          ]
        ]
      ]
    ]

on_state-Moves :
    (s : State) (t : Tcb) (src : ℕ) (seg : Segment)
    → t.state ≡ s
    → IfOk (Stays (next_state s t src seg) t) (on_segment s t src seg)
unfolding on_segment next_state
on_state-Moves connected t src seg e = on_connected-Moves t src seg e
on_state-Moves closed t src seg e = record { state = e; svr_port = refl; addressed = tt }
on_state-Moves listening t src seg e = on_listening-Moves t src seg
on_state-Moves closewait t src seg e = elim (Bool-cases (seg.header.type == fin)) [
  | inl is_fin ↦
      rw (is_fin, IfOk)
        (At-state t closewait (ok (segment_recv t seg)) e (segment_recv-Moves t seg))
  | inr no_fin ↦ rw (no_fin, IfOk) (unmoved t closewait e)
]

-- A segment that does not fault moves a block by the server's state machine: a listening block is
-- connected by any segment; a connected one goes to SVR_CLOSEWAIT by a FIN from its own client,
-- and stays connected otherwise; in the other states it stays. The block keeps its port, and all
-- that it sends goes to its client with the ports of the connection.
pub on_segment-Moves :
    (t : Tcb) (src : ℕ) (seg : Segment)
    → IfOk (Stays (next_state t.state t src seg) t) (on_segment t.state t src seg)
on_segment-Moves t src seg = on_state-Moves t.state t src seg refl
