-- ===== src/Client/Sockets/Disconnect.antt =====
-- How mrt_client_disconnect ends.
use cs.Base.{
  ℕ, zero, suc, ◌+◌, ◌≤◌, ◌≡◌, ◌⊎◌, inl, inr, refl, sym, ap, subst, List, [], ◌∷◌, false, ◌&&◌,
  ◌==◌, if-both, minus_one, set, length, some, Run, ok, arith,
}
use cs.Wire.Layout.{Segment, fin, finack, control_segment}
use cs.Client.Buffer.{Output, closed, connected, finwait, sendbuffer_destroy}
use cs.Client.Handler.{ClientTcb, on_segment, seghandler_rounds}
use cs.Client.Sockets.{
  Sockets, live, reset, is_closed, fin_rounds, disconnect_from, write_back, mrt_client_disconnect,
}

-- A block that is in CLIENT_FINWAIT or closed is changed by segments in its state alone.
abbrev Ends : ClientTcb → Run (ClientTcb × List Output) → Type 0
Ends t r = (r ≡ ok (t, [])) ⊎ (r ≡ ok (record t { state = closed }, []))

finwait_round :
    (clock : ℕ → ℕ) (t : ClientTcb) (src : ℕ) (seg : Segment)
    → t.state ≡ finwait
    → Ends t (on_segment clock t.state t src seg)
unfolding on_segment
finwait_round clock t src seg w =
    subst (λ s. Ends t (on_segment clock s t src seg)) (sym w)
      (if-both (Ends t)
        ((seg.header.type == finack && t.svr_port == src) && t.svr_port == seg.header.src_port)
        (ok (record t { state = closed }, [])) (ok (t, [])) (inr refl) (inl refl))

closed_round :
    (clock : ℕ → ℕ) (t : ClientTcb) (src : ℕ) (seg : Segment)
    → t.state ≡ closed
    → on_segment clock t.state t src seg ≡ ok (t, [])
unfolding on_segment
closed_round clock t src seg c = subst (λ s. on_segment clock s t src seg ≡ ok (t, [])) (sym c) refl

closed_rounds :
    (clock : ℕ → ℕ → ℕ) (k : ℕ) (t : ClientTcb) (segs : List (ℕ × Segment))
    → t.state ≡ closed
    → seghandler_rounds clock k t segs ≡ ok t
unfolding seghandler_rounds
closed_rounds clock k t [] c = refl
closed_rounds clock k t ((src, seg) ∷ rest) c =
    rw (closed_round (clock k) t src seg c) (closed_rounds clock (suc k) t rest c)

finwait_rounds :
    (clock : ℕ → ℕ → ℕ) (k : ℕ) (t : ClientTcb) (segs : List (ℕ × Segment))
    → t.state ≡ finwait
    → (seghandler_rounds clock k t segs ≡ ok t)
      ⊎ (seghandler_rounds clock k t segs ≡ ok (record t { state = closed }))
unfolding seghandler_rounds
finwait_rounds clock k t [] w = inl refl
finwait_rounds clock k t ((src, seg) ∷ rest) w = elim (finwait_round (clock k) t src seg w) [
  | inl stays ↦ rw stays (finwait_rounds clock (suc k) t rest w)
  | inr ends ↦ inr (rw ends (closed_rounds clock (suc k) (record t { state = closed }) rest refl))
]

-- What the loop of mrt_client_disconnect returns after `n` rounds at most.
abbrev Finished : ClientTcb → ℕ → ℕ × (ClientTcb × List (ℕ × Segment)) → Type 0
Finished t most (value, (u, sent)) =
    ((value ≡ 1) × (u ≡ reset (record t { state = closed })) × (length sent ≤ most))
    ⊎ ((value ≡ minus_one) × (u ≡ record t { state = closed }) × (length sent ≡ most))

fin_rounds_lem :
    (clock : ℕ → ℕ → ℕ) (segs : ℕ → List (ℕ × Segment)) (seg : Segment) (n i : ℕ) (t : ClientTcb)
    (sent : List (ℕ × Segment)) (most : ℕ)
    → t.state ≡ finwait
    → n + length sent ≡ most
    → (r : ℕ × (ClientTcb × List (ℕ × Segment))) × (fin_rounds clock segs seg n i t sent ≡ ok r)
      × Finished t most r
unfolding fin_rounds is_closed
fin_rounds_lem clock segs seg zero i t sent most w e =
    ((minus_one, (record t { state = closed }, sent)), refl, inr (refl, refl, omega (arith, e)))
fin_rounds_lem clock segs seg (suc n) i t sent most w e =
    let (r, run, done) =
      fin_rounds_lem clock segs seg n (suc i) t ((t.svr_node, seg) ∷ sent) most w
        (omega (arith, e)) in
    let waits : is_closed t.state ≡ false = subst (λ s. is_closed s ≡ false) (sym w) refl in
    elim (finwait_rounds clock 0 t (segs i) w) [
      | inl stays ↦ (r, rw (stays, waits) run, done)
      | inr ends ↦ (
        (1, (reset (record t { state = closed }), sent)),
        rw ends refl,
        inl (refl, refl, omega (arith, e)),
      )
    ]

-- mrt_client_disconnect of a connected block ends after six FINs at most, whatever segments come, without
-- a fault, with the block closed: it returns 1 with an empty buffer if it was closed by a segment, or
-- -1 after six FINs, with the buffer as it was.
pub mrt_client_disconnect_lem :
    (clock : ℕ → ℕ → ℕ) (segs : ℕ → List (ℕ × Segment)) (fd port : ℕ) (table : Sockets)
    (t : ClientTcb)
    → t.state ≡ connected
    → (value : ℕ) × (u : ClientTcb) × (sent : List (ℕ × Segment)) × (mrt_client_disconnect clock
          segs fd table
          (some (live port t))
        ≡ ok (value, (set table fd (live port u), sent)))
      × (u.state ≡ closed)
      × (((value ≡ 1)
            × (length sent ≤ 6)
            × (u.buffer.chain ≡ [])
            × (u.buffer.unack ≡ 0)
            × (u.buffer.next_seq ≡ 0))
          ⊎ ((value ≡ minus_one) × (length sent ≡ 6) × (u.buffer ≡ t.buffer)))
unfolding mrt_client_disconnect disconnect_from write_back reset sendbuffer_destroy
mrt_client_disconnect_lem clock segs fd port table t up =
    let waiting : ClientTcb = record t { state = finwait } in
    let seg = control_segment fin port t.svr_port 0 in
    let ((value, (u, sent)), run, done) =
      fin_rounds_lem clock segs seg 5 0 waiting ((t.svr_node, seg) ∷ []) 6 refl (omega arith) in
    let called : disconnect_from clock segs t.state port t ≡ ok (value, (u, sent)) =
      subst (λ s. disconnect_from clock segs s port t ≡ ok (value, (u, sent))) (sym up) run in
    (
      value,
      u,
      sent,
      ap (write_back fd port table) called,
      elim done [ inl (v, e, l) ↦ ap (λ b. b.state) e | inr (v, e, l) ↦ ap (λ b. b.state) e ],
      elim done [
        | inl (v, e, l) ↦ inl (
          v,
          l,
          ap (λ b. b.buffer.chain) e,
          ap (λ b. b.buffer.unack) e,
          ap (λ b. b.buffer.next_seq) e,
        )
        | inr (v, e, l) ↦ inr (v, l, ap (λ b. b.buffer) e)
      ],
    )
