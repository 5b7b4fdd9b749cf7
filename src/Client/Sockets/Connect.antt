-- ===== src/Client/Sockets/Connect.antt =====
-- How mrt_client_connect ends.
use cs.Base.{
  ℕ, suc, ◌≡◌, ◌⊎◌, inl, inr, refl, sym, ap, subst, ◌∙◌, List, [], ◌∷◌, false, ◌&&◌, ◌==◌,
  if◌then◌else◌, if-both, minus_one, set, some, Run, ok, fault, and_then,
}
use cs.Wire.Layout.{Segment, syn, synack, dataack, control_segment}
use cs.Server.Handler.Machine.{IfOk}
use cs.Client.Buffer.{
  SegBuf, Output, ClientState, closed, synsent, connected, sendbuffer_recv_ack, sendbuffer_sending,
}
use cs.Client.Handler.{ClientTcb, print_head, take_ack, reaches_head, on_segment, seghandler_rounds}
use cs.Client.Sockets.{
  Sockets, live, after_wait, dialling, connect_from, is_closed, disconnect_from, write_back,
  mrt_client_connect, mrt_client_close,
}

-- Going on with a run.
IfOk-and_then {ℓ κ} :
    {A : Type ℓ} {B : Type κ} (P : A → Type 0) (Q : B → Type 0) (r : Run A) (f : A → Run B)
    → IfOk P r
    → ((a : A) → P a → IfOk Q (f a))
    → IfOk Q (and_then r f)
IfOk-and_then P Q (ok a) f h k = k a h
IfOk-and_then P Q fault f h k = tt

-- A block that is connecting, or connected.
abbrev IsTrying : ClientTcb → Type 0
IsTrying t = (t.state ≡ synsent) ⊎ (t.state ≡ connected)

-- A run that leaves a state as it was, whatever it does to the buffer.
abbrev Stays : ClientTcb → Run (ClientTcb × List Output) → Type 0
Stays t r = IfOk (λ q. q.0.state ≡ t.state) r

and_then-Stays {ℓ} :
    {A : Type ℓ} (t : ClientTcb) (r : Run A) (f : A → Run (ClientTcb × List Output))
    → ((a : A) → Stays t (f a))
    → Stays t (and_then r f)
and_then-Stays t (ok a) f h = h a
and_then-Stays t fault f h = tt

take_ack-Stays : (clock : ℕ → ℕ) (t : ClientTcb) (ack : ℕ) → Stays t (take_ack clock t ack)
unfolding take_ack
take_ack-Stays clock t ack =
    and_then-Stays t (sendbuffer_recv_ack t.buffer ack) _
      (λ b. and_then-Stays t (sendbuffer_sending clock b) _ (λ r. refl))

print_head-Stays : (ns : List SegBuf) (t : ClientTcb) → Stays t (print_head ns t)
unfolding print_head
print_head-Stays [] t = tt
print_head-Stays (n ∷ ns) t = refl

connected-Stays :
    (clock : ℕ → ℕ) (t : ClientTcb) (src : ℕ) (seg : Segment)
    → Stays t (on_segment clock connected t src seg)
unfolding on_segment
connected-Stays clock t src seg =
    let ack = seg.header.ack_num in
    if-both (Stays t)
      ((t.svr_node == src && t.svr_port == seg.header.src_port) && seg.header.type == dataack)
      (if reaches_head t.buffer.chain ack then take_ack clock t ack else ok (t, []))
      (print_head t.buffer.chain t)
      (if-both (Stays t) (reaches_head t.buffer.chain ack) (take_ack clock t ack) (ok (t, []))
        (take_ack-Stays clock t ack) refl)
      (print_head-Stays t.buffer.chain t)

synsent-IsTrying :
    (clock : ℕ → ℕ) (t : ClientTcb) (src : ℕ) (seg : Segment)
    → t.state ≡ synsent
    → IfOk (λ q. IsTrying q.0) (on_segment clock synsent t src seg)
unfolding on_segment
synsent-IsTrying clock t src seg s =
    if-both (IfOk (λ q. IsTrying q.0))
      ((seg.header.type == synack && t.svr_port == seg.header.src_port) && t.svr_node == src)
      (ok (record t { state = connected }, [])) (ok (t, [])) (inr refl) (inl s)

on_segment-IsTrying :
    (clock : ℕ → ℕ) (t : ClientTcb) (src : ℕ) (seg : Segment)
    → IsTrying t
    → IfOk (λ q. IsTrying q.0) (on_segment clock t.state t src seg)
on_segment-IsTrying clock t src seg (inl s) =
    subst (λ st. IfOk (λ q. IsTrying q.0) (on_segment clock st t src seg)) (sym s)
      (synsent-IsTrying clock t src seg s)
on_segment-IsTrying clock t src seg (inr c) =
    subst (λ st. IfOk (λ q. IsTrying q.0) (on_segment clock st t src seg)) (sym c)
      (IfOk-mono (λ q e. inr (e ∙ c)) (on_segment clock connected t src seg)
        (connected-Stays clock t src seg))
  where
    IfOk-mono :
        {P Q : ClientTcb × List Output → Type 0}
        → ((q : ClientTcb × List Output) → P q → Q q)
        → (r : Run (ClientTcb × List Output)) → IfOk P r
        → IfOk Q r
    IfOk-mono f (ok q) h = f q h
    IfOk-mono f fault h = tt

seghandler_rounds-IsTrying :
    (clock : ℕ → ℕ → ℕ) (k : ℕ) (t : ClientTcb) (segs : List (ℕ × Segment))
    → IsTrying t
    → IfOk IsTrying (seghandler_rounds clock k t segs)
unfolding seghandler_rounds
seghandler_rounds-IsTrying clock k t [] h = h
seghandler_rounds-IsTrying clock k t ((src, seg) ∷ rest) h =
    IfOk-and_then (λ q. IsTrying q.0) IsTrying (on_segment (clock k) t.state t src seg) _
      (on_segment-IsTrying (clock k) t src seg h)
      (λ q i. seghandler_rounds-IsTrying clock (suc k) q.0 rest i)

still_open : (u : ClientTcb) → u.state ≡ synsent → is_closed u.state ≡ false
unfolding is_closed
still_open u waits = subst (λ s. is_closed s ≡ false) (sym waits) refl

-- mrt_client_connect of a closed block, when seghandler handles what comes in its only wait without a
-- fault, either returns 1 after one SYN, with the block connected, or returns -1 after a second SYN and
-- leaves the block in CLIENT_SYNSENT; then mrt_client_connect, mrt_client_disconnect and
-- mrt_client_close all return -1 for it and change nothing.
pub mrt_client_connect_lem :
    (clock : ℕ → ℕ → ℕ) (segs : List (ℕ × Segment)) (fd port node server_port : ℕ) (table : Sockets)
    (t : ClientTcb) {u : ClientTcb}
    → t.state ≡ closed
    → seghandler_rounds clock 0 (dialling t node server_port) segs ≡ ok u
    → let seg = control_segment syn port server_port 0 in
      (value : ℕ) × (sent : List (ℕ × Segment)) × (mrt_client_connect clock segs fd node server_port
          table
          (some (live port t))
        ≡ ok (value, (set table fd (live port u), sent)))
      × (((value ≡ 1) × (u.state ≡ connected) × (sent ≡ (node, seg) ∷ []))
          ⊎ ((value ≡ minus_one)
              × (u.state ≡ synsent)
              × (sent ≡ (node, seg) ∷ (u.svr_node, seg) ∷ [])
              × (connect_from clock segs u.state port u node server_port ≡ ok (minus_one, (u, [])))
              × (disconnect_from clock (λ i. segs) u.state port u ≡ ok (minus_one, (u, [])))
              × (mrt_client_close fd table (some (live port u)) ≡ ok (minus_one, table))))
unfolding mrt_client_connect connect_from disconnect_from mrt_client_close write_back after_wait
    dialling
mrt_client_connect_lem clock segs fd port node server_port table t {u} c run =
    let seg = control_segment syn port server_port 0 in
    let trying : IsTrying u =
      subst (IfOk IsTrying) run
        (seghandler_rounds-IsTrying clock 0 (dialling t node server_port) segs (inl refl)) in
    let called : connect_from clock segs t.state port t node server_port
        ≡ ok (after_wait u.state u node seg) =
      subst
        (λ s.
          connect_from clock segs s port t node server_port ≡ ok (after_wait u.state u node seg))
        (sym c) (rw run refl) in
    let reached : (s : ClientState)
        → u.state ≡ s
        → write_back fd port table (connect_from clock segs t.state port t node server_port)
          ≡ write_back fd port table (ok (after_wait s u node seg)) =
      λ s is. ap (write_back fd port table) (
        subst
          (λ s.
            connect_from clock segs t.state port t node server_port ≡ ok (after_wait s u node seg))
          is called) in
    elim trying [
      | inr up ↦ (1, (node, seg) ∷ [], reached connected up, inl (refl, up, refl))
      | inl waits ↦ (
        minus_one,
        (node, seg) ∷ (u.svr_node, seg) ∷ [],
        reached synsent waits,
        inr (
          refl,
          waits,
          refl,
          subst (λ s. connect_from clock segs s port u node server_port ≡ ok (minus_one, (u, [])))
              (sym waits) refl,
          subst (λ s. disconnect_from clock (λ i. segs) s port u ≡ ok (minus_one, (u, [])))
              (sym waits) refl,
          rw (still_open u waits) refl,
        ),
      )
    ]
