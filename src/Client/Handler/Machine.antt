-- ===== src/Client/Handler/Machine.antt =====
-- The client's state machine.
use cs.Base.{ℕ, ◌≡◌, refl, sym, subst, [], true, false, ◌&&◌, ◌==◌, ok, fault, arith}
use cs.Wire.Layout.{Segment, synack, dataack}
use cs.Client.Buffer.{synsent, connected}
use cs.Client.Handler.{ClientTcb, print_head, on_segment}

-- A client that waits for its SYNACK, with an empty send buffer, is connected by one that its server
-- sends; when the same SYNACK comes again, as the answer to a SYN that was sent again, seghandler
-- reads through NULL.
on_segment_twice :
    (clock : ℕ → ℕ) (t : ClientTcb) (src : ℕ) (seg : Segment)
    → t.state ≡ synsent
    → t.buffer.chain ≡ []
    → seg.header.type ≡ synack
    → t.svr_port ≡ seg.header.src_port
    → t.svr_node ≡ src
    → let t' = record t { state = connected } in
      (on_segment clock t.state t src seg ≡ ok (t', []))
      × (on_segment clock t'.state t' src seg ≡ fault)
on_segment_twice clock t src seg waits empty is_synack port node =
    let own : ((seg.header.type == synack && t.svr_port == seg.header.src_port)
          && t.svr_node == src)
        ≡ true =
      ground arith in
    let no_ack : ((t.svr_node == src && t.svr_port == seg.header.src_port)
          && seg.header.type == dataack)
        ≡ false =
      ground arith in
    (
      subst (λ s. on_segment clock s t src seg ≡ ok (record t { state = connected }, []))
          (sym waits) (unfold on_segment in rw own refl),
      unfold on_segment in rw no_ack (unfold print_head in rw empty refl),
    )
