-- ===== src/Stack/Journey.antt =====
-- A segment from the transport process of a node to that of another, over the nodes between them.
use cs.Base.{
  ℕ, ◌≡◌, ◌≢◌, ◌<◌, refl, ap, ◌∙◌, [], ◌∷◌, Bool, true, false, ◌==◌, some, none, arith, length,
  append-nil,
}
use cs.Wire.Layout.{Packet, SendSegmentArg, IsSegment, encode_segment, encode_segment_arg}
use cs.Wire.Frame.Cut.{cut}
use cs.Wire.Packets.{got}
use cs.Wire.Packets.RoundTrip.{Sends}
use cs.Wire.Segments.{
  mnp_sendseg, forward_segment_to_mrt, get_segment_to_send, seglost, mnp_recvseg,
}
use cs.Wire.Segments.RoundTrip.{get_segment_to_send-mnp_sendseg, mnp_recvseg-forward_segment_to_mrt}
use cs.Network.Routes.{routingtable_getnextnode}
use cs.Network.Handler.{to_overlay, to_mrt, handle, wait_transport, send_rounds}
use cs.Network.Handler.Deliver.{packet_of, handle-packet_of}
use cs.Stack.Hop.{Node, id_of, IsLinked, IsQuiet, Hop, hop}

-- Node after node, each the next hop of the one before for the node of the segment: from `n`, over its
-- next hop `m`, to `last`.
pub data Route (a : SendSegmentArg) (p : Packet) : Node → Node → Node → Type 0 where
  direct :
      (n m : Node)
      → IsLinked n m
      → IsQuiet m p
      → routingtable_getnextnode n.net.routing_table a.node ≡ id_of m
      → Route a p n m m
  via :
      (n m k last : Node)
      → IsLinked n m
      → IsQuiet m p
      → routingtable_getnextnode n.net.routing_table a.node ≡ id_of m
      → a.node ≢ id_of m
      → length m.net.segment ≡ 1488
      → Route a p m k last
      → Route a p n m last

module _ (gives : ℕ → Bool) (sends : ℕ → ℕ → ℕ → Bool) (forwards : ℕ → ℕ → Bool) where
  -- What happens to the packet that the network process of `n` gives to overlay_sendpkt for `m`: one
  -- hop, or a hop to a network process that passes it on.
  pub data Journey (p : Packet) : Node → Node → Node → Type 0 where
    last_hop : (n m : Node) → Hop gives sends forwards n m p → Journey p n m m
    passed_on :
        (n m k last : Node)
        → Hop gives sends forwards n m p
        → ((heap : ℕ → ℕ) → handle m.site heap m.net p ≡ some (m.net, to_overlay (id_of k) p ∷ []))
        → Journey p m k last
        → Journey p n m last

  next_of :
      (a : SendSegmentArg) (p : Packet) (n m last : Node)
      → Route a p n m last
      → routingtable_getnextnode n.net.routing_table a.node ≡ id_of m
  next_of a p _ _ _ (direct n m l q e) = e
  next_of a p _ _ _ (via n m k last l q e other size r) = e

  travels :
      (from : Node) (a : SendSegmentArg) (n m last : Node)
      → Sends gives
      → ((k j : ℕ) → Sends (sends k j))
      → ((k : ℕ) → Sends (forwards k))
      → IsSegment a.segment
      → Route a (packet_of from.site a) n m last
      → Journey (packet_of from.site a) n m last
  travels from a _ _ _ g s f seg (direct n m l q e) =
      last_hop n m (hop gives sends forwards g s f n m (packet_of from.site a) l q)
  travels from a _ _ _ g s f seg (via n m k last l q e other size r) =
      let p = packet_of from.site a in
      let not_mine : (a.node == id_of m) ≡ false = ground (arith, other) in
      passed_on n m k last (hop gives sends forwards g s f n m p l q)
        (λ heap.
          handle-packet_of from.site m.site heap m.net a seg size
          ∙ rw (not_mine, next_of a p m k last r) refl)
        (travels from a m k last g s f seg r)

  -- When all calls of `send` succeed, the fields fit their types, the frames do not hold "!#" and
  -- seglost does not drop the segment, a segment that a transport process gives to mnp_sendseg for
  -- the last node of a route, whose next hops the nodes' routing tables hold, comes to getsegToSend of
  -- its network process; the packet that waitTransport makes of it goes from hop to hop, each network
  -- process on the way passing it on and keeping its tables; and pkthandler of the last node gives the
  -- segment to its transport process, where mnp_recvseg has it with the first node's ID.
  pub segment_arrives :
      (from m last : Node) (a : SendSegmentArg) (rand heap : ℕ → ℕ) (k : ℕ)
      → Sends gives
      → ((k j : ℕ) → Sends (sends k j))
      → ((k : ℕ) → Sends (forwards k))
      → IsSegment a.segment
      → a.node < 4294967296
      → id_of from < 4294967296
      → cut (encode_segment_arg a) ≡ none
      → cut (encode_segment_arg (record { node = id_of from; segment = a.segment })) ≡ none
      → seglost (rand k) ≡ false
      → Route a (packet_of from.site a) from m last
      → id_of last ≡ a.node
      → length last.net.segment ≡ 1488
      → let p = packet_of from.site a in
        (get_segment_to_send (mnp_sendseg gives a.node a.segment).1 ≡ got a [])
        × (wait_transport from.site (from.net.routing_table ∷ []) (a ∷ [])
            ≡ to_overlay (id_of m) p ∷ [])
        × Journey p from m last
        × (handle last.site heap last.net p
            ≡ some (
              record last.net { segment = encode_segment a.segment },
              to_mrt (id_of from) a.segment ∷ [],
            ))
        × (mnp_recvseg rand k (forward_segment_to_mrt gives (id_of from) a.segment).1
            ≡ got (record { node = id_of from; segment = a.segment }) [])
  segment_arrives from m last a rand heap k g s f seg to_fits from_fits c1 c2 kept r own size =
      let p = packet_of from.site a in
      let given = get_segment_to_send-mnp_sendseg gives a [] g to_fits seg in
      let b : SendSegmentArg = record { node = id_of from; segment = a.segment } in
      let taken = mnp_recvseg-forward_segment_to_mrt gives rand k b [] g from_fits seg in
      let mine : (a.node == id_of last) ≡ true = ground (arith, own) in
      (
        rw (append-nil (mnp_sendseg gives a.node a.segment).1, c1) at given.1,
        unfold wait_transport send_rounds in
            ap (λ h. to_overlay h p ∷ []) (next_of a p from m last r),
        travels from a from m last g s f seg r,
        handle-packet_of from.site last.site heap last.net a seg size ∙ rw mine refl,
        rw (append-nil (forward_segment_to_mrt gives (id_of from) a.segment).1, c2, kept) at
            taken.1,
      )
