-- ===== src/Overlay/Traffic/Dispatch.antt =====
-- To which neighbours waitNetwork sends a packet.
use cs.Base.{
  ℕ, zero, suc, ◌+◌, ◌≤◌, ◌≡◌, ◌≢◌, refl, ap, subst, ◌∙◌, List, [], ◌∷◌, Bool, Bool-cases, false,
  is_negative, if◌then◌else◌, ok, length, take, get_elem?, some, All, All-get_elem?, arith, inl,
  inr,
}
use cs.Wire.Layout.{Packet, encode_packet}
use cs.Wire.Frame.{frame}
use cs.Wire.Packets.RoundTrip.{Sends, sendpkt-frame}
use cs.Topology.{Site, get_nbr_num}
use cs.Overlay.Neighbors.{NbrEntry, rounds}
use cs.Overlay.Neighbors.Laws.{IsTable, Distinct}
use cs.Overlay.Traffic.{broadcast_node, goes_to, written, dispatch_from, dispatch}

-- What sendpkt writes of a packet: the header and `length` bytes of data.
abbrev pub wire : Packet → List ℕ
wire pkt = frame (take (12 + pkt.header.length) (encode_packet pkt))

-- The connections that a packet goes to, in the order of the table.
abbrev pub chosen : ℕ → List NbrEntry → List ℕ
chosen next [] = []
chosen next (e ∷ es) = let rest = chosen next es in if goes_to next e then e.conn ∷ rest else rest

abbrev pub conns_of : List NbrEntry → List ℕ
conns_of [] = []
conns_of (e ∷ es) = e.conn ∷ conns_of es

abbrev pub to_all : List ℕ → List ℕ → List (ℕ × List ℕ)
to_all bytes [] = []
to_all bytes (c ∷ cs) = (c, bytes) ∷ to_all bytes cs

dispatch_from_lem :
    (sends : ℕ → ℕ → Bool) (next : ℕ) (pkt : Packet) (i : ℕ) (es : List NbrEntry)
    → ((j : ℕ) → Sends (sends j))
    → pkt.header.length ≤ 1488
    → dispatch_from sends next pkt (length es) i es ≡ ok (to_all (wire pkt) (chosen next es))
unfolding dispatch_from written
dispatch_from_lem sends next pkt i [] all fits = refl
dispatch_from_lem sends next pkt i (e ∷ es) all fits =
    let rest = dispatch_from_lem sends next pkt (suc i) es all fits in
    let out = sendpkt-frame (sends i) pkt (all i) fits in
    elim (Bool-cases (goes_to next e)) [
      | inl goes ↦ rw (goes, out, rest)
      | inr stays ↦ rw (stays, rest)
    ]

dispatch_lem :
    (site : Site) (sends : ℕ → ℕ → Bool) (t : List NbrEntry) (next : ℕ) (pkt : Packet)
    → length t ≡ rounds (get_nbr_num site)
    → ((j : ℕ) → Sends (sends j))
    → pkt.header.length ≤ 1488
    → dispatch site sends t next pkt ≡ ok (to_all (wire pkt) (chosen next t))
unfolding dispatch
dispatch_lem site sends t next pkt size all fits =
    rw (← size) (dispatch_from_lem sends next pkt 0 t all fits)

chosen_other :
    (node : ℕ) (es : List NbrEntry)
    → node ≢ broadcast_node
    → All (λ f. node ≢ f.node) es
    → chosen node es ≡ []
unfolding goes_to
chosen_other node [] one h = refl
chosen_other node (e ∷ es) one h = ground (arith, h.0, chosen_other node es one h.1)

chosen_first :
    (f : NbrEntry) (fs : List NbrEntry)
    → Distinct (f ∷ fs)
    → f.node ≢ broadcast_node
    → is_negative f.conn ≡ false
    → chosen f.node (f ∷ fs) ≡ f.conn ∷ []
unfolding goes_to
chosen_first f fs d one up = ground (arith, one, up, chosen_other f.node fs one d.0)

chosen_one :
    (t : List NbrEntry) (i : ℕ) (e : NbrEntry)
    → get_elem? t i ≡ some e
    → Distinct t
    → e.node ≢ broadcast_node
    → is_negative e.conn ≡ false
    → chosen e.node t ≡ e.conn ∷ []
unfolding goes_to
chosen_one [] i e at d one up = cc
chosen_one (f ∷ fs) zero e at d one up =
    let same : f ≡ e = cc in
    subst
      (λ g.
        g.node ≢ broadcast_node → is_negative g.conn ≡ false → chosen g.node (f ∷ fs) ≡ g.conn ∷ [])
      same (chosen_first f fs d) one up
chosen_one (f ∷ fs) (suc i) e at d one up =
    let other = All-get_elem? (λ g. f.node ≢ g.node) fs i d.0 at in
    ground (arith, other, chosen_one fs i e at d.1 one up)

chosen_broadcast :
    (t : List NbrEntry)
    → All (λ e. is_negative e.conn ≡ false) t
    → chosen broadcast_node t ≡ conns_of t
unfolding goes_to
chosen_broadcast [] h = refl
chosen_broadcast (e ∷ es) h = ground (arith, h.0, chosen_broadcast es h.1)

-- When the calls of `send` succeed and the header's length is within the array, waitNetwork writes a
-- packet for a neighbour that is connected to the neighbour's connection and to no other, and a
-- broadcast, if all neighbours are connected, once to each connection.
pub dispatch_one :
    (site : Site) (sends : ℕ → ℕ → Bool) (t : List NbrEntry) (i : ℕ) (e : NbrEntry) (pkt : Packet)
    → IsTable site t
    → ((j : ℕ) → Sends (sends j))
    → pkt.header.length ≤ 1488
    → get_elem? t i ≡ some e
    → e.node ≢ broadcast_node
    → All (λ f. is_negative f.conn ≡ false) t
    → (dispatch site sends t e.node pkt ≡ ok ((e.conn, wire pkt) ∷ []))
      × (dispatch site sends t broadcast_node pkt ≡ ok (to_all (wire pkt) (conns_of t)))
dispatch_one site sends t i e pkt v all fits at one up =
    let mine =
      chosen_one t i e at v.distinct one
        (All-get_elem? (λ f. is_negative f.conn ≡ false) t i up at) in
    (
      dispatch_lem site sends t e.node pkt v.size all fits
          ∙ ap (λ cs. ok (to_all (wire pkt) cs)) mine,
      dispatch_lem site sends t broadcast_node pkt v.size all fits
          ∙ ap (λ cs. ok (to_all (wire pkt) cs)) (chosen_broadcast t up),
    )
