-- ===== src/Stack/Hop.antt =====
-- One packet of full length from the network process of a node to that of a neighbour, through the
-- overlay processes of both.
use cs.Base.{
  ℕ, ◌≡◌, ◌≢◌, ◌<◌, sym, ap, subst, ◌∙◌, List, [], ◌∷◌, ◌++◌, Bool, false, some, none, ok, All,
  arith, is_negative, get_elem?, take, drop, take_all, drop_all, append-nil,
}
use cs.Topology.{Site, get_my_node_id}
use cs.Wire.Layout.{Packet, IsPacket, encode_packet, encode_packet_arg, length-encode_packet}
use cs.Wire.Frame.Cut.{cut}
use cs.Wire.Packets.{got, overlay_sendpkt, overlay_recvpkt}
use cs.Wire.Packets.RoundTrip.{Sends, overlay_payload}
use cs.Network.Handler.{Net}
use cs.Overlay.Neighbors.{NbrEntry}
use cs.Overlay.Neighbors.Laws.{IsTable}
use cs.Overlay.Traffic.{broadcast_node, gone, serve, listen_rounds}
use cs.Overlay.Traffic.Dispatch.{wire}
use cs.Overlay.Traffic.Path.{IsClean, overlay_recvpkt-overlay_sendpkt}

-- A node: its overlay process's table of neighbours and what the packet of the thread that listens to
-- a neighbour holds, and its network process's tables.
pub record Node : Type 0 where
  pub site : Site
  pub nbrs : List NbrEntry
  pub held : Packet
  pub net : Net

abbrev pub id_of : Node → ℕ
id_of n = get_my_node_id n.site

-- `m` is a neighbour of `n`, whose neighbours are all connected.
pub record IsLinked (n m : Node) : Type 0 where
  pub index : ℕ
  pub entry : NbrEntry
  pub table : IsTable n.site n.nbrs
  pub there : get_elem? n.nbrs index ≡ some entry
  pub is_node : entry.node ≡ id_of m
  pub single : id_of m ≢ broadcast_node
  pub fits : id_of m < 4294967296
  pub up : All (λ f. is_negative f.conn ≡ false) n.nbrs
  pub held : IsPacket m.held

-- A packet of full length whose frames do not hold "!#", on its way to `m`.
pub record IsQuiet (m : Node) (p : Packet) : Type 0 where
  pub packet : IsPacket p
  pub full : p.header.length ≡ 1488
  pub clean : cut (encode_packet p) ≡ none
  pub clean_arg : cut (encode_packet_arg (record { next_node = id_of m; packet = p })) ≡ none

-- A packet of full length covers what was held before.
overlay_payload_full :
    (old p : Packet)
    → IsPacket old
    → IsPacket p
    → p.header.length ≡ 1488
    → overlay_payload old p ≡ p
unfolding overlay_payload
overlay_payload_full old p ho hp e =
    let front : take p.header.length p.payload ≡ p.payload =
      ap (λ n. take n p.payload) (e ∙ sym hp.payload_len) ∙ take_all p.payload in
    let back : drop p.header.length old.payload ≡ [] =
      ap (λ n. drop n old.payload) (e ∙ sym ho.payload_len) ∙ drop_all old.payload in
    ap (λ b. record p { payload = b })
      (ap (λ b. b ++ drop p.header.length old.payload) front
        ∙ ap (λ b. p.payload ++ b) back
        ∙ append-nil p.payload)

quiet-IsClean : (m : Node) (p : Packet) → IsQuiet m p → IsClean p
quiet-IsClean m p q = record {
  packet = q.packet;
  fits = omega (arith, q.full);
  clean =
      ap cut (
        ap (λ n. take n (encode_packet p)) (omega (arith, q.full, length-encode_packet p q.packet))
        ∙ take_all (encode_packet p))
      ∙ q.clean;
}

module _ (gives : ℕ → Bool) (sends : ℕ → ℕ → ℕ → Bool) (forwards : ℕ → ℕ → Bool) where
  -- `n` gives the packet to overlay_sendpkt, its overlay process writes it to one connection, that of
  -- `m` forwards it, and overlay_recvpkt has it there.
  pub record Hop (n m : Node) (p : Packet) : Type 0 where
    pub conn : ℕ
    pub bytes : List ℕ
    pub writes :
        serve n.site sends n.nbrs 2 0 (overlay_sendpkt gives (id_of m) p).1
        ≡ ok ((conn, wire p) ∷ [], gone)
    pub forwarded : listen_rounds forwards 1 0 m.held (wire p) ≡ ok (bytes ∷ [])
    pub received : overlay_recvpkt bytes ≡ got p []

  pub hop :
      Sends gives
      → ((k j : ℕ) → Sends (sends k j))
      → ((k : ℕ) → Sends (forwards k))
      → (n m : Node) (p : Packet) → IsLinked n m
      → IsQuiet m p
      → Hop n m p
  hop g s f n m p l q =
      let covered : overlay_payload m.held p ≡ p =
        overlay_payload_full m.held p l.held q.packet q.full in
      let (writes, bytes, forwarded, received) =
        overlay_recvpkt-overlay_sendpkt n.site n.nbrs l.index 0 l.entry m.held p gives sends
          forwards l.table g s f l.there (λ e. l.single (sym l.is_node ∙ e))
          (omega (arith, l.is_node, l.fits)) l.up l.held (quiet-IsClean m p q)
          (subst (λ k. cut (encode_packet_arg (record { next_node = k; packet = p })) ≡ none)
            (sym l.is_node) q.clean_arg)
          (ap (λ x. cut (encode_packet x)) covered ∙ q.clean) in
      record {
        conn = l.entry.conn;
        bytes = bytes;
        writes =
            subst
              (λ k.
                serve n.site sends n.nbrs 2 0 (overlay_sendpkt gives k p).1
                ≡ ok ((l.entry.conn, wire p) ∷ [], gone))
              l.is_node writes;
        forwarded = forwarded;
        received = received ∙ ap (λ x. got x []) covered;
      }
