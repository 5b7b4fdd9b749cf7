-- ===== src/Client/Buffer/Window.antt =====
-- The send buffer's invariant: contiguous sequence numbers, and a window of sent segments.
use cs.Base.{
  ℕ, zero, suc, ◌+◌, ◌-◌, ◌≤◌, ◌<◌, ◌≡◌, refl, sym, ap, ◌∙◌, inl, inr, List, [], ◌∷◌, ◌++◌, Bool,
  true, false, ◌==◌, ltb, u32, length, take, drop, ok, arith, Bool-cases, min, length-append,
  take-nil, drop_all, length-drop,
}
use cs.Wire.Layout.{Segment}
use cs.Client.Buffer.{
  SegBuf, at, SendBuffer, Output, send, start_timer, numbered, or_new, append_node, append_segment,
  send_rest, position, sending_from, sendbuffer_sending,
}

-- The nodes carry the sequence numbers from `s` up to `e`, without a gap.
abbrev pub FromSeq : ℕ → List SegBuf → ℕ → Type 0
FromSeq s [] e = s ≡ e
FromSeq s (n ∷ ns) e =
    (n.segment.header.seq_num ≡ s)
    × ((0 < n.segment.header.length) × FromSeq (s + n.segment.header.length) ns e)

abbrev pub nonempty : List SegBuf → Bool
nonempty [] = false
nonempty (n ∷ ns) = true

-- A buffer whose oldest byte that is not acknowledged is number `s`: the nodes follow each other,
-- the first `unack` of them, ten at most, are sent, and sendBufunSent is the node behind them.
pub record IsWindow (s : ℕ) (b : SendBuffer) : Type 0 where
  pub contiguous : FromSeq s b.chain b.next_seq
  pub tail : b.tail_set ≡ nonempty b.chain
  pub narrow : b.unack ≤ 10
  pub held : b.unack ≤ length b.chain
  pub unsent : b.unsent ≡ position b.unack (length b.chain)

FromSeq-append :
    (s : ℕ) (ns : List SegBuf) (m : SegBuf) (e : ℕ)
    → FromSeq s ns e
    → m.segment.header.seq_num ≡ e
    → 0 < m.segment.header.length
    → FromSeq s (ns ++ m ∷ []) (e + m.segment.header.length)
FromSeq-append s [] m e h k l = (k ∙ sym h, (l, ap (λ x. x + m.segment.header.length) h))
FromSeq-append s (n ∷ ns) m e h k l =
    (h.0, (h.1.0, FromSeq-append (s + n.segment.header.length) ns m e h.1.1 k l))

or_new-position : (i n : ℕ) → i ≤ n → or_new (position i n) n ≡ position i (n + 1)
unfolding or_new position
or_new-position i n h = ground arith

append_node-IsWindow :
    (s : ℕ) (b : SendBuffer) (cs : List SegBuf) (node : SegBuf) (next : ℕ)
    → IsWindow s (record b { chain = cs })
    → node.segment.header.seq_num ≡ b.next_seq
    → 0 < node.segment.header.length
    → b.next_seq + node.segment.header.length ≡ next
    → (b' : SendBuffer) × (append_node b cs node next ≡ ok b')
      × IsWindow s b'
      × (b'.chain ≡ cs ++ node ∷ [])
      × (b'.next_seq ≡ next)
      × (b'.unack ≡ b.unack)
unfolding append_node
append_node-IsWindow s b [] node next w k l e = (
  record { next_seq = next; chain = node ∷ []; tail_set = true; unsent = at 0; unack = b.unack },
  refl,
  record {
    contiguous = rw (← e) (FromSeq-append s [] node b.next_seq w.contiguous k l);
    tail = refl;
    narrow = w.narrow;
    held = omega (arith, w.held);
    unsent = unfold position in ground (arith, w.held);
  },
  refl,
  refl,
  refl,
)
append_node-IsWindow s b (c ∷ cs) node next w k l e = (
  record {
    next_seq = next;
    chain = (c ∷ cs) ++ node ∷ [];
    tail_set = true;
    unsent = or_new b.unsent (length (c ∷ cs));
    unack = b.unack;
  },
  rw w.tail refl,
  record {
    contiguous = rw (← e) (FromSeq-append s (c ∷ cs) node b.next_seq w.contiguous k l);
    tail = refl;
    narrow = w.narrow;
    held = omega (arith, w.held, length-append (c ∷ cs) (node ∷ []));
    unsent =
        ap (λ p. or_new p (length (c ∷ cs))) w.unsent
        ∙ or_new-position b.unack (length (c ∷ cs)) w.held
        ∙ ap (position b.unack) (sym (length-append (c ∷ cs) (node ∷ [])));
  },
  refl,
  refl,
  refl,
)

-- Appending a segment that is not empty to a buffer that keeps the invariant, with the next
-- sequence number staying below 2 ^ 32, does not fault, keeps the invariant, adds one node, behind
-- all others, with the next sequence number, advances that by the segment's length, and keeps the
-- number of unacknowledged segments.
pub append_segment-IsWindow :
    (s : ℕ) (b : SendBuffer) (seg : Segment)
    → IsWindow s b
    → 0 < seg.header.length
    → b.next_seq + seg.header.length < 4294967296
    → (b' : SendBuffer) × (append_segment b seg ≡ ok b')
      × IsWindow s b'
      × (b'.chain ≡ b.chain ++ record { segment = numbered b.next_seq seg; sent_time = 0 } ∷ [])
      × (b'.next_seq ≡ u32 (b.next_seq + seg.header.length))
      × (b'.unack ≡ b.unack)
unfolding append_segment numbered
append_segment-IsWindow s b seg w l small =
    append_node-IsWindow s b b.chain (record { segment = numbered b.next_seq seg; sent_time = 0 })
      (u32 (b.next_seq + seg.header.length)) w refl l (omega (arith, small))

-- The same segments, at whatever times they were sent.
abbrev pub segments : List SegBuf → List Segment
segments [] = []
segments (n ∷ ns) = n.segment ∷ segments ns

-- How many bytes segments carry.
abbrev pub bytes_in : List Segment → ℕ
bytes_in [] = 0
bytes_in (seg ∷ segs) = seg.header.length + bytes_in segs

pub FromSeq-segments :
    (s e : ℕ) (ns ms : List SegBuf) → segments ns ≡ segments ms → FromSeq s ns e → FromSeq s ms e
FromSeq-segments s e [] [] same h = h
FromSeq-segments s e [] (m ∷ ms) same h = cc
FromSeq-segments s e (n ∷ ns) [] same h = cc
FromSeq-segments s e (n ∷ ns) (m ∷ ms) same h =
    let head : n.segment ≡ m.segment = cc in
    let rest : segments ns ≡ segments ms = cc in
    rw (← head) (h.0, (h.1.0, FromSeq-segments (s + n.segment.header.length) e ns ms rest h.1.1))

-- The segments among the calls made.
abbrev pub sent : List Output → List Segment
sent [] = []
sent (send seg ∷ outs) = seg ∷ sent outs
sent (start_timer ∷ outs) = sent outs

send_rest_lem :
    (clock : ℕ → ℕ) (k unack : ℕ) (ns : List SegBuf)
    → unack ≤ 10
    → let r = send_rest clock k unack ns in
      (segments r.1.0 ≡ segments ns)
      × ((length r.1.0 ≡ length ns)
          × ((r.1.1 ≡ min 10 (unack + length ns)) × (sent r.0 ≡ segments (take (10 - unack) ns))))
unfolding send_rest
send_rest_lem clock k unack [] h =
    (refl, (refl, (omega arith, ap segments (sym (take-nil (10 - unack))))))
send_rest_lem clock k unack (n ∷ ns) h = elim (Bool-cases (ltb unack 10)) [
  | inl open_window ↦
      let below : unack < 10 = ground arith in
      let r = send_rest_lem clock (suc k) (unack + 1) ns (omega arith) in
      let unary : 10 - unack ≡ suc (10 - (unack + 1)) = omega arith in
      rw (open_window, unary)
        (
          ap (λ t. n.segment ∷ t) r.0,
          (
            ap suc r.1.0,
            (
              omega (arith, r.1.1.0),
              elim (Bool-cases (unack == 0)) [
                | inl e ↦ rw e (ap (λ t. n.segment ∷ t) r.1.1.1)
                | inr e ↦ rw e (ap (λ t. n.segment ∷ t) r.1.1.1)
              ],
            ),
          ),
        )
  | inr full ↦
      let ten : unack ≡ 10 = ground arith in
      let none_left : 10 - unack ≡ 0 = omega arith in
      rw (full, none_left) (refl, (refl, (omega arith, refl)))
]

segments-append : (xs ys : List SegBuf) → segments (xs ++ ys) ≡ segments xs ++ segments ys
segments-append [] ys = refl
segments-append (x ∷ xs) ys = ap (λ t. x.segment ∷ t) (segments-append xs ys)

-- Replacing the end of a chain by nodes with the same segments.
segments-take :
    (i : ℕ) (ns ms : List SegBuf)
    → segments ms ≡ segments (drop i ns)
    → segments (take i ns ++ ms) ≡ segments ns
segments-take zero ns ms h = h
segments-take (suc i) [] ms h = h
segments-take (suc i) (n ∷ ns) ms h = ap (λ t. n.segment ∷ t) (segments-take i ns ms h)

pub length-segments : (ns : List SegBuf) → length (segments ns) ≡ length ns
length-segments [] = refl
length-segments (n ∷ ns) = ap suc (length-segments ns)

pub nonempty-length : (xs ys : List SegBuf) → length xs ≡ length ys → nonempty xs ≡ nonempty ys
nonempty-length [] [] h = refl
nonempty-length [] (y ∷ ys) h = absurd (omega arith)
nonempty-length (x ∷ xs) [] h = absurd (omega arith)
nonempty-length (x ∷ xs) (y ∷ ys) h = refl

sending_more :
    (s : ℕ) (clock : ℕ → ℕ) (b : SendBuffer)
    → IsWindow s b
    → b.unack < length b.chain
    → (b' : SendBuffer) × (outs : List Output) × (sending_from clock b b.unsent ≡ ok (b', outs))
      × IsWindow s b'
      × (b'.unack ≡ min 10 (length b.chain))
      × (segments b'.chain ≡ segments b.chain)
      × (sent outs ≡ segments (take (10 - b.unack) (drop b.unack b.chain)))
sending_more s clock b w h =
    let rest = drop b.unack b.chain in
    let r = send_rest clock 0 b.unack rest in
    let lem = send_rest_lem clock 0 b.unack rest w.narrow in
    let chain = take b.unack b.chain ++ r.1.0 in
    let same : segments chain ≡ segments b.chain = segments-take b.unack b.chain r.1.0 lem.0 in
    let size : length chain ≡ length b.chain =
      omega (arith, length-segments chain, length-segments b.chain, ap length same) in
    let count : r.1.1 ≡ min 10 (length b.chain) =
      omega (arith, lem.1.1.0, length-drop b.unack b.chain, h) in
    let start : b.unsent ≡ at b.unack = w.unsent ∙ unfold position in ground (arith, h) in
    let total : b.unack + (r.1.1 - b.unack) ≡ r.1.1 = omega (arith, count, w.narrow, h) in
    (
      record b {
        chain = chain;
        unsent = position (b.unack + (r.1.1 - b.unack)) (length b.chain);
        unack = r.1.1;
      },
      r.0,
      rw start (unfold sending_from in refl),
      record {
        contiguous = FromSeq-segments s b.next_seq b.chain chain (sym same) w.contiguous;
        tail = w.tail ∙ nonempty-length b.chain chain (sym size);
        narrow = omega (arith, count);
        held = omega (arith, count, size);
        unsent = rw (total, size) refl;
      },
      count,
      same,
      lem.1.1.1,
    )

-- Sending from a buffer that keeps the invariant does not fault and keeps it; it changes no node's
-- segment, and sends, in order, the segments that are not sent yet, until ten are unacknowledged
-- or none is left.
pub sendbuffer_sending-IsWindow :
    (s : ℕ) (clock : ℕ → ℕ) (b : SendBuffer)
    → IsWindow s b
    → (b' : SendBuffer) × (outs : List Output) × (sendbuffer_sending clock b ≡ ok (b', outs))
      × IsWindow s b'
      × (b'.unack ≡ min 10 (length b.chain))
      × (segments b'.chain ≡ segments b.chain)
      × (sent outs ≡ segments (take (10 - b.unack) (drop b.unack b.chain)))
sendbuffer_sending-IsWindow s clock b w = elim (Bool-cases (ltb b.unack (length b.chain))) [
  | inl more ↦ unfold sendbuffer_sending in sending_more s clock b w (ground arith)
  | inr all ↦
      let done : b.unack ≡ length b.chain = ground (arith, w.held) in
      let no_rest : drop b.unack b.chain ≡ [] = rw done (drop_all b.chain) in
      (
        b,
        [],
        unfold sendbuffer_sending in rw (w.unsent) (unfold position sending_from in rw all refl),
        w,
        omega (arith, done, w.narrow),
        refl,
        rw no_rest (ap segments (sym (take-nil (10 - b.unack)))),
      )
]
