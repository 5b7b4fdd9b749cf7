-- ===== src/Transport/Sent.antt =====
-- Sequence numbers of the client's send buffer, against the segments that it has sent.
use cs.Base.{
  ℕ, zero, suc, ◌+◌, ◌-◌, ◌%◌, ◌≤◌, ◌<◌, ◌≡◌, refl, sym, ap, subst, ◌∙◌, inl, inr, Bool-cases, List,
  [], ◌∷◌, length, take, drop, All, arith, take-nil, ok, ltb, true,
}
use cs.Wire.Layout.{Segment}
use cs.Client.Buffer.{SegBuf, SendBuffer, Output, send, acked, resend, sendbuffer_timeout}
use cs.Client.Buffer.Window.{FromSeq, IsWindow, segments, bytes_in, sent}

-- The end of the segments that are sent, in a buffer whose first node has the number `s`.
abbrev pub boundary : ℕ → SendBuffer → ℕ
boundary s b = s + bytes_in (take b.unack (segments b.chain))

-- A segment that ends by `e`.
abbrev pub EndsBy : ℕ → Segment → Type 0
EndsBy e seg = seg.header.seq_num + seg.header.length ≤ e

pub bytes_in-take :
    (k n : ℕ) (segs : List Segment) → k ≤ n → bytes_in (take k segs) ≤ bytes_in (take n segs)
bytes_in-take zero n segs h = omega arith
bytes_in-take (suc k) zero segs h = absurd (omega arith)
bytes_in-take (suc k) (suc n) [] h = omega arith
bytes_in-take (suc k) (suc n) (seg ∷ segs) h = omega (arith, bytes_in-take k n segs (omega arith))

pub bytes_in-take-drop :
    (k n : ℕ) (segs : List Segment)
    → k ≤ n
    → bytes_in (take n segs) ≡ bytes_in (take k segs) + bytes_in (take (n - k) (drop k segs))
bytes_in-take-drop zero n segs h = let same : n - 0 ≡ n = omega arith in rw same (omega arith)
bytes_in-take-drop (suc k) zero segs h = absurd (omega arith)
bytes_in-take-drop (suc k) (suc n) [] h =
    omega (arith, ap bytes_in (take-nil {A = Segment} (suc n - suc k)))
bytes_in-take-drop (suc k) (suc n) (seg ∷ segs) h =
    let same : suc n - suc k ≡ n - k = omega arith in
    rw same (omega (arith, bytes_in-take-drop k n segs (omega arith)))

pub segments-drop : (k : ℕ) (ns : List SegBuf) → segments (drop k ns) ≡ drop k (segments ns)
segments-drop zero ns = refl
segments-drop (suc k) [] = refl
segments-drop (suc k) (n ∷ ns) = segments-drop k ns

pub segments-take : (k : ℕ) (ns : List SegBuf) → segments (take k ns) ≡ take k (segments ns)
segments-take zero ns = refl
segments-take (suc k) [] = refl
segments-take (suc k) (n ∷ ns) = ap (λ t. n.segment ∷ t) (segments-take k ns)

-- An acknowledgement that lies within the first `k` nodes frees no others.
pub acked-le :
    (s e a k : ℕ) (ns : List SegBuf)
    → FromSeq s ns e
    → a ≤ s + bytes_in (take k (segments ns))
    → acked a ns ≤ k
unfolding acked
acked-le s e a k [] f h = omega arith
acked-le s e a zero (n ∷ ns) f h = ground (arith, f.0)
acked-le s e a (suc k) (n ∷ ns) f h =
    let rest = acked-le (s + n.segment.header.length) e a k ns f.1.1 (omega (arith, h)) in
    ground (arith, rest)

-- Segments of full length, on the grid of that length.
abbrev pub OnGrid : Segment → Type 0
OnGrid seg = (seg.header.length ≡ 1464) × (seg.header.seq_num % 1464 ≡ 0)

grid_step : (a s x : ℕ) → s < a → a ≤ x → s % 1464 ≡ 0 → a % 1464 ≡ 0 → s + 1464 ≤ x
grid_step a s x h k d e = omega arith

-- An acknowledgement on the grid frees no byte from its number on.
pub acked-within :
    (s e a x : ℕ) (ns : List SegBuf)
    → FromSeq s ns e
    → All OnGrid (segments ns)
    → a % 1464 ≡ 0
    → a ≤ x
    → s ≤ x
    → s + bytes_in (take (acked a ns) (segments ns)) ≤ x
unfolding acked
acked-within s e a x [] f g d h k = omega (arith, k)
acked-within s e a x (n ∷ ns) f g d h k = elim (Bool-cases (ltb n.segment.header.seq_num a)) [
  | inr kept ↦ rw kept (omega (arith, k))
  | inl freed ↦
      let l = n.segment.header.length in
      let below : s < a = ground (arith, f.0) in
      let on : s % 1464 ≡ 0 = sym (ap (λ q. q % 1464) f.0) ∙ g.0.1 in
      let step = grid_step a s x below h on d in
      let rest = acked-within (s + l) e a x ns f.1.1 g.1 d h (omega (arith, step, g.0.0)) in
      rw freed (omega (arith, rest))
]

-- An acknowledgement of more than the first byte frees some.
pub acked-gains :
    (s e a : ℕ) (ns : List SegBuf)
    → FromSeq s ns e
    → 0 < length ns
    → s < a
    → s < s + bytes_in (take (acked a ns) (segments ns))
unfolding acked
acked-gains s e a [] f h k = absurd (omega arith)
acked-gains s e a (n ∷ ns) f h k =
    let below : ltb n.segment.header.seq_num a ≡ true = ground (arith, f.0) in
    rw below (omega (arith, f.1.0))

-- The first `k` segments end by the boundary behind them.
pub taken_end :
    (s e k : ℕ) (ns : List SegBuf)
    → FromSeq s ns e
    → All (EndsBy (s + bytes_in (take k (segments ns)))) (take k (segments ns))
taken_end s e zero ns f = tt
taken_end s e (suc k) [] f = tt
taken_end s e (suc k) (n ∷ ns) f =
    let l = n.segment.header.length in
    let rest = bytes_in (take k (segments ns)) in
    let sum : s + l + rest ≡ s + (l + rest) = omega arith in
    (
      omega (arith, f.0),
      subst (λ b. All (EndsBy b) (take k (segments ns))) sum (taken_end (s + l) e k ns f.1.1),
    )

pub FromSeq-bytes_in :
    (s e : ℕ) (ns : List SegBuf) → FromSeq s ns e → s + bytes_in (segments ns) ≡ e
FromSeq-bytes_in s e [] f = omega (arith, f)
FromSeq-bytes_in s e (n ∷ ns) f =
    omega (arith, FromSeq-bytes_in (s + n.segment.header.length) e ns f.1.1)

-- What a timeout does to the nodes from the oldest on.
resend_lem :
    (clock : ℕ → ℕ) (k n : ℕ) (ns : List SegBuf)
    → n ≤ length ns
    → (ns' : List SegBuf) × (outs : List Output) × (resend clock k n ns ≡ ok (ns', outs))
      × (segments ns' ≡ segments ns)
      × (sent outs ≡ take n (segments ns))
unfolding resend
resend_lem clock k zero ns h = (ns, [], refl, refl, refl)
resend_lem clock k (suc n) [] h = absurd (omega arith)
resend_lem clock k (suc n) (c ∷ cs) h =
    let (ns', outs, run, same, order) = resend_lem clock (suc k) n cs (omega arith) in
    (
      record c { sent_time = clock k } ∷ ns',
      send c.segment ∷ outs,
      rw run refl,
      ap (λ t. c.segment ∷ t) same,
      ap (λ t. c.segment ∷ t) order,
    )

-- A timeout of a buffer that keeps the invariant does not fault, changes no segment and sends the
-- unacknowledged ones again.
pub sendbuffer_timeout_lem :
    (clock : ℕ → ℕ) (s : ℕ) (b : SendBuffer)
    → IsWindow s b
    → (ns : List SegBuf) × (outs : List Output) × (sendbuffer_timeout clock b
        ≡ ok (record b { chain = ns }, outs))
      × (segments ns ≡ segments b.chain)
      × (sent outs ≡ take b.unack (segments b.chain))
sendbuffer_timeout_lem clock s b w =
    let (ns, outs, run, same, order) = resend_lem clock 0 b.unack b.chain w.held in
    (ns, outs, unfold sendbuffer_timeout in rw run refl, same, order)
