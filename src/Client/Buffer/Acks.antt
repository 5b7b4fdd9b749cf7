-- ===== src/Client/Buffer/Acks.antt =====
-- What an acknowledgement takes off the send buffer.
use cs.Base.{
  ℕ, zero, suc, ◌+◌, ◌-◌, ◌*◌, ◌≤◌, ◌<◌, ◌≡◌, refl, ap, ◌∙◌, inl, inr, List, [], ◌∷◌, true, false,
  ltb, u32, if◌then◌else◌, length, take, drop, ok, arith, Bool-cases, length-drop,
}
use cs.Client.Buffer.{SegBuf, SendBuffer, position, acked, behind, last_seq, sendbuffer_recv_ack}
use cs.Client.Buffer.Window.{FromSeq, nonempty, IsWindow, segments, bytes_in}

-- The last sequence number is not below the first.
last_seq_ge :
    (s e : ℕ) (n : SegBuf) (ns : List SegBuf) → FromSeq s (n ∷ ns) e → s ≤ last_seq (n ∷ ns)
unfolding last_seq
last_seq_ge s e n [] h = omega (arith, h.0)
last_seq_ge s e n (m ∷ ns) h = omega (arith, last_seq_ge (s + n.segment.header.length) e m ns h.1.1)

-- The tail is given up exactly when every node is freed.
acked_last :
    (s e ack : ℕ) (ns : List SegBuf)
    → FromSeq s ns e
    → 0 < length ns
    → (if ltb (last_seq ns) ack then false else true) ≡ nonempty (drop (acked ack ns) ns)
unfolding last_seq acked
acked_last s e ack [] h l = absurd (omega arith)
acked_last s e ack (n ∷ []) h l = ground arith
acked_last s e ack (n ∷ m ∷ ns) h l =
    let later = last_seq_ge (s + n.segment.header.length) e m ns h.1.1 in
    let rest = acked_last (s + n.segment.header.length) e ack (m ∷ ns) h.1.1 (omega arith) in
    elim (Bool-cases (ltb n.segment.header.seq_num ack)) [
      | inl freed ↦ rw freed rest
      | inr kept ↦ rw kept (ground (arith, later, h.0))
    ]

-- The nodes behind the first `k` follow those.
drop-FromSeq :
    (k s e : ℕ) (ns : List SegBuf)
    → FromSeq s ns e
    → FromSeq (s + bytes_in (take k (segments ns))) (drop k ns) e
drop-FromSeq zero s e ns f = let same : s + 0 ≡ s = omega arith in rw same f
drop-FromSeq (suc k) s e [] f = omega (arith, f)
drop-FromSeq (suc k) s e (n ∷ ns) f =
    let l = n.segment.header.length in
    let rest = bytes_in (take k (segments ns)) in
    let sum : s + (l + rest) ≡ s + l + rest = omega arith in
    rw sum (drop-FromSeq k (s + l) e ns f.1.1)

behind-position : (k u n : ℕ) → k ≤ u → u ≤ n → behind k (position u n) ≡ position (u - k) (n - k)
unfolding behind position
behind-position k u n h l = ground arith

-- An acknowledgement of sent segments only, to a buffer that keeps the invariant and is not empty,
-- does not fault and keeps the invariant, from the number of the first byte it leaves on: it frees the
-- nodes in front whose sequence numbers are below it, takes as many off the number of unacknowledged
-- segments, and keeps the next sequence number.
pub sendbuffer_recv_ack-IsWindow :
    (s ack : ℕ) (b : SendBuffer)
    → IsWindow s b
    → 0 < length b.chain
    → acked ack b.chain ≤ b.unack
    → (b' : SendBuffer) × (sendbuffer_recv_ack b ack ≡ ok b')
      × IsWindow (s + bytes_in (take (acked ack b.chain) (segments b.chain))) b'
      × (b'.chain ≡ drop (acked ack b.chain) b.chain)
      × (b'.unack ≡ b.unack - acked ack b.chain)
      × (b'.next_seq ≡ b.next_seq)
sendbuffer_recv_ack-IsWindow s ack b w some_held known =
    let k = acked ack b.chain in
    let kept = drop-FromSeq k s b.next_seq b.chain w.contiguous in
    let count : u32 (b.unack + k * 4294967295) ≡ b.unack - k = omega (arith, w.narrow, known) in
    let has_tail : b.tail_set ≡ true = w.tail ∙ nonempty_of b.chain some_held in
    (
      record {
        next_seq = b.next_seq;
        chain = drop k b.chain;
        tail_set = if ltb (last_seq b.chain) ack then false else true;
        unsent = behind k b.unsent;
        unack = u32 (b.unack + k * 4294967295);
      },
      unfold sendbuffer_recv_ack in rw has_tail refl,
      record {
        contiguous = kept;
        tail = acked_last s b.next_seq ack b.chain w.contiguous some_held;
        narrow = omega (arith, count, w.narrow);
        held = omega (arith, count, length-drop k b.chain, w.held, known);
        unsent =
            rw (count, length-drop k b.chain)
              (ap (behind k) w.unsent ∙ behind-position k b.unack (length b.chain) known w.held);
      },
      refl,
      count,
      refl,
    )
  where
    nonempty_of : (ns : List SegBuf) → 0 < length ns → nonempty ns ≡ true
    nonempty_of [] l = absurd (omega arith)
    nonempty_of (n ∷ ns) l = refl
