-- ===== src/Transport/Sending.antt =====
-- What the client's calls leave in its send buffer, and what they send.
use cs.Base.{
  ℕ, zero, suc, ◌+◌, ◌-◌, ◌*◌, ◌/◌, ◌≤◌, ◌<◌, ◌≡◌, refl, sym, ap, subst, ◌∙◌, List, [], ◌∷◌, ◌++◌,
  ok, some, ltb, leb, ◌&&◌, true, length, take, drop, All, All-append, All-mono, All-take, All-drop,
  arith, append_assoc, append-nil, length-append, length-take, length-drop, take_add, take-nil, min,
}
use cs.Wire.Layout.{Segment, max_seg_len}
use cs.Client.Buffer.{
  SegBuf, SendBuffer, Output, numbered, full_segment, append_chunks, sendbuffer_sending,
  sendbuffer_timeout, connected, mrt_client_send,
}
use cs.Client.Buffer.Window.{
  IsWindow, segments, bytes_in, sent, FromSeq-segments, nonempty-length, length-segments,
  append_segment-IsWindow, sendbuffer_sending-IsWindow,
}
use cs.Client.Buffer.Chunks.{in_bounds}
use cs.Transport.Sent.{
  boundary, EndsBy, bytes_in-take, segments-take, segments-drop, taken_end, FromSeq-bytes_in,
  sendbuffer_timeout_lem,
}
use cs.Transport.Pieces.{IsSendable, IsSendable-append, full-IsSendable, Holds}

-- A segment that the client has sent, up to the number `e`.
pub record IsFlying (given : List ℕ) (src dest e : ℕ) (seg : Segment) : Type 0 where
  pub sendable : IsSendable given src dest seg
  pub ends : EndsBy e seg

-- A buffer after a call: it keeps its invariants, its window is full or holds all, its boundary has not gone back from `e`, and what
-- was sent is flying.
pub record IsSending (given : List ℕ) (src dest s e : ℕ) (b : SendBuffer) (outs : List Output)
    : Type 0 where
  pub window : IsWindow s b
  pub holds : Holds given src dest b
  pub opened : b.unack ≡ min 10 (length b.chain)
  pub forward : e ≤ boundary s b
  pub flying : All (IsFlying given src dest (boundary s b)) (sent outs)

All-both :
    (given : List ℕ) (src dest e : ℕ) (segs : List Segment)
    → All (IsSendable given src dest) segs
    → All (EndsBy e) segs
    → All (IsFlying given src dest e) segs
All-both given src dest e [] h k = tt
All-both given src dest e (seg ∷ segs) h k =
    (record { sendable = h.0; ends = k.0 }, All-both given src dest e segs h.1 k.1)

take-min : (segs : List Segment) (n : ℕ) → take (min n (length segs)) segs ≡ take n segs
take-min [] zero = refl
take-min [] (suc n) = let none_left : min (suc n) 0 ≡ 0 = omega arith in rw none_left refl
take-min (seg ∷ segs) zero =
    let none_left : min 0 (suc (length segs)) ≡ 0 = omega arith in rw none_left refl
take-min (seg ∷ segs) (suc n) =
    let same : min (suc n) (suc (length segs)) ≡ suc (min n (length segs)) = omega arith in
    rw same (ap (λ t. seg ∷ t) (take-min segs n))

drop-take : (k n : ℕ) (segs : List Segment) → drop k (take n segs) ≡ take (n - k) (drop k segs)
drop-take zero n segs = let same : n - 0 ≡ n = omega arith in rw same refl
drop-take (suc k) zero segs = let same : 0 - suc k ≡ 0 = omega arith in rw same refl
drop-take (suc k) (suc n) [] = sym (take-nil (suc n - suc k))
drop-take (suc k) (suc n) (seg ∷ segs) =
    let same : suc n - suc k ≡ n - k = omega arith in rw same (drop-take k n segs)

same-length : (ms ns : List SegBuf) → segments ns ≡ segments ms → length ns ≡ length ms
same-length ms ns same = sym (length-segments ns) ∙ ap length same ∙ length-segments ms

-- sendBuffer_sending.
pub sendbuffer_sending-IsSending :
    (given : List ℕ) (src dest s : ℕ) (clock : ℕ → ℕ) (b : SendBuffer)
    → IsWindow s b
    → Holds given src dest b
    → (b' : SendBuffer) × (outs : List Output) × (sendbuffer_sending clock b ≡ ok (b', outs))
      × IsSending given src dest s (boundary s b) b' outs
sendbuffer_sending-IsSending given src dest s clock b w h =
    let (b', outs, run, w', count, same, order) = sendbuffer_sending-IsWindow s clock b w in
    let segs = segments b.chain in
    let next : b'.next_seq ≡ b.next_seq =
      sym (FromSeq-bytes_in s b'.next_seq b'.chain w'.contiguous)
      ∙ ap (λ t. s + bytes_in t) same
      ∙ FromSeq-bytes_in s b.next_seq b.chain w.contiguous in
    let whole : take b'.unack (segments b'.chain) ≡ take 10 segs =
      ap (take b'.unack) same
      ∙ ap (λ n. take n segs) (count ∙ ap (min 10) (sym (length-segments b.chain)))
      ∙ take-min segs 10 in
    let bound : boundary s b' ≡ s + bytes_in (take 10 segs) = ap (λ t. s + bytes_in t) whole in
    let flown : sent outs ≡ drop b.unack (take 10 segs) =
      order
      ∙ segments-take (10 - b.unack) (drop b.unack b.chain)
      ∙ ap (take (10 - b.unack)) (segments-drop b.unack b.chain)
      ∙ sym (drop-take b.unack 10 segs) in
    (
      b',
      outs,
      run,
      record {
        window = w';
        holds = record { ends = next ∙ h.ends; aligned = h.aligned; sendable = rw same h.sendable };
        opened = count ∙ ap (min 10) (sym (same-length b.chain b'.chain same));
        forward = omega (arith, bound, bytes_in-take b.unack 10 segs w.narrow);
        flying =
            rw (flown, bound)
              (All-both given src dest (s + bytes_in (take 10 segs)) (drop b.unack (take 10 segs))
                (All-drop (IsSendable given src dest) b.unack (take 10 segs)
                  (All-take (IsSendable given src dest) 10 segs h.sendable))
                (All-drop (EndsBy (s + bytes_in (take 10 segs))) b.unack (take 10 segs)
                  (taken_end s b.next_seq 10 b.chain w.contiguous)));
      },
    )

-- Nodes with the same segments.
IsWindow-segments :
    (s : ℕ) (b : SendBuffer) (ns : List SegBuf)
    → IsWindow s b
    → segments ns ≡ segments b.chain
    → IsWindow s (record b { chain = ns })
IsWindow-segments s b ns w same =
    let size = same-length b.chain ns same in
    record {
      contiguous = FromSeq-segments s b.next_seq b.chain ns (sym same) w.contiguous;
      tail = w.tail ∙ nonempty-length b.chain ns (sym size);
      narrow = w.narrow;
      held = omega (arith, w.held, size);
      unsent = rw size w.unsent;
    }

-- sendBuffer_timeout.
pub sendbuffer_timeout-IsSending :
    (given : List ℕ) (src dest s : ℕ) (clock : ℕ → ℕ) (b : SendBuffer)
    → IsWindow s b
    → Holds given src dest b
    → b.unack ≡ min 10 (length b.chain)
    → (b' : SendBuffer) × (outs : List Output) × (sendbuffer_timeout clock b ≡ ok (b', outs))
      × IsSending given src dest s (boundary s b) b' outs
sendbuffer_timeout-IsSending given src dest s clock b w h full =
    let (ns, outs, run, same, order) = sendbuffer_timeout_lem clock s b w in
    let segs = segments b.chain in
    (
      record b { chain = ns },
      outs,
      run,
      record {
        window = IsWindow-segments s b ns w same;
        holds = record { ends = h.ends; aligned = h.aligned; sendable = rw same h.sendable };
        opened = full ∙ ap (min 10) (sym (same-length b.chain ns same));
        forward = rw same (omega arith);
        flying =
            rw (order, same)
              (All-both given src dest (s + bytes_in (take b.unack segs)) (take b.unack segs)
                (All-take (IsSendable given src dest) b.unack segs h.sendable)
                (taken_end s b.next_seq b.unack b.chain w.contiguous));
      },
    )

segments-append :
    (ns : List SegBuf) (m : SegBuf) → segments (ns ++ m ∷ []) ≡ segments ns ++ m.segment ∷ []
segments-append [] m = refl
segments-append (n ∷ ns) m = ap (λ t. n.segment ∷ t) (segments-append ns m)

bytes_in-take_append :
    (k : ℕ) (xs ys : List Segment) → bytes_in (take k xs) ≤ bytes_in (take k (xs ++ ys))
bytes_in-take_append zero xs ys = omega arith
bytes_in-take_append (suc k) [] ys = omega arith
bytes_in-take_append (suc k) (x ∷ xs) ys = omega (arith, bytes_in-take_append k xs ys)

-- A buffer after some rounds of mrt_client_send.
pub record IsFilled (given : List ℕ) (src dest s e : ℕ) (b : SendBuffer) : Type 0 where
  pub window : IsWindow s b
  pub holds : Holds given src dest b
  pub forward : e ≤ boundary s b

append_chunks-IsFilled :
    (given : List ℕ) (src dest s i n : ℕ) (bytes : List ℕ) (b : SendBuffer)
    → IsWindow s b
    → Holds given src dest b
    → n * 1464 ≤ length bytes
    → (i + n) * 1464 ≤ 2147483648
    → length given + n * 1464 < 4294967296
    → (b' : SendBuffer) × (append_chunks src dest i n bytes b ≡ ok b')
      × IsFilled (given ++ take (n * 1464) bytes) src dest s (boundary s b) b'
unfolding append_chunks
append_chunks-IsFilled given src dest s i zero bytes b w h size int small =
    (b, refl, record { window = w; holds = rw (append-nil given) h; forward = omega arith })
append_chunks-IsFilled given src dest s i (suc n) bytes b w h size int small =
    let first = take max_seg_len bytes in
    let rest = drop max_seg_len bytes in
    let seg = full_segment src dest first in
    let node : SegBuf = record { segment = numbered b.next_seq seg; sent_time = 0 } in
    let (b1, added, w1, chain, next, unack) =
      append_segment-IsWindow s b seg w (unfold full_segment in omega arith)
        (unfold full_segment in omega (arith, small, h.ends)) in
    let next1 : b1.next_seq ≡ b.next_seq + 1464 =
      next ∙ (unfold full_segment in omega (arith, small, h.ends)) in
    let long : 1464 ≤ length bytes = omega (arith, size) in
    let taken : length first ≡ 1464 = omega (arith, length-take max_seg_len bytes, long) in
    let segs1 : segments b1.chain ≡ segments b.chain ++ node.segment ∷ [] =
      ap segments chain ∙ segments-append b.chain node in
    let h1 : Holds (given ++ first) src dest b1 = record {
      ends = omega (arith, next1, h.ends, length-append given first, taken);
      aligned = omega (arith, h.aligned, length-append given first, taken);
      sendable = rw segs1 (
          All-append (IsSendable (given ++ first) src dest) (segments b.chain) (node.segment ∷ [])
            (All-mono (IsSendable given src dest) (IsSendable (given ++ first) src dest)
              (λ seg. IsSendable-append given first src dest seg) (segments b.chain) h.sendable)
            (full-IsSendable given bytes src dest b.next_seq h.ends h.aligned long, tt));
    } in
    let (b2, run, filled) =
      append_chunks-IsFilled (given ++ first) src dest s (suc i) n rest b1 w1 h1
        (omega (arith, size, length-drop max_seg_len bytes)) (omega (arith, int))
        (omega (arith, small, length-append given first, taken)) in
    let enough : ltb (i * max_seg_len) 2147483648 && leb max_seg_len (length bytes) ≡ true =
      in_bounds (i * max_seg_len) (length bytes) (omega (arith, int)) long in
    let sum : suc n * 1464 ≡ 1464 + n * 1464 = omega arith in
    let whole : (given ++ first) ++ take (n * 1464) rest ≡ given ++ take (suc n * 1464) bytes =
      append_assoc given first (take (n * 1464) rest)
      ∙ ap (λ t. given ++ t)
          (sym (take_add 1464 (n * 1464) bytes) ∙ ap (λ k. take k bytes) (sym sum)) in
    let grown : boundary s b ≤ boundary s b1 =
      rw (segs1, unack)
        (omega (arith, bytes_in-take_append b.unack (segments b.chain) (node.segment ∷ []))) in
    (
      b2,
      rw (enough, added) run,
      record {
        window = filled.window;
        holds = subst (λ g. Holds g src dest b2) whole filled.holds;
        forward = omega (arith, filled.forward, grown);
      },
    )

-- mrt_client_send, in the state CLIENT_CONNECTED.
pub mrt_client_send-IsSending :
    (given : List ℕ) (src dest s : ℕ) (clock : ℕ → ℕ) (b : SendBuffer) (bytes : List ℕ) (n : ℕ)
    → IsWindow s b
    → Holds given src dest b
    → n ≤ length bytes
    → n ≤ 2147483648
    → length (given ++ take (n / 1464 * 1464) bytes) < 4294967296
    → (b' : SendBuffer) × (outs : List Output) × (mrt_client_send connected src dest clock b bytes n
        ≡ ok (some (b', outs)))
      × IsSending (given ++ take (n / 1464 * 1464) bytes) src dest s (boundary s b) b' outs
mrt_client_send-IsSending given src dest s clock b bytes n w h size int small =
    let k = n / 1464 in
    let fits : k * 1464 ≤ length bytes = omega (arith, size) in
    let now = given ++ take (k * 1464) bytes in
    let (b1, added, filled) =
      append_chunks-IsFilled given src dest s 0 k bytes b w h fits (omega (arith, int)) (
        omega (
          arith,
          small,
          length-append given (take (k * 1464) bytes),
          length-take (k * 1464) bytes,
          fits,
        )) in
    let (b2, outs, run, sending) =
      sendbuffer_sending-IsSending now src dest s clock b1 filled.window filled.holds in
    (
      b2,
      outs,
      unfold mrt_client_send in rw (added, run) refl,
      record {
        window = sending.window;
        holds = sending.holds;
        opened = sending.opened;
        forward = omega (arith, filled.forward, sending.forward);
        flying = sending.flying;
      },
    )
