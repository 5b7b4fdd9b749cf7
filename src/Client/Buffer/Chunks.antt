-- ===== src/Client/Buffer/Chunks.antt =====
-- What mrt_client_send puts into the send buffer.
use cs.Base.{
  ℕ, zero, suc, ◌+◌, ◌*◌, ◌/◌, ◌≤◌, ◌<◌, ◌≡◌, refl, sym, ap, ◌∙◌, List, [], ◌∷◌, ◌++◌, true, ltb,
  leb, ◌&&◌, length, take, drop, ok, some, arith, append_assoc, append-nil, length-drop, take_add,
}
use cs.Wire.Layout.{Segment, max_seg_len}
use cs.Client.Buffer.{
  SegBuf, SendBuffer, Output, numbered, full_segment, append_chunks, connected, mrt_client_send,
}
use cs.Client.Buffer.Window.{
  IsWindow, append_segment-IsWindow, segments, sendbuffer_sending-IsWindow,
}

-- The bytes that segments carry.
abbrev pub bytes_of : List Segment → List ℕ
bytes_of [] = []
bytes_of (seg ∷ segs) = take seg.header.length seg.payload ++ bytes_of segs

bytes_of-append :
    (ns : List SegBuf) (m : SegBuf)
    → bytes_of (segments (ns ++ m ∷ []))
      ≡ bytes_of (segments ns) ++ take m.segment.header.length m.segment.payload
bytes_of-append [] m = append-nil (take m.segment.header.length m.segment.payload)
bytes_of-append (n ∷ ns) m =
    ap (λ t. take n.segment.header.length n.segment.payload ++ t) (bytes_of-append ns m)
    ∙ sym (
        append_assoc (take n.segment.header.length n.segment.payload) (bytes_of (segments ns))
          (take m.segment.header.length m.segment.payload))

pub take-take : (n : ℕ) (xs : List ℕ) → take n (take n xs) ≡ take n xs
take-take zero xs = refl
take-take (suc n) [] = refl
take-take (suc n) (x ∷ xs) = ap (λ t. x ∷ t) (take-take n xs)

chunk_bytes :
    (src dest seq : ℕ) (bytes : List ℕ)
    → let seg = numbered seq (full_segment src dest (take max_seg_len bytes)) in
      take seg.header.length seg.payload ≡ take max_seg_len bytes
unfolding numbered full_segment
chunk_bytes src dest seq bytes = take-take max_seg_len bytes

-- The buffer `b'` keeps the invariant, and holds `bytes` behind those of `b`.
abbrev pub Appended : ℕ → SendBuffer → List ℕ → SendBuffer → Type 0
Appended s b bytes b' =
    IsWindow s b' × (bytes_of (segments b'.chain) ≡ bytes_of (segments b.chain) ++ bytes)

pub in_bounds : (k l : ℕ) → k < 2147483648 → 1464 ≤ l → ltb k 2147483648 && leb max_seg_len l ≡ true
in_bounds k l h r = ground arith

append_chunks-IsWindow :
    (s src dest i n : ℕ) (bytes : List ℕ) (b : SendBuffer)
    → IsWindow s b
    → n * 1464 ≤ length bytes
    → (i + n) * 1464 ≤ 2147483648
    → b.next_seq + n * 1464 < 4294967296
    → (b' : SendBuffer) × (append_chunks src dest i n bytes b ≡ ok b')
      × Appended s b (take (n * 1464) bytes) b'
unfolding append_chunks
append_chunks-IsWindow s src dest i zero bytes b w h whole small =
    (b, refl, (w, sym (append-nil (bytes_of (segments b.chain)))))
append_chunks-IsWindow s src dest i (suc n) bytes b w h whole small =
    let first = take max_seg_len bytes in
    let seg = full_segment src dest first in
    let (b1, added, w1, chain, next, same) =
      append_segment-IsWindow s b seg w (unfold full_segment in omega arith)
        (unfold full_segment in omega (arith, small)) in
    let next1 : b1.next_seq ≡ b.next_seq + 1464 =
      next ∙ (unfold full_segment in omega (arith, small)) in
    let (b2, run, (w2, held)) =
      append_chunks-IsWindow s src dest (suc i) n (drop max_seg_len bytes) b1 w1
        (omega (arith, h, length-drop max_seg_len bytes)) (omega (arith, whole))
        (omega (arith, next1, small)) in
    let enough : ltb (i * max_seg_len) 2147483648 && leb max_seg_len (length bytes) ≡ true =
      in_bounds (i * max_seg_len) (length bytes) (omega (arith, whole)) (omega (arith, h)) in
    let sum : suc n * 1464 ≡ 1464 + n * 1464 = omega arith in
    let node : SegBuf = record { segment = numbered b.next_seq seg; sent_time = 0 } in
    let held1 : bytes_of (segments b1.chain) ≡ bytes_of (segments b.chain) ++ first =
      ap (λ c. bytes_of (segments c)) chain
      ∙ bytes_of-append b.chain node
      ∙ ap (λ t. bytes_of (segments b.chain) ++ t) (chunk_bytes src dest b.next_seq bytes) in
    let rest = take (n * 1464) (drop max_seg_len bytes) in
    (
      b2,
      rw (enough, added) run,
      (
        w2,
        held
            ∙ ap (λ t. t ++ rest) held1
            ∙ append_assoc (bytes_of (segments b.chain)) first rest
            ∙ ap (λ t. bytes_of (segments b.chain) ++ t)
                (sym (take_add 1464 (n * 1464) bytes) ∙ ap (λ k. take k bytes) (sym sum)),
      ),
    )

-- In the state CLIENT_CONNECTED, for a buffer that keeps the invariant and `n` bytes that are there, 2 ^
-- 31 at most, the next sequence number staying below 2 ^ 32, mrt_client_send does not fault, returns 1 and
-- keeps the invariant. Behind the bytes that the buffer held it then holds the first
-- n / MAX_SEG_LEN * MAX_SEG_LEN bytes and no more: the rest of the caller's bytes is lost.
pub mrt_client_send-IsWindow :
    (s src dest : ℕ) (clock : ℕ → ℕ) (b : SendBuffer) (bytes : List ℕ) (n : ℕ)
    → IsWindow s b
    → n ≤ length bytes
    → n ≤ 2147483648
    → b.next_seq + n < 4294967296
    → (b' : SendBuffer) × (outs : List Output) × (mrt_client_send connected src dest clock b bytes n
        ≡ ok (some (b', outs)))
      × Appended s b (take (n / 1464 * 1464) bytes) b'
mrt_client_send-IsWindow s src dest clock b bytes n w h whole small =
    let (b1, added, (w1, held)) =
      append_chunks-IsWindow s src dest 0 (n / 1464) bytes b w (omega (arith, h))
        (omega (arith, whole)) (omega (arith, small)) in
    let (b2, outs, run, w2, count, same, order) = sendbuffer_sending-IsWindow s clock b1 w1 in
    (b2, outs, unfold mrt_client_send in rw (added, run) refl, (w2, ap bytes_of same ∙ held))
