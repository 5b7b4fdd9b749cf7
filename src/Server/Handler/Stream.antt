-- ===== src/Server/Handler/Stream.antt =====
-- The bytes that a connection hands to the application, against the sender's stream.
use cs.Base.{
  ℕ, ◌+◌, ◌-◌, ◌<◌, ◌≤◌, ◌≡◌, refl, sym, ap, subst, ◌∙◌, ◌⊎◌, inl, inr, List, [], ◌++◌, Bool, true,
  false, ◌&&◌, ◌==◌, ltb, leb, u32, length, take, drop, arith, Bool-cases, append_assoc,
  length-append, length-take, length-drop, take_add, take_front,
}
use cs.Wire.Layout.{Segment}
use cs.Server.Tcb.{
  Tcb, Run, ok, fault, write_at, save_to_buffer, Recv, sleeps, copied, refused, recv_round,
  receive_buf_size,
}
use cs.Server.Handler.{Output, acknowledge, after_save, data_received}

-- The bytes of a block up to the end of what is written.
pub take-write_at :
    (block bytes : List ℕ) (at n : ℕ)
    → at ≤ length block
    → length bytes ≡ n
    → take (at + n) (write_at block at bytes) ≡ take at block ++ bytes
unfolding write_at
take-write_at block bytes at n h l =
    let rest = drop (at + length bytes) block in
    rw (← append_assoc (take at block) bytes rest) (
      take_front (take at block ++ bytes) rest
        (omega (arith, length-append (take at block) bytes, length-take at block)))

pub length-write_at :
    (block bytes : List ℕ) (at : ℕ)
    → at + length bytes ≤ length block
    → length (write_at block at bytes) ≡ length block
unfolding write_at
length-write_at block bytes at h =
    let rest = drop (at + length bytes) block in
    omega (
      arith,
      length-append (take at block) (bytes ++ rest),
      length-append bytes rest,
      length-take at block,
      length-drop (at + length bytes) block,
    )

-- A segment that carries a piece of the stream, at the place that its sequence number says.
pub record IsPiece (stream : List ℕ) (seg : Segment) : Type 0 where
  pub inside : seg.header.seq_num + seg.header.length ≤ length stream
  pub short : seg.header.length ≤ 1464
  pub full : length seg.payload ≡ 1464
  pub same :
      take seg.header.length seg.payload ≡ take seg.header.length (drop seg.header.seq_num stream)

-- What the application has read, with what the buffer holds, is the stream up to the next
-- sequence number.
pub record InStream (stream read : List ℕ) (t : Tcb) : Type 0 where
  pub bounded : t.expect_seq ≤ length stream
  pub fits : t.used_buf_len ≤ length t.recv_buf
  pub prefix : read ++ take t.used_buf_len t.recv_buf ≡ take t.expect_seq stream

-- Of a run: `P` of its value, or `F` if it faults.
abbrev pub Ends {ℓ κ} : {A : Type ℓ} → (A → Type κ) → Type κ → Run A → Type κ
Ends P F (ok a) = P a
Ends P F fault = F

joined :
    (read held bytes stream : List ℕ) (at n : ℕ)
    → read ++ held ≡ take at stream
    → bytes ≡ take n (drop at stream)
    → read ++ (held ++ bytes) ≡ take (at + n) stream
joined read held bytes stream at n h k =
    sym (append_assoc read held bytes) ∙ rw (h, k) (sym (take_add at n stream))

-- What the buffer holds is part of the stream up to the next expected sequence number.
held-InStream :
    (stream read : List ℕ) (t : Tcb) → InStream stream read t → t.used_buf_len ≤ t.expect_seq
held-InStream stream read t v =
    let whole = ap length v.prefix in
    omega (
      arith,
      whole,
      length-append read (take t.used_buf_len t.recv_buf),
      length-take t.used_buf_len t.recv_buf,
      length-take t.expect_seq stream,
      v.fits,
      v.bounded,
    )

-- The next piece of the stream, written behind the bytes that the buffer holds.
pub write_at-InStream :
    (stream read : List ℕ) (t : Tcb) (seg : Segment) (next : ℕ)
    → length stream < 4294967296
    → IsPiece stream seg
    → InStream stream read t
    → seg.header.seq_num ≡ t.expect_seq
    → t.used_buf_len + seg.header.length ≤ length t.recv_buf
    → next ≡ t.expect_seq + seg.header.length
    → InStream stream read (record t {
      recv_buf = write_at t.recv_buf t.used_buf_len (take seg.header.length seg.payload);
      used_buf_len = u32 (t.used_buf_len + seg.header.length);
      expect_seq = next;
    })
write_at-InStream stream read t seg next small p v e room after =
    let n = seg.header.length in
    let bytes = take n seg.payload in
    let size : length bytes ≡ n = omega (arith, length-take n seg.payload, p.full, p.short) in
    let held : t.used_buf_len ≤ t.expect_seq = held-InStream stream read t v in
    let used : u32 (t.used_buf_len + n) ≡ t.used_buf_len + n = omega (arith, p.inside) in
    record {
      bounded = omega (arith, p.inside, after, e);
      fits =
          let same = length-write_at t.recv_buf bytes t.used_buf_len (omega (arith, size, room)) in
          omega (arith, used, same, room);
      prefix =
          rw (used, take-write_at t.recv_buf bytes t.used_buf_len n v.fits size, after)
            (joined read (take t.used_buf_len t.recv_buf) bytes stream t.expect_seq n v.prefix
              (p.same ∙ rw e));
    }

save-InStream :
    (stream read : List ℕ) (t : Tcb) (seg : Segment)
    → length stream < 4294967296
    → IsPiece stream seg
    → InStream stream read t
    → seg.header.seq_num ≡ t.expect_seq
    → Ends
        (λ r. InStream stream read r.1)
        (length t.recv_buf < t.used_buf_len + seg.header.length)
        (save_to_buffer t seg)
save-InStream stream read t seg small p v e =
    let n = seg.header.length in
    elim (Bool-cases (ltb (u32 (n + t.used_buf_len)) receive_buf_size)) [
      | inr full ↦ unfold save_to_buffer in rw (full, Ends) v
      | inl room ↦ elim (Bool-cases (leb n 1464 && leb (t.used_buf_len + n) (length t.recv_buf))) [
        | inr past ↦ unfold save_to_buffer in rw (room, past, Ends) (ground (arith, p.short))
        | inl inside ↦
            unfold save_to_buffer in
            rw (room, inside, Ends)
              (write_at-InStream stream read t seg (u32 (n + seg.header.seq_num)) small p v e
                (ground arith) (omega (arith, p.inside, e, small)))
      ]
    ]

-- What data_received leaves: the invariant, and an acknowledgement of exactly what has arrived, or
-- none if the buffer is full.
abbrev pub Received : List ℕ → List ℕ → Tcb × List Output → Type 0
Received stream read r = InStream stream read r.0 × ((r.1 ≡ []) ⊎ (r.1 ≡ (acknowledge r.0).1))

after_save-Received :
    (stream read : List ℕ) (F : Type 0) (r : Run (Bool × Tcb))
    → Ends (λ s. InStream stream read s.1) F r
    → Ends (Received stream read) F (after_save r)
unfolding after_save acknowledge
after_save-Received stream read F fault h = h
after_save-Received stream read F (ok (true, t)) h = (h, inr refl)
after_save-Received stream read F (ok (false, t)) h = (h, inl refl)

-- For a segment that carries any piece of a stream shorter than 2 ^ 32, early, late or for the
-- second time, data_received keeps this: what has been read, with what the buffer holds, is the
-- stream up to the next expected sequence number. It acknowledges with that number or not at all.
-- It faults only if the block behind the buffer is too small for the used bytes and the new ones.
pub data_received-InStream :
    (stream read : List ℕ) (t : Tcb) (seg : Segment)
    → length stream < 4294967296
    → IsPiece stream seg
    → InStream stream read t
    → Ends
        (Received stream read)
        (length t.recv_buf < t.used_buf_len + seg.header.length)
        (data_received t seg)
data_received-InStream stream read t seg small p v =
    elim (Bool-cases (seg.header.seq_num == t.expect_seq)) [
      | inl e ↦
          unfold data_received in
          rw (e, Ends)
            (after_save-Received stream read
              (length t.recv_buf < t.used_buf_len + seg.header.length) (save_to_buffer t seg)
              (save-InStream stream read t seg small p v (ground arith)))
      | inr e ↦ unfold data_received in rw (e, Ends) (unfold acknowledge in (v, inr refl))
    ]

moved_prefix :
    (stream read : List ℕ) (t : Tcb) (n : ℕ)
    → InStream stream read t
    → n ≤ t.used_buf_len
    → length (take (t.used_buf_len - n) (drop n t.recv_buf)) ≡ t.used_buf_len - n
    → (read ++ take n t.recv_buf)
        ++ take
            (t.used_buf_len - n)
            (write_at t.recv_buf 0 (take (t.used_buf_len - n) (drop n t.recv_buf)))
      ≡ take t.expect_seq stream
moved_prefix stream read t n v held size =
    let rest = t.used_buf_len - n in
    let moved = take rest (drop n t.recv_buf) in
    let whole : n + rest ≡ t.used_buf_len = omega arith in
    let written : take rest (write_at t.recv_buf 0 moved) ≡ moved =
      subst (λ k. take k (write_at t.recv_buf 0 moved) ≡ moved) (omega arith)
        (take-write_at t.recv_buf moved 0 rest (omega arith) size) in
    rw written (
      append_assoc read (take n t.recv_buf) moved
      ∙ rw (← take_add n rest t.recv_buf, whole) v.prefix)

-- What one round of mrt_server_recv for `n` bytes leaves.
abbrev pub Copied : List ℕ → List ℕ → ℕ → Tcb → Recv → Type 0
Copied stream read n t sleeps = t.used_buf_len < n
Copied stream read n t (copied bytes t') = InStream stream (read ++ bytes) t' × (length bytes ≡ n)
Copied stream read n t refused = ⊥

-- One round of mrt_server_recv for `n` bytes sleeps only if the buffer holds fewer; else it hands
-- over the next `n` bytes of the stream and keeps the buffer's invariant, or faults, which it does
-- only if more than `n` other bytes are in the buffer.
pub recv_round-InStream :
    (stream read : List ℕ) (t : Tcb) (n : ℕ)
    → InStream stream read t
    → Ends (Copied stream read n t) (n < t.used_buf_len - n) (recv_round t n)
recv_round-InStream stream read t n v =
    let rest = t.used_buf_len - n in
    let moved = take rest (drop n t.recv_buf) in
    elim (Bool-cases (ltb t.used_buf_len n)) [
      | inl less ↦ unfold recv_round in rw (less, Ends) (ground arith)
      | inr more ↦ elim (Bool-cases (leb t.used_buf_len (length t.recv_buf) && leb rest n)) [
        | inr over ↦ unfold recv_round in rw (more, over, Ends) (ground (arith, v.fits))
        | inl fine ↦
            let held : n ≤ t.used_buf_len = ground arith in
            let size : length moved ≡ rest =
              omega
                (arith, length-take rest (drop n t.recv_buf), length-drop n t.recv_buf, v.fits) in
            unfold recv_round in
            rw (more, fine, Ends, Copied)
              (
                record {
                  bounded = v.bounded;
                  fits = omega (
                    arith,
                    length-write_at t.recv_buf moved 0 (omega (arith, size, v.fits)),
                    v.fits,
                    size,
                  );
                  prefix = moved_prefix stream read t n v held size;
                },
                omega (arith, length-take n t.recv_buf, v.fits),
              )
      ]
    ]
