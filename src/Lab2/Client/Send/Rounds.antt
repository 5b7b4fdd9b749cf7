-- ===== src/Lab2/Client/Send/Rounds.antt =====
-- What the rounds of mrt_client_send do.
use cs.Base.{
  ℕ, zero, suc, ◌+◌, ◌*◌, ◌<◌, ◌≤◌, ◌≡◌, refl, sym, subst, ◌∙◌, List, true, ltb, u32, if-both,
  length, take, drop, none, All, All-append, arith, inl, inr, Bool-cases, length-take, take_front,
}
use cs.Wire.Layout.{Segment, data_segment}
use cs.Lab2.Client.Send.{
  Sending, fill, link, send_from, window, send_round, send_rounds, mrt_client_send,
}

-- A DATA segment with all the bytes of a call.
pub record Carries (n : ℕ) (bytes : List ℕ) (seg : Segment) : Type 0 where
  pub type_is : seg.header.type ≡ data_segment
  pub length_is : seg.header.length ≡ n
  pub bytes_are : take n seg.payload ≡ take n bytes

-- What a step does to the number of the next byte, and what it has sent.
record Sends (n : ℕ) (bytes : List ℕ) (next : ℕ) (r : Sending × List Segment) : Type 0 where
  next_is : r.0.next_seq ≡ next
  segments : All (Carries n bytes) r.1

link_lem : (s : Sending) → ((link s).next_seq ≡ s.next_seq) × ((link s).segment ≡ s.segment)
unfolding link
link_lem s = elim (Bool-cases s.held) [
  | inl held ↦ elim (Bool-cases s.unsent) [
    | inl unsent ↦ rw (held, unsent) (refl, refl)
    | inr sent ↦ rw (held, sent) (refl, refl)
  ]
  | inr empty ↦ rw empty (refl, refl)
]

send_from_lem :
    (n : ℕ) (bytes : List ℕ) (k : ℕ) (s : Sending)
    → Carries n bytes s.segment
    → Sends n bytes s.next_seq (send_from k s)
unfolding send_from
send_from_lem n bytes zero s c = record { next_is = refl; segments = tt }
send_from_lem n bytes (suc k) s c =
    let rest = send_from_lem n bytes k s c in
    let P = Sends n bytes s.next_seq in
    if-both P s.unsent _ _
      (if-both P s.loops _ _ (record { next_is = rest.next_is; segments = (c, rest.segments) })
        (record { next_is = refl; segments = (c, tt) }))
      (record { next_is = refl; segments = tt })

fill-Carries :
    (src dest n : ℕ) (bytes : List ℕ) (s : Sending)
    → n < 1464
    → n ≤ length bytes
    → ((fill src dest n bytes s).next_seq ≡ u32 (s.next_seq + n))
      × Carries n bytes (fill src dest n bytes s).segment
unfolding fill
fill-Carries src dest n bytes s h l =
    let short : ltb n 1464 ≡ true = ground arith in
    rw short (
      refl,
      record {
        type_is = refl;
        length_is = refl;
        bytes_are =
            take_front (take n bytes) (drop n s.segment.payload)
              (omega (arith, length-take n bytes, l));
      },
    )

send_round_lem :
    (src dest n : ℕ) (bytes : List ℕ) (s : Sending)
    → n < 1464
    → n ≤ length bytes
    → Sends n bytes (u32 (s.next_seq + n)) (send_round src dest n bytes s)
unfolding send_round
send_round_lem src dest n bytes s h l =
    let s0 = fill src dest n bytes s in
    let (next, carries) = fill-Carries src dest n bytes s h l in
    let (same, kept) = link_lem s0 in
    let out =
      send_from_lem n bytes (window (link s0).unack) (link s0)
        (subst (Carries n bytes) (sym kept) carries) in
    record { next_is = out.next_is ∙ same ∙ next; segments = out.segments }

step_sum : (s k n : ℕ) {next : ℕ} → next ≡ u32 (s + n) → u32 (next + k * n) ≡ u32 (s + suc k * n)
step_sum s k n e = let sum : suc k * n ≡ n + k * n = omega arith in rw sum (omega (arith, e))

send_rounds_lem :
    (src dest k n : ℕ) (bytes : List ℕ) (s : Sending)
    → s.next_seq < 4294967296
    → n < 1464
    → n ≤ length bytes
    → Sends n bytes (u32 (s.next_seq + k * n)) (send_rounds src dest k n bytes s)
unfolding send_rounds
send_rounds_lem src dest zero n bytes s fits h l = record {
  next_is = omega (arith, fits);
  segments = tt;
}
send_rounds_lem src dest (suc k) n bytes s fits h l =
    let first = send_round_lem src dest n bytes s h l in
    let s1 = (send_round src dest n bytes s).0 in
    let rest = send_rounds_lem src dest k n bytes s1 (omega (arith, first.next_is)) h l in
    record {
      next_is = rest.next_is ∙ step_sum s.next_seq k n first.next_is;
      segments =
          All-append (Carries n bytes) (send_round src dest n bytes s).1
            (send_rounds src dest k n bytes s1).1 first.segments rest.segments;
    }

goes_on :
    (src dest fuel n : ℕ) (bytes : List ℕ) (s : Sending)
    → 0 < n
    → mrt_client_send src dest fuel n bytes s ≡ none
unfolding mrt_client_send
goes_on src dest zero n bytes s h = refl
goes_on src dest (suc fuel) n bytes s h =
    let again : ltb 0 n ≡ true = ground (arith, h) in
    rw again (goes_on src dest fuel n bytes (send_round src dest n bytes s).0 h)

-- Called with at least one and fewer than 1,464 bytes, all of them there, mrt_client_send does not
-- return, however often it tests its length: in every number of rounds each segment that it sends
-- carries all of the bytes again, while the number of the next byte goes up by their number in each
-- round, modulo 2 ^ 32. The thread buffer_timer, which send_buff starts and which reads through a
-- pointer that is not initialized, is left out.
pub mrt_client_send_lem :
    (src dest n : ℕ) (bytes : List ℕ) (s : Sending)
    → s.next_seq < 4294967296
    → 0 < n
    → n < 1464
    → n ≤ length bytes
    → ((fuel : ℕ) → mrt_client_send src dest fuel n bytes s ≡ none)
      × ((k : ℕ)
          → ((send_rounds src dest k n bytes s).0.next_seq ≡ u32 (s.next_seq + k * n))
            × All (Carries n bytes) (send_rounds src dest k n bytes s).1)
mrt_client_send_lem src dest n bytes s fits some_bytes short given = (
  λ fuel. goes_on src dest fuel n bytes s some_bytes,
  λ k. let r = send_rounds_lem src dest k n bytes s fits short given in (r.next_is, r.segments),
)
