-- ===== src/Client/Sockets/Timer.antt =====
-- When the thread sendingBuffer_timer resends.
use cs.Base.{
  ℕ, ◌+◌, ◌≤◌, ◌<◌, ◌≡◌, refl, List, [], ◌∷◌, true, false, ◌&&◌, ◌==◌, ltb, take, length, some, ok,
  and_then, arith,
}
use cs.Client.Buffer.{SegBuf, SendBuffer, Output, sendbuffer_timeout}
use cs.Client.Buffer.Window.{IsWindow, segments, sent}
use cs.Transport.Sent.{sendbuffer_timeout_lem}
use cs.Client.Sockets.{timer_round, check_head, data_timeout}

-- The oldest segment was sent at a time that is not 0, and is an unsigned int.
abbrev pub IsTimed : List SegBuf → Type 0
IsTimed [] = Unit
IsTimed (n ∷ ns) = (0 < n.sent_time) × (n.sent_time < 4294967296)

head_due :
    (clock : ℕ → ℕ) (now : ℕ) (b : SendBuffer) (ns : List SegBuf)
    → 0 < length ns
    → IsTimed ns
    → 4294967296 + 100000 ≤ now
    → check_head clock now b ns ≡ and_then (sendbuffer_timeout clock b) (λ r. ok (some r))
unfolding check_head
head_due clock now b [] h timed late = absurd (omega arith)
head_due clock now b (n ∷ ns) h timed late =
    let due : ltb 0 n.sent_time && ltb (n.sent_time + data_timeout) now ≡ true =
      ground (arith, timed.0, timed.1) in
    rw due refl

-- From about 4295 seconds after 1970 on, each round of sendingBuffer_timer, of a buffer that keeps the
-- invariant and has unacknowledged segments, resends all of them, however short a time ago the
-- oldest was sent: its time, an unsigned int, is always more than DATA_TIMEOUT microseconds ago.
timer_round-sendbuffer_timeout :
    (clock : ℕ → ℕ) (s now : ℕ) (b : SendBuffer)
    → IsWindow s b
    → 0 < b.unack
    → IsTimed b.chain
    → 4294967296 + 100000 ≤ now
    → (b' : SendBuffer) × (outs : List Output) × (timer_round clock now b ≡ ok (some (b', outs)))
      × (sendbuffer_timeout clock b ≡ ok (b', outs))
      × (sent outs ≡ take b.unack (segments b.chain))
unfolding timer_round
timer_round-sendbuffer_timeout clock s now b w some_sent timed late =
    let (ns, outs, run, same, order) = sendbuffer_timeout_lem clock s b w in
    let waits : b.unack == 0 ≡ false = ground arith in
    let due = head_due clock now b b.chain (omega (arith, w.held)) timed late in
    (record b { chain = ns }, outs, rw (waits, due, run) refl, run, order)
