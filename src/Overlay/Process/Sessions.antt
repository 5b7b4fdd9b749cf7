-- ===== src/Overlay/Process/Sessions.antt =====
-- The network processes that come one after the other.
use cs.Base.{
  ℕ, suc, List, [], ◌∷◌, ◌++◌, Bool, is_negative, if◌then◌else◌, length, Run, ok, fault, and_then,
  arith,
}
use cs.Topology.{Site}
use cs.Overlay.Neighbors.{NbrEntry}
use cs.Overlay.Traffic.{End, gone, assertion, past_buffer, unfinished, serve}
use cs.Overlay.Traffic.Serve.{Ended, serve-Ended}
use cs.Overlay.Process.{after_session, wait_network}

joined-Ended :
    (ws : List (ℕ × List ℕ)) (rest : Run (List (ℕ × List ℕ) × End))
    → Ended rest
    → Ended (and_then rest (λ r. ok (ws ++ r.0, r.1)))
joined-Ended ws (ok r) h = h
joined-Ended ws fault h = tt

after_session-Ended :
    (r : Run (List (ℕ × List ℕ) × End)) (rest : Run (List (ℕ × List ℕ) × End))
    → Ended r
    → Ended rest
    → Ended (and_then r (λ q. after_session q rest))
unfolding after_session
after_session-Ended fault rest h k = tt
after_session-Ended (ok (ws, gone)) rest h k = joined-Ended ws rest k
after_session-Ended (ok (ws, assertion)) rest h k = h
after_session-Ended (ok (ws, past_buffer)) rest h k = h
after_session-Ended (ok (ws, unfinished)) rest h k = h

-- However many network processes connect to waitNetwork, one after the other, and whatever they
-- write, the inner loop ends by itself for each of them: waitNetwork comes to the last one's end, or
-- an `assert` fails, a buffer overflows, or it faults.
pub wait_network-Ended :
    (site : Site) (sends : ℕ → ℕ → ℕ → ℕ → Bool) (t : List NbrEntry) (k : ℕ)
    (sessions : List (ℕ × List ℕ))
    → Ended (wait_network site sends t k sessions)
unfolding wait_network
wait_network-Ended site sends t k [] = λ e. cc
wait_network-Ended site sends t k ((fd, bytes) ∷ sessions) =
    let input = if is_negative fd then [] else bytes in
    after_session-Ended (serve site (sends k) t (suc (length input)) 0 input)
      (wait_network site sends t (suc k) sessions)
      (serve-Ended site (sends k) t (suc (length input)) 0 input (omega arith))
      (wait_network-Ended site sends t (suc k) sessions)
