-- ===== src/Wire/Frame/Cut.antt =====
-- The state machine against a description without states: cut the stream at the first "!#".
use cs.Base.{
  ℕ, suc, ◌+◌, ◌-◌, ◌≤◌, ◌<◌, ◌≡◌, refl, inl, inr, Option-cases, List, [], ◌∷◌, ◌++◌, Bool, false,
  ◌==◌, ◌&&◌, ltb, leb, if◌then◌else◌, length, take, Option, none, some, arith, append_assoc,
  append-nil, length-append, take-append,
}
use cs.Wire.Frame.{receiving, stop1, Frame, framed, closed, overflow, read_from}

-- Is `c`, followed by `cs`, the closing delimiter?
abbrev pub closes : ℕ → List ℕ → Bool
closes c [] = false
closes c (d ∷ cs) = c == b'!' && d == b'#'

abbrev pub cons_front : ℕ → Option (List ℕ × List ℕ) → Option (List ℕ × List ℕ)
cons_front c none = none
cons_front c (some (p, r)) = some (c ∷ p, r)

abbrev pub tail_of : List ℕ → List ℕ
tail_of [] = []
tail_of (c ∷ cs) = cs

-- What stands before the first "!#", and what stands behind it.
unfoldable pub cut : List ℕ → Option (List ℕ × List ℕ)
cut [] = none
cut (c ∷ cs) = if closes c cs then some ([], tail_of cs) else cons_front c (cut cs)

-- The outcome from a buffer that holds `buf`, given the cut of the stream and its length.
unfoldable pub outcome : ℕ → List ℕ → ℕ → Option (List ℕ × List ℕ) → Frame
outcome capacity buf n none = if leb (length buf + n) capacity then closed else overflow
outcome capacity buf n (some (p, r)) =
    if leb (length buf + length p + 2) capacity then framed (buf ++ p) r else overflow

-- Moving a byte from the stream into the buffer changes nothing.
outcome_shift :
    (capacity : ℕ) (buf : List ℕ) (c n : ℕ) (o : Option (List ℕ × List ℕ))
    → outcome capacity (buf ++ c ∷ []) n o ≡ outcome capacity buf (suc n) (cons_front c o)
unfolding outcome
outcome_shift capacity buf c n none = ground (arith, length-append buf (c ∷ []))
outcome_shift capacity buf c n (some (p, r)) =
    ground (arith, length-append buf (c ∷ []), append_assoc buf (c ∷ []) p)

-- A full buffer overflows at the next byte of the frame.
outcome_full :
    (capacity : ℕ) (buf : List ℕ) (n : ℕ) (o : Option (List ℕ × List ℕ))
    → capacity ≤ length buf
    → outcome capacity buf (suc n) o ≡ overflow
unfolding outcome
outcome_full capacity buf n none h = ground arith
outcome_full capacity buf n (some (p, r)) h = ground arith

module _ (capacity : ℕ) where
  at_end : (buf : List ℕ) (n : ℕ) → n + length buf ≤ capacity → closed ≡ outcome capacity buf n none
  unfolding outcome
  at_end buf n h = ground arith

  at_delimiter :
      (buf cs : List ℕ) (n : ℕ)
      → length buf < capacity
      → (if ltb (length (buf ++ b'!' ∷ [])) capacity
          then framed (take (length (buf ++ b'!' ∷ []) - 1) (buf ++ b'!' ∷ [])) cs
          else overflow)
        ≡ outcome capacity buf n (some ([], cs))
  unfolding outcome
  at_delimiter buf cs n h =
      ground (arith, length-append buf (b'!' ∷ []), append-nil buf, take-append buf (b'!' ∷ []))

  mutual
    unfolding read_from cut

    in_receiving :
        (cs buf : List ℕ)
        → length buf ≤ capacity
        → read_from capacity receiving buf cs ≡ outcome capacity buf (length cs) (cut cs)
    in_receiving [] buf h = at_end buf 0 (omega arith)
    in_receiving (c ∷ cs) buf h = ground (
      arith,
      outcome_full capacity buf (length cs) (cut (c ∷ cs)),
      length-append buf (c ∷ []),
      outcome_shift capacity buf c (length cs) (cut cs),
      in_stop1 cs buf,
      in_receiving cs (buf ++ c ∷ []),
    )

    in_stop1 :
        (cs buf : List ℕ)
        → length buf < capacity
        → read_from capacity stop1 (buf ++ b'!' ∷ []) cs
          ≡ outcome capacity buf (suc (length cs)) (cut (b'!' ∷ cs))
    in_stop1 [] buf h = at_end buf 1 (omega arith)
    in_stop1 (c ∷ cs) buf h =
        let held : List ℕ = buf ++ b'!' ∷ [] in
        ground (
          arith,
          at_delimiter buf cs (suc (suc (length cs))) h,
          outcome_full capacity held (length cs) (cut (c ∷ cs)),
          length-append buf (b'!' ∷ []),
          length-append held (c ∷ []),
          outcome_shift capacity buf b'!' (suc (length cs)) (cut (c ∷ cs)),
          outcome_shift capacity held c (length cs) (cut cs),
          in_stop1 cs held,
          in_receiving cs (held ++ c ∷ []),
        )

-- Once the opening "!&" is past, a state machine whose buffer has `size + 2` bytes ends as the
-- first "!#" of the stream says: with the bytes before it, and the stream behind it, if there are
-- at most `size`; with the end of the stream if there is no "!#" and the stream has at most `size
-- + 2` bytes; else with a write past its buffer.
pub read_from_lem :
    (size : ℕ) (cs : List ℕ)
    → read_from (size + 2) receiving [] cs ≡ outcome (size + 2) [] (length cs) (cut cs)
read_from_lem size cs = in_receiving (size + 2) cs [] (omega arith)

-- A payload without the closing delimiter is cut off exactly where the sender ended it.
pub cut-append : (p rest : List ℕ) → cut p ≡ none → cut (p ++ b'!' ∷ b'#' ∷ rest) ≡ some (p, rest)
unfolding cut
cut-append [] rest h = refl
cut-append (c ∷ []) rest h = ground arith
cut-append (c ∷ d ∷ p) rest h = ground (arith, cut-append (d ∷ p) rest)

-- A payload that holds the delimiter is cut at its own delimiter.
pub cut-append_inside :
    (p xs : List ℕ) {q r : List ℕ} → cut p ≡ some (q, r) → cut (p ++ xs) ≡ some (q, r ++ xs)
unfolding cut
cut-append_inside [] xs h = cc
cut-append_inside (c ∷ []) xs h = cc
cut-append_inside (c ∷ d ∷ p) xs h = elim (Option-cases (cut (d ∷ p))) [
  | inl e ↦ ground arith
  | inr ((q', r'), e) ↦ ground (arith, cut-append_inside (d ∷ p) xs e)
]

pub cut_shorter :
    (p : List ℕ) {q r : List ℕ} → cut p ≡ some (q, r) → length q + 2 + length r ≡ length p
unfolding cut
cut_shorter [] h = cc
cut_shorter (c ∷ []) h = cc
cut_shorter (c ∷ d ∷ p) h = elim (Option-cases (cut (d ∷ p))) [
  | inl e ↦ ground arith
  | inr ((q', r'), e) ↦ ground (arith, cut_shorter (d ∷ p) e)
]
