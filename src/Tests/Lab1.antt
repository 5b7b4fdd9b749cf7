-- ===== src/Tests/Lab1.antt =====
-- Messages to the servers of lab1.
use cs.Base.{ℕ, ◌≡◌, refl, List, [], ◌∷◌, some, ok, arith}
use cs.Lab1.Echo.{
  failed, came, echo_bytes, child_echo, thread_main, select_round, client_prints, buffer_of,
  string_in,
}
use cs.Lab1.Echo.Laws.{echo_lem}

abbrev hi : List ℕ
hi = 104 ∷ 105 ∷ []

echo_lem_example :
    (echo_bytes (came hi) ≡ ok hi)
    × (child_echo (came hi) ≡ ok hi)
    × (thread_main 4 (came hi) ≡ ok (hi, 4))
    × (select_round 1 4 (came hi) ≡ ok (some (4, hi)))
    × (client_prints (came hi) ≡ ok (104 ∷ [], hi))
echo_lem_example = echo_lem hi 1 4 (omega arith, (omega arith, tt))

-- A message stops at its first 0, and a `read` that fails leaves the empty string.
cut_short : child_echo (came (104 ∷ 0 ∷ 105 ∷ [])) ≡ ok (104 ∷ [])
unfolding child_echo buffer_of string_in
cut_short = refl

nothing : child_echo failed ≡ ok []
unfolding child_echo buffer_of string_in
nothing = refl
