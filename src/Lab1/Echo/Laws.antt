-- ===== src/Lab1/Echo/Laws.antt =====
-- The messages that come back.
use cs.Base.{
  ℕ, min, zero, suc, ◌-◌, ◌<◌, ◌≤◌, ◌≡◌, refl, ap, ◌∙◌, List, [], ◌∷◌, ◌++◌, true, false, ◌==◌,
  is_negative, is_positive, ltb, if◌then◌else◌, length, take, drop, replicate, ok, fault, none,
  some, not, ◌&&◌, take-append_le, length-drop, All, All-take, arith, inl, inr, Bool-cases,
  length-take,
}
use cs.Lab1.Echo.{
  came, buffer_of, string_in, echo_bytes, child_echo, thread_main, select_round, client_prints,
}

-- A message that holds no 0, as the arguments of a program do.
abbrev pub IsString : List ℕ → Type 0
IsString m = All (λ c. 0 < c) m

string_in-zeros :
    (m : List ℕ) (n : ℕ)
    → IsString m
    → string_in (m ++ replicate n 0) ≡ (if ltb 0 n then ok m else fault)
unfolding string_in
string_in-zeros [] zero h = ground arith
string_in-zeros [] (suc n) h = ground arith
string_in-zeros (c ∷ cs) n h =
    let there : (c == 0) ≡ false = ground (arith, h.0) in
    let rest = string_in-zeros cs n h.1 in rw (there, rest) (ground arith)

take_short : (n : ℕ) (m : List ℕ) → length m ≤ n → take n m ≡ m
take_short zero [] h = refl
take_short zero (c ∷ cs) h = absurd (omega arith)
take_short (suc n) [] h = refl
take_short (suc n) (c ∷ cs) h = ap (λ t. c ∷ t) (take_short n cs (omega arith))

less : (l n : ℕ) → ltb l n ≡ true → l < n
less l n e = ground arith

not_less : (l n : ℕ) → ltb l n ≡ false → n ≤ l
not_less l n e = ground arith

room_left : (l g : ℕ) → g ≡ min 2000 l → l < 2000 → ltb 0 (2000 - g) ≡ true
room_left l g e h = let some_left : 0 < 2000 - g = omega arith in ground arith

no_room_left : (l g : ℕ) → g ≡ min 2000 l → 2000 ≤ l → ltb 0 (2000 - g) ≡ false
no_room_left l g e h = let none_left : 2000 - g ≡ 0 = omega arith in rw none_left (ground arith)

string_in-buffer_of :
    (m : List ℕ)
    → IsString m
    → string_in (buffer_of (came m)) ≡ (if ltb (length m) 2000 then ok m else fault)
unfolding buffer_of
string_in-buffer_of m h =
    let got = take 2000 m in
    let found = string_in-zeros got (2000 - length got) (All-take (λ c. 0 < c) 2000 m h) in
    elim (Bool-cases (ltb (length m) 2000)) [
      | inl short ↦
          let same : got ≡ m = take_short 2000 m (omega (arith, less (length m) 2000 short)) in
          let left =
            room_left (length m) (length got) (length-take 2000 m) (less (length m) 2000 short) in
          found ∙ rw (left, same, short) refl
      | inr long ↦
          let left =
            no_room_left (length m) (length got) (length-take 2000 m)
              (not_less (length m) 2000 long) in
          found ∙ rw (left, long) refl
    ]

-- The string behind the first byte of the buffer.
string_in-drop :
    (m : List ℕ)
    → IsString m
    → string_in (drop 1 (buffer_of (came m)))
      ≡ (if ltb (length m) 2000 then ok (drop 1 m) else fault)
unfolding buffer_of
string_in-drop [] h = string_in-zeros [] 1999 tt
string_in-drop (c ∷ cs) h =
    let got = take 1999 cs in
    let left = 2000 - suc (length got) in
    let found = string_in-zeros got left (All-take (λ c. 0 < c) 1999 cs h.1) in
    elim (Bool-cases (ltb (suc (length cs)) 2000)) [
      | inl short ↦
          let same : got ≡ cs =
            take_short 1999 cs (omega (arith, less (suc (length cs)) 2000 short)) in
          let some_left =
            room_left (suc (length cs)) (suc (length got)) (omega (arith, length-take 1999 cs))
              (less (suc (length cs)) 2000 short) in
          found ∙ rw (some_left, same, short) refl
      | inr long ↦
          let none_left =
            no_room_left (suc (length cs)) (suc (length got)) (omega (arith, length-take 1999 cs))
              (not_less (suc (length cs)) 2000 long) in
          found ∙ rw (none_left, long) refl
    ]

-- A short message stands at the front of the buffer.
take-buffer_of :
    (m : List ℕ) (n : ℕ)
    → ltb (length m) 2000 ≡ true
    → n ≤ length m
    → take n (buffer_of (came m)) ≡ take n m
unfolding buffer_of
take-buffer_of m n short h =
    let same : take 2000 m ≡ m = take_short 2000 m (omega (arith, less (length m) 2000 short)) in
    rw same (take-append_le n m (replicate (2000 - length m) 0) h)

client_prints_lem :
    (m : List ℕ)
    → IsString m
    → client_prints (came m)
      ≡ (if ltb (length m) 2000 then ok (take (length m - 1) m, m) else fault)
client_prints_lem m h =
    let read = string_in-buffer_of m h in
    let behind = string_in-drop m h in
    elim (Bool-cases (ltb (length m) 2000)) [
      | inl short ↦
          let front = take-buffer_of m (length m - 1) short (omega arith) in
          unfold client_prints in rw (behind, read, short, length-drop 1 m, front) refl
      | inr long ↦ unfold client_prints in rw (behind, long) refl
    ]

select_round_lem :
    (m : List ℕ) (connection socket_fd : ℕ)
    → IsString m
    → select_round connection socket_fd (came m) ≡ (
        if is_positive connection && not (is_negative socket_fd)
        then if ltb (length m) 2000 then ok (some (socket_fd, m)) else fault
        else ok none)
unfolding select_round
select_round_lem m connection socket_fd h =
    let read = string_in-buffer_of m h in
    elim (Bool-cases (is_positive connection)) [
      | inr idle ↦ rw idle refl
      | inl up ↦ elim (Bool-cases (is_negative socket_fd)) [
        | inl failed ↦ rw (up, failed) refl
        | inr opened ↦ elim (Bool-cases (ltb (length m) 2000)) [
          | inl short ↦ rw (up, opened, read, short) refl
          | inr long ↦ rw (up, opened, read, long) refl
        ]
      ]
    ]

-- Of a message that holds no 0 and that one read gives as far as the buffer holds it, if it is shorter than the buffer:
-- it comes back from each of the four servers as it was sent, from TCPServer_v4 exactly if `select`
-- finds the socket and `accept` gives one, and the client that gets it prints it, and writes all of
-- it but the last byte back. Of a message that is as long as the buffer or longer, the first server
-- sends back what fits, and the others, and the client for such an answer, read past their buffers,
-- TCPServer_v4 under the same condition.
pub echo_lem :
    (m : List ℕ) (connection socket_fd : ℕ)
    → IsString m
    → let whole = ltb (length m) 2000 in
      (echo_bytes (came m) ≡ ok (take 2000 m))
      × (child_echo (came m) ≡ (if whole then ok m else fault))
      × (thread_main socket_fd (came m) ≡ (if whole then ok (m, socket_fd) else fault))
      × (select_round connection socket_fd (came m) ≡ (
          if is_positive connection && not (is_negative socket_fd)
          then if whole then ok (some (socket_fd, m)) else fault
          else ok none))
      × (client_prints (came m) ≡ (if whole then ok (take (length m - 1) m, m) else fault))
echo_lem m connection socket_fd h =
    let read = string_in-buffer_of m h in
    (
      unfold echo_bytes in refl,
      unfold child_echo in read,
      elim (Bool-cases (ltb (length m) 2000)) [
        | inl short ↦ unfold thread_main in rw (read, short) refl
        | inr long ↦ unfold thread_main in rw (read, long) refl
      ],
      select_round_lem m connection socket_fd h,
      client_prints_lem m h,
    )
