-- ===== src/Lab1/Echo.antt =====
-- lab1/TCPServer_v1.c to TCPServer_v4.c and TCPClient.c: one message, and what is written for it.
pub mod Laws
use cs.Base.{
  ℕ, zero, suc, ◌+◌, ◌-◌, List, [], ◌∷◌, ◌++◌, Bool, ◌==◌, is_negative, is_positive, if◌then◌else◌,
  length, take, drop, replicate, minus_one, Run, ok, fault, and_then, Option, none, some,
}

-- What a call of `read` or `recv` gives: it fails, or there are these bytes to read.
pub data Came : Type 0 where
  failed : Came
  came : List ℕ → Came

-- BuffSize
abbrev pub buff_size : ℕ
buff_size = 2000

-- The cleared buffer, after a call that reads at most its size.
unfoldable pub buffer_of : Came → List ℕ
buffer_of failed = replicate buff_size 0
buffer_of (came bytes) =
    let got = take buff_size bytes in got ++ replicate (buff_size - length got) 0

-- The bytes of a buffer before its first 0, as strlen finds them; none is a read past it.
unfoldable pub string_in : List ℕ → Run (List ℕ)
string_in [] = fault
string_in (c ∷ cs) =
    let rest = string_in cs in if c == 0 then ok [] else and_then rest (λ s. ok (c ∷ s))

-- What TCPServer_v1 sends back: as many bytes as have come. If `recv` fails, it sends -1 bytes.
unfoldable pub echo_bytes : Came → Run (List ℕ)
echo_bytes failed = fault
echo_bytes (came bytes) = ok (take buff_size bytes)

-- What the child process of TCPServer_v2 writes to its socket: `strlen(buffer)` bytes.
unfoldable pub child_echo : Came → Run (List ℕ)
child_echo c = string_in (buffer_of c)

-- ThreadMain of TCPServer_v3: what is written, and the descriptor that is closed, for the descriptor
-- that the variable of main holds by then.
unfoldable pub thread_main : ℕ → Came → Run (List ℕ × ℕ)
thread_main socket c = and_then (string_in (buffer_of c)) (λ s. ok (s, socket))

-- A round of the loop of TCPServer_v4: `select` and `accept` return these values, and `c` comes from
-- the new socket, the only one in the set then. The descriptor written to, and the bytes.
unfoldable pub select_round : ℕ → ℕ → Came → Run (Option (ℕ × List ℕ))
select_round connection socket_fd c =
    let answer = and_then (string_in (buffer_of c)) (λ s. Run.ok (some (socket_fd, s))) in
    if is_positive connection then if is_negative socket_fd then ok none else answer else ok none

-- AcceptTCP, for what `accept` and `getsockname` answer.
unfoldable pub accept_tcp : ℕ → Bool → ℕ
accept_tcp client_fd named =
    if is_negative client_fd then minus_one else if named then client_fd else minus_one

-- CreateTCPServerSocket, for what `socket`, `bind` and `listen` answer.
unfoldable pub create_tcp_server_socket : ℕ → Bool → Bool → ℕ
create_tcp_server_socket server_fd binds listens =
    if is_negative server_fd
    then minus_one
    else if binds
    then if listens then server_fd else minus_one
    else minus_one

-- What TCPClient does with the answer in its buffer: it writes back as many of its bytes as
-- `strlen(RecieveMessage + 1)` counts, and prints it as a string.
unfoldable pub client_prints : Came → Run (List ℕ × List ℕ)
client_prints c =
    let buffer = buffer_of c in
    and_then (string_in (drop 1 buffer))
      (λ s. and_then (string_in buffer) (λ m. ok (take (length s) buffer, m)))
