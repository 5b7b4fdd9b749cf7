-- ===== src/Server/Sockets/Laws/Overflow.antt =====
-- The four bytes that mrt_server_sock allocates, against the data that a client sends.
use cs.Base.{
  ℕ, zero, suc, ◌+◌, ◌<◌, ◌≡◌, refl, sym, subst, List, [], ◌∷◌, true, false, ◌&&◌, ◌==◌, ltb, leb,
  u32, if-both, All, arith, length, length-take, take, Option, none, some, get_elem?, set,
}
use cs.Wire.Layout.{Segment, syn, data_segment, max_seg_len}
use cs.Server.Tcb.{closed, connected, Tcb, Run, ok, fault, save_to_buffer, receive_buf_size}
use cs.Server.Handler.{Output, after_save, data_received, on_connected, on_segment}
use cs.Server.Handler.Machine.{IfOk}
use cs.Server.Sockets.{
  Slot, null, live, Table, mrt_server_init, later, create_tcb_table, mrt_server_sock, block_of,
  write_back, mrt_server_accept, recv_at, counted, fetch_server_tcb, store, handle_at, seghandler,
  closewait_at, Event, sock, accept, recv, arrive, wait_over, close, after_sock, after_segment,
  on_event, on_events,
}
use cs.Server.Sockets.Laws.{on_events-keeps, mrt_server_close-keeps}
use cs.Server.Sockets.Laws.Small.{
  IsSmall, LeavesSmall, WritesSmall, OfSlot, on_segment-IsSmall, recv_at-IsSmall, accept-IsSmall,
  closewait_at-IsSmall,
}

-- All blocks of the table are small.
abbrev pub Small : Table → Type 0
Small table = All (OfSlot IsSmall) table

set-Small :
    (table : Table) (fd : ℕ) (t : Tcb) → Small table → IsSmall t → Small (set table fd (live t))
set-Small [] fd t h s = tt
set-Small (slot ∷ slots) zero t h s = (s, h.1)
set-Small (slot ∷ slots) (suc fd) t h s = (h.0, set-Small slots fd t h.1 s)

-- A block that the table holds.
abbrev OfBlock : (Tcb → Type 0) → Run Tcb → Type 0
OfBlock P fault = Unit
OfBlock P (ok t) = P t

block_of-IsSmall :
    (table : Table) (fd : ℕ) → Small table → OfBlock IsSmall (block_of (get_elem? table fd))
unfolding block_of
block_of-IsSmall [] fd h = tt
block_of-IsSmall (null ∷ slots) zero h = tt
block_of-IsSmall (live t ∷ slots) zero h = h.0
block_of-IsSmall (slot ∷ slots) (suc fd) h = block_of-IsSmall slots fd h.1

written-Small :
    (table : Table) (fd : ℕ) (r : Run (Option Tcb))
    → Small table
    → WritesSmall r
    → IfOk Small (write_back fd table r)
unfolding write_back
written-Small table fd fault h w = tt
written-Small table fd (ok none) h w = h
written-Small table fd (ok (some t)) h w = set-Small table fd t h w

-- A call that keeps a block small keeps the table small.
write_back-Small :
    (table : Table) (fd : ℕ) (f : Run Tcb → Run (Option Tcb)) (r : Run Tcb)
    → Small table
    → f fault ≡ fault
    → ((t : Tcb) → IsSmall t → WritesSmall (f (ok t)))
    → OfBlock IsSmall r
    → IfOk Small (write_back fd table (f r))
write_back-Small table fd f fault h stuck keeps s =
    written-Small table fd (f fault) h (rw (stuck, WritesSmall) tt)
write_back-Small table fd f (ok t) h stuck keeps s = written-Small table fd (f (ok t)) h (keeps t s)

-- The block that fetch_server_TCB finds.
abbrev OfFetch : (Tcb → Type 0) → Option (ℕ × Tcb) → Type 0
OfFetch P none = Unit
OfFetch P (some (fd, t)) = P t

counted-OfFetch : (P : Tcb → Type 0) (r : Option (ℕ × Tcb)) → OfFetch P r → OfFetch P (counted r)
unfolding counted
counted-OfFetch P none h = tt
counted-OfFetch P (some (fd, t)) h = h

fetch-IsSmall :
    (port : ℕ) (table : Table) → Small table → OfFetch IsSmall (fetch_server_tcb port table)
unfolding fetch_server_tcb
fetch-IsSmall port [] h = tt
fetch-IsSmall port (null ∷ slots) h =
    counted-OfFetch IsSmall (fetch_server_tcb port slots) (fetch-IsSmall port slots h.1)
fetch-IsSmall port (live t ∷ slots) h =
    if-both (OfFetch IsSmall) (t.svr_port == port) _ _ h.0
      (counted-OfFetch IsSmall (fetch_server_tcb port slots) (fetch-IsSmall port slots h.1))

store-Small :
    (table : Table) (fd : ℕ) (r : Run (Tcb × List Output))
    → Small table
    → LeavesSmall r
    → IfOk Small (after_segment (store table fd r))
unfolding store after_segment
store-Small table fd fault h s = tt
store-Small table fd (ok (t, out)) h s = set-Small table fd t h s

handle_at-Small :
    (table : Table) (src : ℕ) (seg : Segment) (r : Option (ℕ × Tcb))
    → Small table
    → OfFetch IsSmall r
    → IfOk Small (after_segment (handle_at table src seg r))
unfolding handle_at
handle_at-Small table src seg none h s = unfold after_segment in tt
handle_at-Small table src seg (some (fd, t)) h s =
    store-Small table fd (on_segment t.state t src seg) h (on_segment-IsSmall t.state t src seg s)

-- The table that create_TCB_table makes.
abbrev OfSock : (Table → Type 0) → Option (ℕ × Table) → Type 0
OfSock P none = Unit
OfSock P (some (fd, table)) = P table

later-Small :
    (slot : Slot) (r : Option (ℕ × Table))
    → OfSlot IsSmall slot
    → OfSock Small r
    → OfSock Small (later slot r)
unfolding later
later-Small slot none s h = tt
later-Small slot (some (fd, table)) s h = (s, h)

create-Small :
    (block : Tcb) (table : Table)
    → IsSmall block
    → Small table
    → OfSock Small (create_tcb_table block table)
unfolding create_tcb_table
create-Small block [] s h = tt
create-Small block (null ∷ slots) s h = (s, h.1)
create-Small block (live t ∷ slots) s h =
    later-Small (live t) (create_tcb_table block slots) h.0 (create-Small block slots s h.1)

after_sock-Small :
    (table : Table) (r : Option (ℕ × Table))
    → Small table
    → OfSock Small r
    → Small (after_sock table r)
unfolding after_sock
after_sock-Small table none h s = h
after_sock-Small table (some (fd, table')) h s = s

on_event-Small : (table : Table) (event : Event) → Small table → IfOk Small (on_event table event)
unfolding on_event
on_event-Small table (sock node block memory port) h =
    after_sock-Small table (mrt_server_sock node block memory port table) h (
      unfold mrt_server_sock in
      create-Small
        (record block {
          svr_port = port;
          state = closed;
          svr_node = node;
          used_buf_len = 0;
          recv_buf = take 4 memory;
        })
        table (record { size = omega (arith, length-take 4 memory); used = omega arith }) h)
on_event-Small table (accept fd) h =
    write_back-Small table fd mrt_server_accept (block_of (get_elem? table fd)) h
      (unfold mrt_server_accept in refl) accept-IsSmall (block_of-IsSmall table fd h)
on_event-Small table (recv fd n) h =
    write_back-Small table fd (recv_at n) (block_of (get_elem? table fd)) h (unfold recv_at in refl)
      (λ t. recv_at-IsSmall t n) (block_of-IsSmall table fd h)
on_event-Small table (arrive src seg) h =
    unfold seghandler in
    handle_at-Small table src seg (fetch_server_tcb seg.header.dest_port table) h
      (fetch-IsSmall seg.header.dest_port table h)
on_event-Small table (wait_over fd) h =
    write_back-Small table fd closewait_at (block_of (get_elem? table fd)) h
      (unfold closewait_at in refl) closewait_at-IsSmall (block_of-IsSmall table fd h)
on_event-Small table (close fd) h = mrt_server_close-keeps Small table fd h

-- Every run of the server's calls, from mrt_server_init on, keeps every block small.
on_events-Small :
    (events : List Event) (table : Table)
    → on_events (ok mrt_server_init) events ≡ ok table
    → Small table
on_events-Small events table e =
    let all =
      on_events-keeps Small on_event-Small (ok mrt_server_init) events (
        unfold mrt_server_init in (tt, (tt, (tt, (tt, (tt, (tt, (tt, (tt, (tt, (tt, tt))))))))))) in
    subst (IfOk Small) e all

-- A piece of data of more than four bytes, in the order of the stream, overflows the buffer.
data_received-IsSmall_fault :
    (t : Tcb) (seg : Segment)
    → IsSmall t
    → seg.header.seq_num ≡ t.expect_seq
    → 4 < seg.header.length
    → seg.header.length < 65536
    → data_received t seg ≡ fault
data_received-IsSmall_fault t seg s e large short =
    let n = seg.header.length in
    let next : (seg.header.seq_num == t.expect_seq) ≡ true = ground arith in
    let room : ltb (u32 (n + t.used_buf_len)) receive_buf_size ≡ true =
      ground (arith, s.size, s.used) in
    let past : (leb n max_seg_len && leb (t.used_buf_len + n) (length t.recv_buf)) ≡ false =
      ground (arith, s.size) in
    unfold data_received save_to_buffer after_save in rw (next, room, past) refl

-- After any sequence of calls and segments, from mrt_server_init on, that does not fault,
-- seghandler faults when the client of a connected socket sends, in the order of the stream, a
-- DATA segment of more than four bytes, its length being an `unsigned short`.
pub seghandler-fault :
    (events : List Event) (table : Table) (fd src : ℕ) (t : Tcb) (seg : Segment)
    → on_events (ok mrt_server_init) events ≡ ok table
    → fetch_server_tcb seg.header.dest_port table ≡ some (fd, t)
    → t.state ≡ connected
    → t.client_port ≡ seg.header.src_port
    → t.client_node ≡ src
    → seg.header.type ≡ data_segment
    → seg.header.seq_num ≡ t.expect_seq
    → 4 < seg.header.length
    → seg.header.length < 65536
    → seghandler table src seg ≡ fault
seghandler-fault events table fd src t seg run found up port node is_data next large short =
    let small =
      subst (OfFetch IsSmall) found
        (fetch-IsSmall seg.header.dest_port table (on_events-Small events table run)) in
    let lost = data_received-IsSmall_fault t seg small next large short in
    let own : (t.client_port == seg.header.src_port && t.client_node == src) ≡ true =
      ground arith in
    let no_syn : (seg.header.type == syn) ≡ false = ground arith in
    let yes_data : (seg.header.type == data_segment) ≡ true = ground arith in
    let handled : on_segment t.state t src seg ≡ fault =
      subst (λ s. on_segment s t src seg ≡ fault) (sym up)
        (unfold on_segment on_connected in rw (own, no_syn, yes_data, lost) refl) in
    unfold seghandler handle_at store in rw (found, handled) refl
