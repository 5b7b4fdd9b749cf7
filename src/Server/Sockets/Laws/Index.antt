-- ===== src/Server/Sockets/Laws/Index.antt =====
-- The descriptors that mrt_server_sock hands out.
use cs.Base.{
  ℕ, zero, suc, ◌+◌, ◌<◌, ◌≡◌, refl, sym, ap, subst, ◌∙◌, List, [], ◌∷◌, true, false, ltb,
  if◌then◌else◌, if-both, ◌==◌, arith, Option, none, some, get_elem?, set, min,
}
use cs.Wire.Layout.{Segment}
use cs.Server.Tcb.{Tcb, Run, ok, fault}
use cs.Server.Handler.{Output, on_segment}
use cs.Server.Handler.Machine.{IfOk}
use cs.Server.Sockets.Laws.{mrt_server_close-keeps}
use cs.Server.Sockets.{
  Slot, null, live, Table, max_connections, mrt_server_init, later, create_tcb_table,
  mrt_server_sock, block_of, write_back, mrt_server_accept, recv_at, counted, fetch_server_tcb,
  store, handle_at, seghandler, closewait_at, Event, sock, accept, recv, arrive, wait_over, close,
  after_sock, after_segment, on_event, on_events,
}

-- `k` entries that point to blocks, then NULL entries up to `n` in all.
abbrev pub IsFilled : ℕ → ℕ → Table → Type 0
IsFilled k n [] = (k ≡ 0) × (n ≡ 0)
IsFilled k zero (slot ∷ slots) = ⊥
IsFilled zero (suc n) (null ∷ slots) = IsFilled zero n slots
IsFilled (suc k) (suc n) (null ∷ slots) = ⊥
IsFilled zero (suc n) (live t ∷ slots) = ⊥
IsFilled (suc k) (suc n) (live t ∷ slots) = IsFilled k n slots

-- How many calls of mrt_server_sock an event is, and how many a sequence has.
abbrev opens : Event → ℕ
opens (sock node block memory port) = 1
opens (accept fd) = 0
opens (recv fd n) = 0
opens (arrive src seg) = 0
opens (wait_over fd) = 0
opens (close fd) = 0

abbrev pub socks : List Event → ℕ
socks [] = 0
socks (event ∷ events) = opens event + socks events

-- What create_TCB_table finds in a table that is filled.
abbrev Created : ℕ → ℕ → Option (ℕ × Table) → Type 0
Created k n none = k ≡ n
Created k n (some (fd, table)) = (k < n) × ((fd ≡ k) × IsFilled (suc k) n table)

later-Created :
    (k n : ℕ) (t : Tcb) (r : Option (ℕ × Table))
    → Created k n r
    → Created (suc k) (suc n) (later (live t) r)
unfolding later
later-Created k n t none c = ap suc c
later-Created k n t (some (fd, table)) c = (omega (arith, c.0), (ap suc c.1.0, c.1.1))

create-Created :
    (k n : ℕ) (block : Tcb) (table : Table)
    → IsFilled k n table
    → Created k n (create_tcb_table block table)
unfolding create_tcb_table
create-Created k n block [] h = h.0 ∙ sym h.1
create-Created k zero block (null ∷ slots) h = elim h [ ]
create-Created k zero block (live t ∷ slots) h = elim h [ ]
create-Created zero (suc n) block (null ∷ slots) h = (omega arith, (refl, h))
create-Created (suc k) (suc n) block (null ∷ slots) h = elim h [ ]
create-Created zero (suc n) block (live t ∷ slots) h = elim h [ ]
create-Created (suc k) (suc n) block (live t ∷ slots) h =
    later-Created k n t (create_tcb_table block slots) (create-Created k n block slots h)

-- There is a block at `fd`.
abbrev Holds : Table → ℕ → Type 0
Holds [] fd = ⊥
Holds (null ∷ slots) zero = ⊥
Holds (live t ∷ slots) zero = Unit
Holds (slot ∷ slots) (suc fd) = Holds slots fd

set-IsFilled :
    (k n : ℕ) (table : Table) (fd : ℕ) (t : Tcb)
    → Holds table fd
    → IsFilled k n table
    → IsFilled k n (set table fd (live t))
set-IsFilled k n [] fd t at h = h
set-IsFilled k zero (slot ∷ slots) fd t at h = elim h [ ]
set-IsFilled k (suc n) (null ∷ slots) zero t at h = elim at [ ]
set-IsFilled zero (suc n) (null ∷ slots) (suc fd) t at h = set-IsFilled zero n slots fd t at h
set-IsFilled (suc k) (suc n) (null ∷ slots) (suc fd) t at h = elim h [ ]
set-IsFilled zero (suc n) (live t' ∷ slots) fd t at h = elim h [ ]
set-IsFilled (suc k) (suc n) (live t' ∷ slots) zero t at h = h
set-IsFilled (suc k) (suc n) (live t' ∷ slots) (suc fd) t at h = set-IsFilled k n slots fd t at h

written-IsFilled :
    (k n : ℕ) (table : Table) (fd : ℕ) (r : Run (Option Tcb))
    → Holds table fd
    → IsFilled k n table
    → IfOk (IsFilled k n) (write_back fd table r)
unfolding write_back
written-IsFilled k n table fd fault at h = tt
written-IsFilled k n table fd (ok none) at h = h
written-IsFilled k n table fd (ok (some t)) at h = set-IsFilled k n table fd t at h

-- Of a read of the table: it faults, or there is a block at `fd`.
abbrev HoldsIfOk : Table → ℕ → Run Tcb → Type 0
HoldsIfOk table fd fault = Unit
HoldsIfOk table fd (ok t) = Holds table fd

moved :
    (slot : Slot) (slots : Table) (fd : ℕ) (r : Run Tcb)
    → HoldsIfOk slots fd r
    → HoldsIfOk (slot ∷ slots) (suc fd) r
moved slot slots fd fault h = tt
moved null slots fd (ok t) h = h
moved (live t') slots fd (ok t) h = h

block_of-Holds : (table : Table) (fd : ℕ) → HoldsIfOk table fd (block_of (get_elem? table fd))
block_of-Holds [] fd = unfold block_of in tt
block_of-Holds (null ∷ slots) zero = unfold block_of in tt
block_of-Holds (live t ∷ slots) zero = unfold block_of in tt
block_of-Holds (slot ∷ slots) (suc fd) =
    moved slot slots fd (block_of (get_elem? slots fd)) (block_of-Holds slots fd)

-- A call through a socket leaves as many entries filled.
call-IsFilled :
    (k n : ℕ) (table : Table) (fd : ℕ) (f : Run Tcb → Run (Option Tcb)) (r : Run Tcb)
    → HoldsIfOk table fd r
    → f fault ≡ fault
    → IsFilled k n table
    → IfOk (IsFilled k n) (write_back fd table (f r))
call-IsFilled k n table fd f fault at stuck h = unfold write_back in rw (stuck, IfOk) tt
call-IsFilled k n table fd f (ok t) at stuck h = written-IsFilled k n table fd (f (ok t)) at h

-- Of a search: there is a block where it ends.
abbrev Found : Table → Option (ℕ × Tcb) → Type 0
Found table none = Unit
Found table (some (fd, t)) = Holds table fd

counted-Found :
    (slot : Slot) (slots : Table) (r : Option (ℕ × Tcb))
    → Found slots r
    → Found (slot ∷ slots) (counted r)
unfolding counted
counted-Found slot slots none h = tt
counted-Found null slots (some (fd, t)) h = h
counted-Found (live t') slots (some (fd, t)) h = h

fetch-Found : (port : ℕ) (table : Table) → Found table (fetch_server_tcb port table)
unfolding fetch_server_tcb
fetch-Found port [] = tt
fetch-Found port (null ∷ slots) =
    counted-Found null slots (fetch_server_tcb port slots) (fetch-Found port slots)
fetch-Found port (live t ∷ slots) =
    if-both (Found (live t ∷ slots)) (t.svr_port == port) _ _ tt
      (counted-Found (live t) slots (fetch_server_tcb port slots) (fetch-Found port slots))

store-IsFilled :
    (k n : ℕ) (table : Table) (fd : ℕ) (r : Run (Tcb × List Output))
    → Holds table fd
    → IsFilled k n table
    → IfOk (IsFilled k n) (after_segment (store table fd r))
unfolding store after_segment
store-IsFilled k n table fd fault at h = tt
store-IsFilled k n table fd (ok (t, out)) at h = set-IsFilled k n table fd t at h

handle_at-IsFilled :
    (k n : ℕ) (table : Table) (src : ℕ) (seg : Segment) (r : Option (ℕ × Tcb))
    → Found table r
    → IsFilled k n table
    → IfOk (IsFilled k n) (after_segment (handle_at table src seg r))
unfolding handle_at
handle_at-IsFilled k n table src seg none at h = unfold after_segment in tt
handle_at-IsFilled k n table src seg (some (fd, t)) at h =
    store-IsFilled k n table fd (on_segment t.state t src seg) at h

-- The number of entries filled after `k` calls of mrt_server_sock.
abbrev filled : ℕ → ℕ
filled k = min k max_connections

sock-IsFilled :
    (k : ℕ) (table : Table) (r : Option (ℕ × Table))
    → Created (filled k) 10 r
    → IsFilled (filled k) 10 table
    → IsFilled (filled (suc k)) 10 (after_sock table r)
unfolding after_sock
sock-IsFilled k table none c h = subst (λ i. IsFilled i 10 table) (omega (arith, c)) h
sock-IsFilled k table (some (fd, table')) c h =
    subst (λ i. IsFilled i 10 table') (omega (arith, c.0)) c.1.1

-- The number of calls of mrt_server_sock after an event.
abbrev after : ℕ → Event → ℕ
after k (sock node block memory port) = suc k
after k (accept fd) = k
after k (recv fd n) = k
after k (arrive src seg) = k
after k (wait_over fd) = k
after k (close fd) = k

after_lem : (k : ℕ) (event : Event) → after k event ≡ k + opens event
after_lem k (sock node block memory port) = omega arith
after_lem k (accept fd) = omega arith
after_lem k (recv fd n) = omega arith
after_lem k (arrive src seg) = omega arith
after_lem k (wait_over fd) = omega arith
after_lem k (close fd) = omega arith

on_event-IsFilled :
    (k : ℕ) (table : Table) (event : Event)
    → IsFilled (filled k) 10 table
    → IfOk (IsFilled (filled (after k event)) 10) (on_event table event)
unfolding on_event
on_event-IsFilled k table (sock node block memory port) h =
    sock-IsFilled k table (mrt_server_sock node block memory port table)
      (unfold mrt_server_sock in create-Created (filled k) 10 _ table h) h
on_event-IsFilled k table (accept fd) h =
    call-IsFilled (filled k) 10 table fd mrt_server_accept (block_of (get_elem? table fd))
      (block_of-Holds table fd) (unfold mrt_server_accept in refl) h
on_event-IsFilled k table (recv fd n) h =
    call-IsFilled (filled k) 10 table fd (recv_at n) (block_of (get_elem? table fd))
      (block_of-Holds table fd) (unfold recv_at in refl) h
on_event-IsFilled k table (arrive src seg) h =
    unfold seghandler in
    handle_at-IsFilled (filled k) 10 table src seg (fetch_server_tcb seg.header.dest_port table)
      (fetch-Found seg.header.dest_port table) h
on_event-IsFilled k table (wait_over fd) h =
    call-IsFilled (filled k) 10 table fd closewait_at (block_of (get_elem? table fd))
      (block_of-Holds table fd) (unfold closewait_at in refl) h
on_event-IsFilled k table (close fd) h = mrt_server_close-keeps (IsFilled (filled k) 10) table fd h

on_events-IsFilled :
    (k : ℕ) (r : Run Table) (events : List Event)
    → IfOk (IsFilled (filled k) 10) r
    → IfOk (IsFilled (filled (k + socks events)) 10) (on_events r events)
unfolding on_events
on_events-IsFilled k fault events h = tt
on_events-IsFilled k (ok table) [] h =
    let same : k ≡ k + 0 = omega arith in subst (λ i. IsFilled (filled i) 10 table) same h
on_events-IsFilled k (ok table) (event ∷ events) h =
    let rest = on_events (on_event table event) events in
    let sum : (after k event) + socks events ≡ k + (opens event + socks events) =
      omega (arith, after_lem k event) in
    subst (λ i. IfOk (IsFilled (filled i) 10) rest) sum
      (on_events-IsFilled (after k event) (on_event table event) events
        (on_event-IsFilled k table event h))

-- The descriptor that a call returns.
abbrev pub descriptor : Option (ℕ × Table) → Option ℕ
descriptor none = none
descriptor (some (fd, table)) = some fd

Created-descriptor :
    (k : ℕ) (r : Option (ℕ × Table))
    → Created (filled k) 10 r
    → descriptor r ≡ (if ltb k 10 then some k else none)
Created-descriptor k none c = let past : ltb k 10 ≡ false = ground arith in rw past refl
Created-descriptor k (some (fd, table)) c =
    let below : ltb k 10 ≡ true = ground (arith, c.0) in
    rw below (ap some (omega (arith, c.0, c.1.0)))

-- After any sequence of segments, ends of waits and calls, of mrt_server_close too, from
-- mrt_server_init on, that does not fault, mrt_server_sock returns the number of earlier calls of it
-- while that is below 10, and -1 from then on: no entry is used twice.
pub mrt_server_sock-socks :
    (events : List Event) (table : Table) (node : ℕ) (block : Tcb) (memory : List ℕ) (port : ℕ)
    → on_events (ok mrt_server_init) events ≡ ok table
    → descriptor (mrt_server_sock node block memory port table)
      ≡ (if ltb (socks events) 10 then some (socks events) else none)
mrt_server_sock-socks events table node block memory port e =
    let n = socks events in
    let init : IsFilled 0 10 mrt_server_init = unfold mrt_server_init in (refl, refl) in
    let same : 0 + n ≡ n = omega arith in
    let full : IsFilled (filled n) 10 table =
      subst (λ i. IsFilled (filled i) 10 table) same
        (subst (IfOk (IsFilled (filled (0 + n)) 10)) e
          (on_events-IsFilled 0 (ok mrt_server_init) events init)) in
    Created-descriptor n (mrt_server_sock node block memory port table)
      (unfold mrt_server_sock in create-Created (filled n) 10 _ table full)
