-- ===== src/Server/Sockets/Laws/Small.antt =====
-- The buffers of the sockets, and what the first data does to them.
use cs.Base.{
  ℕ, ◌+◌, ◌-◌, ◌≤◌, ◌≡◌, inl, inr, List, Bool, true, false, ◌&&◌, ◌==◌, ltb, leb, u32, if-both,
  arith, Bool-cases, length, length-take, length-drop, take, drop, Option, none, some,
}
use cs.Wire.Layout.{Segment, syn, fin, data_segment, max_seg_len}
use cs.Server.Tcb.{
  State, closed, listening, connected, closewait, Tcb, Run, ok, fault, save_to_buffer,
  receive_buf_size, recv_round, mrt_server_recv, end_closewait, write_at,
}
use cs.Server.Handler.{
  Output, segment_recv, acknowledge, after_save, data_received, on_connected, on_listening,
  on_segment,
}
use cs.Server.Handler.Stream.{length-write_at}
use cs.Server.Handler.Machine.{IfOk}
use cs.Server.Sockets.{
  Slot, null, live, accept_from, mrt_server_accept, left_by, recv_at, closewait_in, closewait_at,
}

-- A block whose buffer has at most four bytes, all the used ones among them.
pub record IsSmall (t : Tcb) : Type 0 where
  pub size : length t.recv_buf ≤ 4
  pub used : t.used_buf_len ≤ length t.recv_buf

abbrev pub OfSlot : (Tcb → Type 0) → Slot → Type 0
OfSlot P null = Unit
OfSlot P (live t) = P t

save-IsSmall :
    (t : Tcb) (seg : Segment) → IsSmall t → IfOk (λ r. IsSmall r.1) (save_to_buffer t seg)
save-IsSmall t seg s =
    let n = seg.header.length in
    let bytes = take n seg.payload in
    elim (Bool-cases (ltb (u32 (n + t.used_buf_len)) receive_buf_size)) [
      | inr full ↦ unfold save_to_buffer in rw (full, IfOk) s
      | inl room ↦
          elim (Bool-cases (leb n max_seg_len && leb (t.used_buf_len + n) (length t.recv_buf))) [
            | inr past ↦ unfold save_to_buffer in rw (room, past, IfOk) tt
            | inl inside ↦
                let same : length (write_at t.recv_buf t.used_buf_len bytes) ≡ length t.recv_buf =
                  length-write_at t.recv_buf bytes t.used_buf_len
                    (ground (arith, length-take n seg.payload)) in
                unfold save_to_buffer in
                rw (room, inside, IfOk)
                  (record { size = rw same s.size; used = rw same (ground (arith, s.size)) })
          ]
    ]

segment_recv-IsSmall : (t : Tcb) (seg : Segment) → IsSmall t → IsSmall (segment_recv t seg).0
segment_recv-IsSmall t seg s = elim (Bool-cases (seg.header.type == syn)) [
  | inl e ↦ unfold segment_recv in rw e (record { size = s.size; used = s.used })
  | inr e ↦ elim (Bool-cases (seg.header.type == fin)) [
    | inl f ↦ unfold segment_recv in rw (e, f) s
    | inr f ↦ unfold segment_recv in rw (e, f) s
  ]
]

after_save-IsSmall :
    (r : Run (Bool × Tcb)) → IfOk (λ r. IsSmall r.1) r → IfOk (λ r. IsSmall r.0) (after_save r)
unfolding after_save acknowledge
after_save-IsSmall fault h = tt
after_save-IsSmall (ok (true, t)) h = h
after_save-IsSmall (ok (false, t)) h = h

-- Of a step of a block: the block that it leaves is small.
abbrev pub LeavesSmall : Run (Tcb × List Output) → Type 0
LeavesSmall r = IfOk (λ r. IsSmall r.0) r

data_received-IsSmall : (t : Tcb) (seg : Segment) → IsSmall t → LeavesSmall (data_received t seg)
data_received-IsSmall t seg s = elim (Bool-cases (seg.header.seq_num == t.expect_seq)) [
  | inl e ↦
      unfold data_received in
      rw (e, LeavesSmall) (after_save-IsSmall (save_to_buffer t seg) (save-IsSmall t seg s))
  | inr e ↦ unfold data_received in rw (e, LeavesSmall) (unfold acknowledge in s)
]

on_connected-IsSmall :
    (t : Tcb) (src : ℕ) (seg : Segment) → IsSmall t → LeavesSmall (on_connected t src seg)
unfolding on_connected
on_connected-IsSmall t src seg s =
    if-both LeavesSmall (t.client_port == seg.header.src_port && t.client_node == src) _ _
      (if-both LeavesSmall (seg.header.type == syn) _ _ (segment_recv-IsSmall t seg s) (
        if-both LeavesSmall (seg.header.type == data_segment) _ _ (data_received-IsSmall t seg s) (
          if-both LeavesSmall (seg.header.type == fin) _ _
            (segment_recv-IsSmall (record t { state = closewait }) seg
              (record { size = s.size; used = s.used }))
            s)))
      s

pub on_segment-IsSmall :
    (s : State) (t : Tcb) (src : ℕ) (seg : Segment)
    → IsSmall t
    → LeavesSmall (on_segment s t src seg)
unfolding on_segment on_listening
on_segment-IsSmall connected t src seg s = on_connected-IsSmall t src seg s
on_segment-IsSmall closed t src seg s = s
on_segment-IsSmall listening t src seg s =
    let t1 = record t { client_node = src; client_port = seg.header.src_port } in
    let m = segment_recv-IsSmall t1 seg (record { size = s.size; used = s.used }) in
    record { size = m.size; used = m.used }
on_segment-IsSmall closewait t src seg s =
    if-both LeavesSmall (seg.header.type == fin) _ _ (segment_recv-IsSmall t seg s) s

-- Of a call that may write to the block: what it writes is small.
abbrev pub WritesSmall : Run (Option Tcb) → Type 0
WritesSmall fault = Unit
WritesSmall (ok none) = Unit
WritesSmall (ok (some t)) = IsSmall t

recv_round-IsSmall : (t : Tcb) (n : ℕ) → IsSmall t → WritesSmall (left_by (recv_round t n))
recv_round-IsSmall t n s =
    let rest = t.used_buf_len - n in
    let moved = take rest (drop n t.recv_buf) in
    elim (Bool-cases (ltb t.used_buf_len n)) [
      | inl less ↦ unfold recv_round left_by in rw (less, WritesSmall) tt
      | inr more ↦ elim (Bool-cases (leb t.used_buf_len (length t.recv_buf) && leb rest n)) [
        | inr over ↦ unfold recv_round left_by in rw (more, over, WritesSmall) tt
        | inl fine ↦
            let same : length (write_at t.recv_buf 0 moved) ≡ length t.recv_buf =
              length-write_at t.recv_buf moved 0
                (ground (arith, length-take rest (drop n t.recv_buf), length-drop n t.recv_buf)) in
            unfold recv_round left_by in
            rw (more, fine, WritesSmall)
              (record { size = rw same s.size; used = rw same (omega (arith, s.used)) })
      ]
    ]

pub recv_at-IsSmall : (t : Tcb) (n : ℕ) → IsSmall t → WritesSmall (recv_at n (ok t))
unfolding recv_at
recv_at-IsSmall t n s = elim t.state as (λ st. WritesSmall (left_by (mrt_server_recv st t n))) [
  | connected ↦ unfold mrt_server_recv in recv_round-IsSmall t n s
  | closewait ↦ unfold mrt_server_recv left_by in tt
  | listening ↦ unfold mrt_server_recv left_by in tt
  | closed ↦ unfold mrt_server_recv left_by in tt
]

pub accept-IsSmall : (t : Tcb) → IsSmall t → WritesSmall (mrt_server_accept (ok t))
unfolding mrt_server_accept accept_from
accept-IsSmall t s = elim t.state as (λ st. WritesSmall (ok (accept_from st t))) [
  | connected ↦ tt
  | closewait ↦ tt
  | listening ↦ tt
  | closed ↦ record { size = s.size; used = s.used }
]

pub closewait_at-IsSmall : (t : Tcb) → IsSmall t → WritesSmall (closewait_at (ok t))
unfolding closewait_at closewait_in end_closewait
closewait_at-IsSmall t s = elim t.state as (λ st. WritesSmall (ok (closewait_in st t))) [
  | connected ↦ tt
  | closewait ↦ record { size = s.size; used = omega arith }
  | listening ↦ tt
  | closed ↦ tt
]
