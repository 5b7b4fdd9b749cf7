-- ===== src/Server/Tcb.antt =====
-- One transport control block of lab4/server/mrt_server.h, and its receive buffer.
pub use cs.Base.{Run, ok, fault}
use cs.Base.{ℕ, ◌+◌, ◌-◌, List, ◌++◌, Bool, ◌&&◌, ltb, leb, u32, if◌then◌else◌, length, take, drop}
use cs.Wire.Layout.{Segment, max_seg_len}

pub data State : Type 0 where
  closed listening connected closewait : State

-- typedef struct svr_tcb. `recv_buf` is the block that the pointer stands for.
pub record Tcb : Type 0 where
  pub svr_node : ℕ
  pub svr_port : ℕ
  pub client_node : ℕ
  pub client_port : ℕ
  pub state : State
  pub expect_seq : ℕ
  pub recv_buf : List ℕ
  pub used_buf_len : ℕ

abbrev pub receive_buf_size : ℕ
receive_buf_size = 1000000

-- memcpy to `block + at`
unfoldable pub write_at : List ℕ → ℕ → List ℕ → List ℕ
write_at block at bytes = take at block ++ (bytes ++ drop (at + length bytes) block)

-- saveTobuffer: `true` is 1, `false` is -1.
unfoldable pub save_to_buffer : Tcb → Segment → Run (Bool × Tcb)
save_to_buffer t seg =
    let n = seg.header.length in
    if ltb (u32 (n + t.used_buf_len)) receive_buf_size
    then if leb n max_seg_len && leb (t.used_buf_len + n) (length t.recv_buf)
      then ok (
        Bool.true,
        record t {
          recv_buf = write_at t.recv_buf t.used_buf_len (take n seg.payload);
          used_buf_len = u32 (t.used_buf_len + n);
          expect_seq = u32 (n + seg.header.seq_num);
        },
      )
      else fault
    else ok (Bool.false, t)

-- How mrt_server_recv goes on: it sleeps and tries again, or it returns 1 with the bytes in `buf`,
-- or -1.
pub data Recv : Type 0 where
  sleeps : Recv
  copied : List ℕ → Tcb → Recv
  refused : Recv

-- One round of the loop in the state SVR_CONNECTED. The second memcpy moves the rest of the bytes
-- to the front of the block; it must not overlap what it copies from.
unfoldable pub recv_round : Tcb → ℕ → Run Recv
recv_round t n =
    let rest = t.used_buf_len - n in
    if ltb t.used_buf_len n
    then ok sleeps
    else if leb t.used_buf_len (length t.recv_buf) && leb rest n
    then ok (
        copied (take n t.recv_buf) (record t {
          recv_buf = write_at t.recv_buf 0 (take rest (drop n t.recv_buf));
          used_buf_len = rest;
        }))
    else fault

-- mrt_server_recv, up to its first sleep.
unfoldable pub mrt_server_recv : State → Tcb → ℕ → Run Recv
mrt_server_recv connected t n = recv_round t n
mrt_server_recv closewait t n = ok refused
mrt_server_recv listening t n = ok refused
mrt_server_recv closed t n = ok refused

-- closewait, when its second has passed.
unfoldable pub end_closewait : Tcb → Tcb
end_closewait t = record t { used_buf_len = 0; state = closed }
