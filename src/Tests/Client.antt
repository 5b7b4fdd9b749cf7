-- ===== src/Tests/Client.antt =====
-- A client's send buffer.
use cs.Base.{
  ℕ, ◌*◌, ◌/◌, ◌≡◌, refl, List, [], ◌∷◌, true, false, some, ok, arith, take, replicate,
  length-replicate,
}
use cs.Client.Buffer.{
  SegBuf, null, at, SendBuffer, Output, send, start_timer, numbered, append_segment,
  sendbuffer_sending, sendbuffer_timeout, resend, sendbuffer_recv_ack, acked, connected,
  mrt_client_send, position, send_rest, sending_from, last_seq, behind, append_chunks, full_segment,
  append_node, or_new,
}
use cs.Client.Buffer.Window.{IsWindow}
use cs.Client.Buffer.Chunks.{Appended, mrt_client_send-IsWindow}
use cs.Client.Buffer.{ClientState, synsent, finwait}
use cs.Client.Handler.{ClientTcb}
use cs.Tests.Data.{data_of}

-- What mrt_client_sock leaves.
abbrev fresh : SendBuffer
fresh = record { next_seq = 0; chain = []; tail_set = false; unsent = null; unack = 0 }

fresh-IsWindow : IsWindow 0 fresh
fresh-IsWindow = record {
  contiguous = refl;
  tail = refl;
  narrow = omega arith;
  held = omega arith;
  unsent = unfold position in refl;
}

abbrev pub node_of : ℕ → List ℕ → SegBuf
node_of seq bytes = record { segment = data_of 4 seq bytes 1462; sent_time = 0 }

-- Two segments, of which the first is sent.
abbrev pub two : SendBuffer
two = record {
  next_seq = 4;
  chain = node_of 0 (104 ∷ 105 ∷ []) ∷ node_of 2 (106 ∷ 107 ∷ []) ∷ [];
  tail_set = true;
  unsent = at 1;
  unack = 1;
}

pub two-IsWindow : IsWindow 0 two
two-IsWindow = record {
  contiguous = (refl, (omega arith, (refl, (omega arith, refl))));
  tail = refl;
  narrow = omega arith;
  held = omega arith;
  unsent = unfold position in refl;
}

-- An acknowledgement of a segment that is not sent yet leaves sendBufunSent behind.
recv_ack_ahead :
    sendbuffer_recv_ack two 4
    ≡ ok (record {
      next_seq = 4;
      chain = [];
      tail_set = false;
      unsent = cs.Client.Buffer.dangling;
      unack = 4294967295;
    })
unfolding sendbuffer_recv_ack acked last_seq behind
recv_ack_ahead = refl

-- 1500 bytes, of which 36 are lost.
mrt_client_send-IsWindow_example :
    (b' : SendBuffer) × (outs : List Output) × (mrt_client_send connected 5 7
        (λ k. 7)
        fresh
        (replicate 1500 1)
        1500
      ≡ ok (some (b', outs)))
    × Appended 0 fresh (take (1500 / 1464 * 1464) (replicate 1500 1)) b'
mrt_client_send-IsWindow_example =
    mrt_client_send-IsWindow 0 5 7 (λ k. 7) fresh (replicate 1500 1) 1500 fresh-IsWindow
      (omega (arith, length-replicate {A = ℕ} 1500 1)) (omega arith) (omega arith)

-- A short message is not sent at all.
short_send : mrt_client_send connected 5 7 (λ k. 7) fresh (1 ∷ 2 ∷ 3 ∷ []) 3 ≡ ok (some (fresh, []))
unfolding mrt_client_send append_chunks sendbuffer_sending sending_from
short_send = refl

abbrev waiting : ClientState → ClientTcb
waiting s = record { svr_node = 2; svr_port = 5; state = s; buffer = fresh }
