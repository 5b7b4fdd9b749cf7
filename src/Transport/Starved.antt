-- ===== src/Transport/Starved.antt =====
-- What a connection with the receive buffer of mrt_server_sock delivers.
use cs.Base.{◌<◌, ◌≡◌, length}
use cs.Server.Tcb.{Tcb}
use cs.Server.Handler as Server
use cs.Transport.System.{System}

-- An empty buffer with no room for a whole segment.
pub record IsStarved (t : Tcb) : Type 0 where
  pub empty : t.used_buf_len ≡ 0
  pub tight : length t.recv_buf < 1464
