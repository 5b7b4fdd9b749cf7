-- ===== src/Server.antt =====
-- lab4/server/mrt_server.c: the server side of the transport protocol.
pub mod Tcb
pub mod Sockets
pub mod Handler
