-- ===== src/Client.antt =====
-- lab4/client: the transport layer's client.
pub mod Buffer
pub mod Handler
pub mod Sockets
