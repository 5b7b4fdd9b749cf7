-- ===== src/Lab2.antt =====
-- lab2: the transport layer's first version, over one connection to an overlay process.
pub mod Server
pub mod Client
pub mod Segments
