-- ===== src/Transport.antt =====
-- A client and a server of lab4 with the network between them.
pub mod System
pub mod Starved
pub mod Sent
pub mod Pieces
pub mod Sending
pub mod Answers
pub mod Invariant
pub mod Calls
pub mod Progress
pub mod Opening
pub mod Refinement
