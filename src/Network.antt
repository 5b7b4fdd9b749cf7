-- ===== src/Network.antt =====
-- lab4/network: the tables of the routing protocol and the threads of the MNP process.
pub mod Neighbors
pub mod Distance
pub mod Routes
pub mod Update
pub mod Handler
pub mod Daemon
pub mod Process
