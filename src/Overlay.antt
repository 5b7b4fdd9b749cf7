-- ===== src/Overlay.antt =====
-- lab4/overlay: the process that holds the connections to the neighbours of a node.
pub mod Neighbors
pub mod Connect
pub mod Traffic
pub mod Process
