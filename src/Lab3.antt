-- ===== src/Lab3.antt =====
-- lab3: the overlay process's first version, and a network process that only sends route updates.
pub mod Topology
pub mod Overlay
pub mod Network
