-- ===== src/Wire.antt =====
-- lab4/common: the delimited packets and segments on the TCP connections between processes.
pub mod Frame
pub mod Layout
pub mod Packets
pub mod Segments
