-- ===== src/Lab1.antt =====
-- lab1: a client, and four servers that send back what it sends.
pub mod Echo
