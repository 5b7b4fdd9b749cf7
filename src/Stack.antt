-- ===== src/Stack.antt =====
-- The layers of lab4 put together: a segment on its way from one transport process to another.
pub mod Hop
pub mod Journey
