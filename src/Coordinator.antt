-- ===== src/Coordinator.antt =====
-- The session server: apps/coordinator.
pub mod Peers
pub mod Session
