-- ===== src/Sim.antt =====
-- The load generator: apps/sim.
pub mod Server
