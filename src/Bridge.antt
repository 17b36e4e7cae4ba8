-- ===== src/Bridge.antt =====
-- bridge: the library inside the game process.
pub mod Registry
pub mod Queue
pub mod Horn
pub mod World
pub mod ActorList
