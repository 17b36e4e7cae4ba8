-- ===== src/Game.antt =====
-- The library that knows the game: src/game and include/ht2mp/game.
pub mod Pattern
