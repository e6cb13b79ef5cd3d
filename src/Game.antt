-- ===== src/Game.antt =====
-- server/internal/game: the rules of the world.
pub mod Entity
pub mod Equipment
pub mod Loadout
pub mod Random
pub mod Reward
pub mod Stage
pub mod Config
pub mod Systems
pub mod Arena
pub mod World
pub mod Encounter
