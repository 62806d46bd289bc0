-- ===== src/Adaptive.antt =====
-- The adaptive planner (core/adaptivecore).
mod Tests
pub mod Checks
pub mod Damping
pub mod Detection
pub mod Events
pub mod Plans
pub mod Worlds
