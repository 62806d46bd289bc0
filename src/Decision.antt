-- ===== src/Decision.antt =====
-- The decision engine (core/decisioncore).
mod Tests
pub mod Policies
pub mod Judgement
pub mod Service
pub mod Signals
pub mod Resolve
