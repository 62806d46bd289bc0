-- ===== src/Sim.antt =====
-- The simulated budget (core/simcore).
mod Tests
pub mod Fork
pub mod Ledger
pub mod Pipeline
pub mod Records
pub mod Service
