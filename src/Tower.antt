-- ===== src/Tower.antt =====
-- TowerCore (core/towercore): the control plane of the agent fleet.
mod Tests
pub mod Errors
pub mod Events
pub mod Stream
pub mod Gate
pub mod Anomaly
pub mod Cost
pub mod Registry
pub mod Replay
pub mod Service
