-- ===== src/Memory.antt =====
-- Memory that says how sure it is (core/memorycore).
mod Tests
pub mod Contradiction
pub mod Facts
pub mod Forgetting
pub mod Recall
pub mod Store
pub mod Service
