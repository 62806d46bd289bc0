-- ===== src/Company.antt =====
-- The company simulator (core/companycore).
mod Tests
pub mod Inbox
pub mod Events
pub mod Ledger
