-- ===== src/Trust.antt =====
-- Signed authority (core/trustcore).
mod Tests
pub mod Credentials
pub mod Crypto
pub mod Policy
pub mod Samples
pub mod Service
pub mod Store
