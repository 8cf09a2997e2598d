-- ===== src/Tests.antt =====
-- Concrete inputs, and the theorems applied to them.
pub mod Data
pub mod Cnpg
pub mod Extensions
pub mod Barman
pub mod Provider
pub mod Api
pub mod Sync
pub mod Deletion
