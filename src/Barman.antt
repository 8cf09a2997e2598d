-- ===== src/Barman.antt =====
-- internal/cnpg/barman: backups through the Barman Cloud plugin.
pub mod Types
pub mod Names
pub mod Plugin
pub mod Schedule
pub mod ObjectStore
pub mod Restore
