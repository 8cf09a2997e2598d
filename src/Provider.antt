-- ===== src/Provider.antt =====
-- The handlers of internal/provider, over the parts in internal/cnpg.
pub mod Types
pub mod Backup
pub mod Deletion
pub mod Connection
pub mod Pooler
pub mod Readiness
pub mod Desired
pub mod Validation
pub mod Mirror
pub mod PodMonitor
pub mod Sync
pub mod Registration
