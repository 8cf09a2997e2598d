-- ===== src/Cnpg.antt =====
-- internal/cnpg: the CloudNativePG resources that the provider builds and checks.
pub mod Types
pub mod Components
pub mod Status
pub mod Extensions
pub mod Quantities
pub mod Validate
pub mod Tls
pub mod Roles
