-- ===== src/Cnpg/Extensions.antt =====
-- internal/cnpg/extensions.go, by concern: the table of first-class extensions, the version
-- arithmetic, the rules that validation enforces, the images and settings on the Cluster, and the
-- Database resource.
pub mod Table
pub mod Versions
pub mod Rules
pub mod Images
pub mod Database
