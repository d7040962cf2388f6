-- ===== src/Core.antt =====
-- The configuration of the core: internal/core/config.go.
pub mod Mapping
pub mod Request
pub mod Config
pub mod Closed
