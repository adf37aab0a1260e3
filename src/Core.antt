-- ===== src/Core.antt =====
-- include/aether/core and src/core: statuses, results, constants and configurations.
pub mod Status
pub mod Expected
pub mod Types
pub mod Config
pub mod Validate
