-- ===== src/Common.antt =====
-- src/common: statuses and the configuration.
pub mod Status
pub mod Config
pub mod Logger
pub mod Time
