-- ===== src/Config.antt =====
-- internal/config/config.go: the configuration, its validation and the lookups in it.
pub mod Types
pub mod Env
pub mod Names
pub mod Platform
pub mod Inputs
pub mod Ids
pub mod Validate
pub mod Lookup
pub mod Request
pub use Types.*
