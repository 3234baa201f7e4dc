-- ===== src/Config/Validate.antt =====
-- config.go, Config.Validate.
pub mod Server
pub mod Services
pub mod Rules
pub mod Parts
pub mod WellFormed
pub mod ServiceSound
pub mod Sound
pub mod StoreSound
pub mod Endpoints
pub mod ServerSound
pub mod Main
pub mod References
unfoldable pub use Server.*
unfoldable pub use Services.*
unfoldable pub use Rules.*
