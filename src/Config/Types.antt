-- ===== src/Config/Types.antt =====
-- The configuration's types, in the order of config.go. A Go map is a list of its entries in the
-- order in which a `range` over it goes; a pointer that may be nil is an `Option`.
mod Services
mod Providers
mod Root
pub use Services.*
pub use Providers.*
pub use Root.*
