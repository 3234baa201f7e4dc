-- ===== src/Go.antt =====
-- What scia uses of Go's standard library, on text that is valid UTF-8 and read by characters.
mod Strings
mod Net
mod Path
mod Match
mod Fields
pub mod Http
pub mod Laws
pub mod PathLaws
pub mod CutLaws
pub mod PrefixLaws
pub mod LowerLaws
unfoldable pub use Strings.*
unfoldable pub use Net.*
unfoldable pub use Fields.*
unfoldable pub use Path.*
unfoldable pub use Match.{path_match}
