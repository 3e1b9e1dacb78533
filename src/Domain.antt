-- ===== src/Domain.antt =====
-- internal/domain/domain.go: the connector's own data, which every other package passes around.
-- A Go type over `string` with named constants is a data type with a constructor for each
-- constant and one more for any other text that the code can meet.
mod Float
mod Percent
mod Names
mod Records
pub mod Validate
mod Lifecycle
unfoldable pub use Float.*
unfoldable pub use Percent.{percent}
pub use Percent.{is_fraction, percent-is_fraction}
unfoldable pub use Names.*
pub use Records.*
unfoldable pub use Validate.*
unfoldable pub use Lifecycle.*
