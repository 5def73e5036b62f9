-- ===== src/Text.antt =====
-- What the agent uses of Go's `strings` and `sort` packages.
mod Order
mod Trim
mod Slices
mod Numerals
unfoldable pub use Order.*
unfoldable pub use Trim.*
unfoldable pub use Slices.*
unfoldable pub use Numerals.*
