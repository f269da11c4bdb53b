-- ===== src/Text.antt =====
-- The standard library's texts that the source uses: `format!` of texts, `to_string` of an
-- unsigned integer, equality, search, lines and trimming.
mod Decimal
mod Parse
mod Search
mod Lines
unfoldable pub use Decimal.*
unfoldable pub use Parse.*
unfoldable pub use Search.*
unfoldable pub use Lines.*
pub use Parse.Printed.{parse_uint-to_string, parse_i64-to_string, parse_i64-minus}
