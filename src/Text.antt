-- ===== src/Text.antt =====
-- Texts as lists of character codes, with the functions of Go's package strings that the program
-- calls. The letters are ASCII, as host names, keys and addresses are; `to_lower`, `to_upper` and
-- `trim_space` go by the ASCII tables.
mod Basic
mod Laws
mod Affixes
mod Decimal
unfoldable pub use Basic.*
pub use Laws.*
pub use Affixes.*
unfoldable pub use Decimal.*
