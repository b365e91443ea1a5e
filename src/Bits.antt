-- ===== src/Bits.antt =====
-- `&`, `|` and `~` on words: laws of the digits, and of a mask for one two-bit field.
mod Digits
mod Fields
pub use Digits.{or-and, and-not, or_lt, and_le}
pub use Fields.*
