-- ===== src/Json/RoundTrip.antt =====
-- `loads` on what `dumps` writes.
mod Strings
mod Pieces
mod Values
mod Ascii
pub use Strings.{IsChar, IsText}
pub use Pieces.{Writable, WritableItems, WritableFields}
pub use Values.{loads-dumps}
pub use Ascii.{dumps-IsText, append-IsText}
