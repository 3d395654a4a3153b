-- ===== src/Common/Text.antt =====
-- Texts as lists of code points, with what the code uses of Rust's `str`.
mod Chars
mod Split
mod Bytes
unfoldable pub use Chars.*
unfoldable pub use Split.*
unfoldable pub use Bytes.*
