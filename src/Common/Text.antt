-- ===== src/Common/Text.antt =====
-- Texts as lists of bytes, with the `str` and integer methods of Rust's library that the sources
-- call: equality, `split`, `splitn`, `strip_prefix`, `strip_suffix`, `parse`, `from_str_radix`.
mod Base
mod Split
mod Parse
unfoldable pub use Base.*
unfoldable pub use Split.*
unfoldable pub use Parse.*
