-- ===== src/Text.antt =====
-- Rust's `str` as the list of its Unicode scalar values, with the methods of `str` and `char` that
-- the sources call. The children hold the basic methods, `trim`, sets of texts, and texts that are
-- joined by a separator.
mod Basic
mod Trim
mod Sets
mod Separated
unfoldable pub use Basic.*
unfoldable pub use Trim.*
unfoldable pub use Sets.*
unfoldable pub use Separated.*
