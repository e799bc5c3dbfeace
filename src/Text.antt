-- ===== src/Text.antt =====
-- Rust's `str` as the list of its code points, and the methods of `str` that the sources use.
-- `len` counts the bytes of the UTF-8 form, as in Rust; the other methods go by characters.
pub mod Base
pub mod Split
pub mod Number
pub mod Bytes
pub mod Utf8
