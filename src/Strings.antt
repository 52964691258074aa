-- ===== src/Strings.antt =====
-- Go strings as lists of code points, and what the program uses of packages strings and strconv.
-- Every text is taken to be valid UTF-8. Case mapping is that of the ASCII letters and of the
-- code points outside ASCII that map into ASCII; the other code points are left alone.
mod Basic
pub mod Space
pub mod Number
pub mod Split
pub use Basic.{Text, Text-cases, text_eq_iff, text_eq-eq, text_eq-ne, text_eq_refl, lit}
unfoldable pub use Basic.{text_eq, is_empty, lower_char, upper_char, to_lower, to_upper, equal_fold}
