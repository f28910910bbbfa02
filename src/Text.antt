-- ===== src/Text.antt =====
-- Texts as the JavaScript code handles them: lists of Unicode code points. The texts are taken to
-- be well formed: no lone surrogate occurs in them.
mod Basic
pub mod Split
pub mod Separated
pub mod Trim
pub use Basic.{Text, non_empty, IsFree, text_eq_iff}
unfoldable pub use Basic.{codes, join, replace, split, is_space, trim, text_eq}
