-- ===== src/Css.antt =====
-- transformer/internal/css: the tokenizer of style sheets and the URLs in them.
pub mod Runes
pub mod Reads
pub mod Numbers
pub mod Switch
pub mod Tokenizer
mod Suffix
mod Ends
mod Strict
mod Numeric
mod Progress
mod Kinds
mod Next
pub mod Tiles
pub mod Preprocess
pub mod Urls
