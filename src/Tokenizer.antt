-- ===== src/Tokenizer.antt =====
-- src/core/tokenizer, as far as it is modelled.
pub mod Unicode
pub mod Stream
pub mod Bpe
