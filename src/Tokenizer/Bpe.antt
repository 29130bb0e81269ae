-- ===== src/Tokenizer/Bpe.antt =====
-- src/core/tokenizer/bpe: the merge rules and the merge step.
pub mod Table
pub mod Merge
pub mod Short
pub mod Long
