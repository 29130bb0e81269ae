-- ===== src/Gguf.antt =====
-- The GGUF reader, src/core/gguf: checked arithmetic, the format's tables, the byte source, the
-- reader of the file's index, the index it fills, and the array readers.
pub mod Checked
pub mod Types
pub mod Source
pub mod Sorting
pub mod Action
pub mod Reader
pub mod Parse
pub mod Index
pub mod Arrays
