-- ===== src/Examples.antt =====
-- Small files and plans, on which the theorems are applied.
mod Gguf
mod Residency
mod Services
mod Routes
mod Arch
mod Plan
mod Preflight
mod Bpe
mod Arrays
