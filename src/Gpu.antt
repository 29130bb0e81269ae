-- ===== src/Gpu.antt =====
-- src/core/gpu, as far as it calls no GPU.
pub mod Dispatch
