-- ===== src/Residency.antt =====
-- The residency plan, src/core/residency/plan.h and plan.cpp: the packer of ranges into buffers, and
-- the three pools that the plan fills.
pub mod Packer
pub mod Model
pub mod Plan
pub mod Routes
