-- ===== src/Runtime.antt =====
-- The helpers of quikode/fsm_runtime.py: `Helpers` is the code, the others are proofs.
pub mod Helpers
pub mod Safety
pub mod Merging
pub mod Blocking
pub mod Stages
