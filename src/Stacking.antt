-- ===== src/Stacking.antt =====
-- quikode/orchestration/stacking_helpers.py: the walks up the parents of a stacked task. `Walks` is
-- the code, `Cycle`, `Root` and `Depth` the proofs.
pub mod Walks
pub mod Climb
pub mod Cycle
pub mod Root
pub mod Depth
