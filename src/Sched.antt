-- ===== src/Sched.antt =====
-- quikode/orchestration/scheduler.py: which tasks can start, and which of them starts first.
-- `Settings` and `Pick` are the code and `View` its use over the store; `Rank`, `Score`, `Best` and
-- `Eligible` and `Safe` are the proofs.
pub mod Settings
pub mod Rank
pub mod Pick
pub mod View
pub mod Score
pub mod Best
pub mod Eligible
pub mod Safe
