-- ===== src/Picker.antt =====
-- The orchestrator's choice of the next task: quikode/orchestration/candidates.py and `_pick_next` of
-- quikode/orchestration/runner.py. `Candidates` and `Next` are the code, `Ways`,
-- `Acyclic` and `Total` the proofs.
pub mod Candidates
pub mod Next
pub mod Ways
pub mod Acyclic
pub mod Total
