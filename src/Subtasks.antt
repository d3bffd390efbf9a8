-- ===== src/Subtasks.antt =====
-- The subtasks table: quikode/store_subtasks.py, with the counters of quikode/store_forensics.py and
-- the planning cycles of quikode/store_planning_cycle.py. `Table` and `Cycles` are the code; `Keys`,
-- `Append` and `Replan` the proofs.
pub mod Table
pub mod Cycles
pub mod Keys
pub mod Append
pub mod Replan
