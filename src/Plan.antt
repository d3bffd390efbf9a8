-- ===== src/Plan.antt =====
-- quikode/subtask_schema.py and quikode/planner_validators.py: the planner's output and its checks.
pub mod Schema
pub mod Valid
pub mod Validators
pub mod Holders
pub mod Evidence
pub mod Findings
pub mod Extend
pub mod Stabilize
