-- ===== src/Audit.antt =====
-- The audit gauntlet before a pull request: its findings, its stages and the cycles over them.
pub mod Findings
pub mod Summary
pub mod Stages
pub mod Cycles
pub mod Parks
pub mod Valve
pub mod Opens
pub mod Stays
pub mod Ids
