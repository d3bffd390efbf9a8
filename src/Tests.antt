-- ===== src/Tests.antt =====
-- Concrete runs: the theorems at inputs that exercise the code.
pub mod Machine
pub mod Tasks
pub mod Graphs
pub mod Plans
pub mod Stacks
pub mod Merges
pub mod Runs
pub mod Attempts
pub mod Audits
