-- ===== src/Fsm.antt =====
-- The task lifecycle of quikode/fsm.py: `Table` and `Rules` are the code, the others are proofs.
pub mod Table
pub mod Rules
pub mod Gauntlet
pub mod Exits
pub mod Recovery
