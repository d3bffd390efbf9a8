-- ===== src/Topo.antt =====
-- The topological order that quikode/dag.py and quikode/subtask_schema.py both compute by
-- counting open dependencies: `Kahn` is the code, the others are proofs.
pub mod Kahn
pub mod Edges
pub mod Relax
pub mod Invariant
pub mod Correct
