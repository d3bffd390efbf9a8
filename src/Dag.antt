-- ===== src/Dag.antt =====
-- quikode/dag.py: the roadmap graph. `Graph` is the code; `Order`, `Ready` and `Closure` the proofs.
pub mod Graph
pub mod Order
pub mod Ready
pub mod Closure
