-- ===== src/Merge.antt =====
-- quikode/merge_node.py with the parent columns of quikode/store_subtasks.py: merge nodes, their
-- parents, and what a parent's progress does to them. `Parents` and `Nodes` are the code; `Sorted`,
-- `Lookup`, `Loop`, `Pruned` and `Settle` the proofs.
pub mod Parents
pub mod Nodes
pub mod Sorted
pub mod Lookup
pub mod Loop
pub mod Pruned
pub mod Settle
