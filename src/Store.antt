-- ===== src/Store.antt =====
-- The store of quikode/state.py: `Rows` is its data, `Tasks` the operations on the tasks table
-- (quikode/store_tasks.py, quikode/store_review.py), the others are proofs.
pub mod Rows
pub mod Tasks
pub mod Lookup
pub mod Fire
pub mod Log
pub mod Orphans
pub mod History
