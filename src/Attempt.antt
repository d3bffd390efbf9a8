-- ===== src/Attempt.antt =====
-- The attempts at one subtask: why a retry happened, when retries are a storm, and the loop of
-- doer, checker and triage over the stores.
pub mod Classify
pub mod Storms
pub mod State
pub mod Check
pub mod Loop
pub mod Steps
pub mod Rounds
pub mod Passes
pub mod Closer
pub mod Ends
pub mod Window
pub mod Layers
pub mod Sets
pub mod Holds
pub mod Turns
pub mod Finishes
