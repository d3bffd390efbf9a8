-- ===== src/Walk.antt =====
-- The depth-first walks over dependencies and parents: `Loop` is the code, `Closure` the proofs.
pub mod Loop
pub mod Closure
