-- ===== src/Retry.antt =====
-- quikode/net_retry.py: retries of a process with growing delays. `Backoff` is the code, `Bounds` the
-- proofs.
pub mod Backoff
pub mod Bounds
