-- ===== src/Fsm/Exits.antt =====
-- How a task leaves the active and the terminal states, and that no other state is a dead end.
use quikode.Prelude.{true, some, ◌≡◌, ◌⊎◌, ◌↔◌, arith, ◌≢◌}
use quikode.Fsm.Table.{
  State, Event, pending, rebasing_to_main, conflict_resolving, blocked, failed, crash, block_task,
  unresolved, parent_merged_or_conflict, retry_task, resume_task,
}
use quikode.Fsm.Rules.{transitions, is_active, is_terminal, is_retryable}

-- CRASH is accepted exactly in the active states, and leads to FAILED.
pub crash_iff_active : (s : State) → (transitions s crash ≡ some failed) ↔ (is_active s ≡ true)
unfolding transitions
crash_iff_active s = ground arith

-- The event by which an active state is left for BLOCKED.
abbrev pub blocking_event : State → Event
blocking_event conflict_resolving = unresolved
blocking_event _ = block_task

-- Every active state has an event that blocks it and can be rebased in at most one event;
-- BLOCK_TASK itself is accepted exactly where the state is not CONFLICT_RESOLVING.
pub active_exits :
    (s : State)
    → is_active s ≡ true
    → (transitions s (blocking_event s) ≡ some blocked)
      × ((s ≡ rebasing_to_main) ⊎ (transitions s parent_merged_or_conflict ≡ some rebasing_to_main))
      × ((transitions s block_task ≡ some blocked) ↔ (s ≢ conflict_resolving))
unfolding transitions
active_exits s active = ground arith

-- A terminal state is left only for PENDING, by RETRY_TASK or RESUME_TASK, from a retryable
-- state; so MERGED and MERGE_NODE_RETIRED are never left.
pub terminal_exits :
    (s u : State) (e : Event)
    → is_terminal s ≡ true
    → transitions s e ≡ some u
    → (u ≡ pending) × (is_retryable s ≡ true) × ((e ≡ retry_task) ⊎ (e ≡ resume_task))
unfolding transitions is_terminal is_retryable
terminal_exits s u e t h = ground arith
