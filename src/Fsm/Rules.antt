-- ===== src/Fsm/Rules.antt =====
-- The transition function and crash recovery of quikode/fsm.py.
use quikode.Prelude.{
  Bool, true, false, ◌&&◌, ◌||◌, not, Option, none, some, List, [], ◌∷◌, Text, ◌==◌, find, Result,
  ok, raise, ◌>>=◌, if◌then◌else◌,
}
use quikode.Fsm.Table.{
  State, Event, listed_transition, state_eq, state_value, event_value, all_states, all_events,
  pending, provisioning, planning, doing_subtask, checking_subtask, triaging_subtask, committing,
  pushing, local_ci_checking, audit_local_ci, audit_rubric, audit_standards, audit_architecture,
  audit_behavior, fixup_planning, pr_opening, pending_ci, awaiting_review, rebasing_to_main,
  conflict_resolving, merge_node_ready, merge_node_retired, blocked, failed, aborted, block_task,
  parent_merged_or_conflict,
}

-- `_AUDIT_STAGE_STATES`.
unfoldable pub is_audit_stage : State → Bool
is_audit_stage audit_local_ci = true
is_audit_stage audit_rubric = true
is_audit_stage audit_standards = true
is_audit_stage audit_architecture = true
is_audit_stage audit_behavior = true
is_audit_stage _ = false

-- `ACTIVE_STATES`: a worker is running the task.
unfoldable pub is_active : State → Bool
unfolding is_audit_stage
is_active provisioning = true
is_active planning = true
is_active doing_subtask = true
is_active checking_subtask = true
is_active triaging_subtask = true
is_active committing = true
is_active pushing = true
is_active local_ci_checking = true
is_active fixup_planning = true
is_active pr_opening = true
is_active rebasing_to_main = true
is_active conflict_resolving = true
is_active s = is_audit_stage s

-- `TERMINAL_STATES`.
unfoldable pub is_terminal : State → Bool
is_terminal State.merged = true
is_terminal merge_node_retired = true
is_terminal blocked = true
is_terminal failed = true
is_terminal aborted = true
is_terminal _ = false

-- `POST_PR_STATES`.
unfoldable pub is_post_pr : State → Bool
is_post_pr pending_ci = true
is_post_pr awaiting_review = true
is_post_pr _ = false

-- `RETRYABLE_STATES`.
unfoldable pub is_retryable : State → Bool
is_retryable blocked = true
is_retryable failed = true
is_retryable aborted = true
is_retryable _ = false

-- `STACK_READY_STATES`.
unfoldable pub is_stack_ready : State → Bool
is_stack_ready pending_ci = true
is_stack_ready awaiting_review = true
is_stack_ready merge_node_ready = true
is_stack_ready _ = false

-- `TRANSITIONS.update(...)` keeps a key that is there and adds the others.
abbrev add_transition : Option State → Bool → State → Option State
add_transition (some t) adds target = some t
add_transition none adds target = if adds then some target else none

-- The first update: BLOCK_TASK from every active state but CONFLICT_RESOLVING.
unfoldable pub with_block : State → Event → Option State
unfolding listed_transition is_active state_eq
with_block s block_task =
    add_transition (listed_transition s block_task)
      (is_active s && not (state_eq s conflict_resolving)) blocked
with_block s e = listed_transition s e

-- `TRANSITIONS` after both updates; the second adds the rebase from every active or post-PR state.
unfoldable pub transitions : State → Event → Option State
unfolding with_block is_post_pr
transitions s parent_merged_or_conflict =
    add_transition (with_block s parent_merged_or_conflict)
      ((is_active s || is_post_pr s) && not (state_eq s rebasing_to_main)) rebasing_to_main
transitions s e = with_block s e

-- The exceptions of the state machine and of the store's task operations.
pub data Reason : Type 0 where
  unknown_state : Text → Reason
  unknown_event : Text → Reason
  not_valid : State → Event → Reason
  no_task : Text → Reason

pub data Failure : Type 0 where
  invalid_transition : Reason → Failure
  value_error : Text → Failure
  integrity_error : Text → Failure
  type_error : Failure

-- An argument of type `State | str` or `Event | str`.
pub data OrText (A : Type 0) : Type 0 where
  enum : A → OrText A
  text : Text → OrText A

or_raise : {A : Type 0} → Option A → Reason → Result Failure A
or_raise (some a) r = ok a
or_raise none r = raise (invalid_transition r)

unfoldable pub coerce_state : OrText State → Result Failure State
unfolding or_raise
coerce_state (enum s) = ok s
coerce_state (text t) = or_raise (find (λ s. state_value s == t) all_states) (unknown_state t)

unfoldable pub coerce_event : OrText Event → Result Failure Event
unfolding or_raise
coerce_event (enum e) = ok e
coerce_event (text t) = or_raise (find (λ e. event_value e == t) all_events) (unknown_event t)

unfoldable pub target_for_event : OrText State → OrText Event → Result Failure State
unfolding coerce_state coerce_event or_raise
target_for_event current event = do
  s ← coerce_state current
  e ← coerce_event event
  or_raise (transitions s e) (not_valid s e)

-- The columns that crash recovery writes.
pub data RecoveryUpdate : Type 0 where
  clear_branch clear_worktree_path clear_container_id resume_from_existing_subtasks : RecoveryUpdate

recovery_with_pr : Bool → State × List RecoveryUpdate
recovery_with_pr has_pr =
    if has_pr then (pending_ci, []) else (pending, resume_from_existing_subtasks ∷ [])

-- The branches of `recover_after_crash`, in their order.
pub recovery_of : State → Bool → State × List RecoveryUpdate
unfolding is_terminal is_post_pr is_audit_stage state_eq recovery_with_pr
recovery_of s has_pr =
    if is_terminal s || state_eq s pending
    then (s, [])
    else if is_post_pr s
    then (pending_ci, [])
    else if state_eq s provisioning
    then (pending, clear_branch ∷ clear_worktree_path ∷ clear_container_id ∷ [])
    else if state_eq s pr_opening
        || state_eq s rebasing_to_main
        || state_eq s conflict_resolving
        || is_audit_stage s
    then recovery_with_pr has_pr
    else (pending, resume_from_existing_subtasks ∷ [])

unfoldable pub recover_after_crash :
    OrText State → Bool → Result Failure (State × List RecoveryUpdate)
unfolding recovery_of coerce_state
recover_after_crash state has_pr = do s ← coerce_state state; ok (recovery_of s has_pr)
