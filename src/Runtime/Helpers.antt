-- ===== src/Runtime/Helpers.antt =====
-- The helpers of quikode/fsm_runtime.py. Each reads the task's state and fires the event that
-- carries it on, or skips: the result is then `none`. Log messages are left out.
use quikode.Prelude.{
  Bool, Option, none, some, List, [], ◌∷◌, Text, codes, Result, ok, raise, if◌then◌else◌,
}
use quikode.Fsm.Table.{
  State, Event, pending, planning, doing_subtask, checking_subtask, triaging_subtask, committing,
  pushing, local_ci_checking, audit_local_ci, audit_rubric, audit_standards, audit_architecture,
  audit_behavior, fixup_planning, pr_opening, pending_ci, awaiting_review, rebasing_to_main,
  conflict_resolving, blocked, failed, aborted, state_eq, start_task, environment_ready, plan_valid,
  doer_done, subtask_passed, subtask_failed, retry_subtask, retry_exhausted, commit_created,
  more_subtasks, all_subtasks_done, local_ci_passed, local_ci_failed, audit_local_ci_passed,
  audit_local_ci_failed, audit_rubric_passed, audit_rubric_failed, audit_standards_passed,
  audit_standards_failed, audit_architecture_passed, audit_architecture_failed,
  audit_behavior_passed, audit_behavior_failed, ci_fixup_start, review_fixup_start,
  fixup_plan_valid, fixup_exhausted, pr_opened, ci_passed, merge_node_built,
  parent_merged_or_conflict, rebase_pushed, conflict, resolved, unresolved, abort, crash,
  block_task,
}
use quikode.Fsm.Rules.{enum, is_audit_stage, no_task, invalid_transition, type_error, Failure}
use quikode.Store.Rows.{Field, Store, Action, ◌>>=◌, ◌>>◌, return, throw}
use quikode.Store.Tasks.{get, apply_event, transition, from_result}

unfoldable pub current_state : Text → Action State
unfolding get
current_state task_id = do
  row ← get task_id
  from_result
      (elim row [ some r ↦ ok r.state | none ↦ raise (invalid_transition (no_task task_id)) ])

-- `except InvalidTransition: return None`; the failed event wrote nothing.
unfoldable pub or_skip : Result Failure State × Store → Result Failure (Option State) × Store
or_skip (ok t, s) = (ok (some t), s)
or_skip (raise (invalid_transition r), s) = (ok none, s)
or_skip (raise e, s) = (raise e, s)

-- `note or default`.
abbrev or_note : Option Text → Text → Option Text
or_note (some (c ∷ message)) default = some (c ∷ message)
or_note (some []) default = some default
or_note none default = some default

-- The pairs of `_AUDIT_STAGE_EVENTS`, `none` for a state that is no stage.
unfoldable pub audit_stage_event : State → Bool → Option Event
audit_stage_event audit_local_ci passed =
    some (if passed then audit_local_ci_passed else audit_local_ci_failed)
audit_stage_event audit_rubric passed =
    some (if passed then audit_rubric_passed else audit_rubric_failed)
audit_stage_event audit_standards passed =
    some (if passed then audit_standards_passed else audit_standards_failed)
audit_stage_event audit_architecture passed =
    some (if passed then audit_architecture_passed else audit_architecture_failed)
audit_stage_event audit_behavior passed =
    some (if passed then audit_behavior_passed else audit_behavior_failed)
audit_stage_event _ passed = none

-- What a helper does at a state: return the state, skip, fire an event, or call `apply_event` with
-- two values for its parameter `event`, which is a TypeError.
pub data Move : Type 0 where
  stay skip clash : Move
  fire : Event → Move

-- `event_by_state.get(state)`, with the return before it when the task is there already.
unfoldable pub doing_subtask_move : State → Move
doing_subtask_move doing_subtask = stay
doing_subtask_move planning = fire plan_valid
doing_subtask_move triaging_subtask = fire retry_subtask
doing_subtask_move fixup_planning = fire fixup_plan_valid
doing_subtask_move pushing = fire more_subtasks
doing_subtask_move _ = skip

unfoldable pub checking_subtask_move : State → Move
checking_subtask_move checking_subtask = stay
checking_subtask_move doing_subtask = fire doer_done
checking_subtask_move _ = skip

unfoldable pub triaging_subtask_move : State → Move
triaging_subtask_move triaging_subtask = stay
triaging_subtask_move checking_subtask = fire subtask_failed
triaging_subtask_move _ = skip

unfoldable pub committing_move : State → Move
committing_move checking_subtask = fire subtask_passed
committing_move _ = skip

unfoldable pub pushing_move : State → Move
pushing_move committing = fire commit_created
pushing_move _ = skip

unfoldable pub local_ci_checking_move : State → Move
local_ci_checking_move local_ci_checking = stay
local_ci_checking_move pushing = fire all_subtasks_done
local_ci_checking_move _ = skip

-- `_advance_audit_stage`, which the callers give one of the five audit stages as the expected state;
-- for another one `_AUDIT_STAGE_EVENTS` has no entry, and here nothing is done.
unfoldable pub advance_move : State → Bool → State → Move
unfolding state_eq audit_stage_event
advance_move expected passed state =
    if state_eq state expected
    then (elim (audit_stage_event expected passed) [ some e ↦ fire e | none ↦ skip ])
    else skip

unfoldable pub fixup_planning_move : State → Move
fixup_planning_move fixup_planning = stay
fixup_planning_move local_ci_checking = fire local_ci_failed
fixup_planning_move audit_local_ci = fire audit_local_ci_failed
fixup_planning_move audit_rubric = fire audit_rubric_failed
fixup_planning_move audit_standards = fire audit_standards_failed
fixup_planning_move audit_architecture = fire audit_architecture_failed
fixup_planning_move audit_behavior = fire audit_behavior_failed
fixup_planning_move _ = skip

unfoldable pub pr_opening_move : State → Move
pr_opening_move pr_opening = stay
pr_opening_move audit_behavior = fire audit_behavior_passed
pr_opening_move _ = skip

unfoldable pub pending_ci_move : State → Move
pending_ci_move pending_ci = stay
pending_ci_move pr_opening = fire pr_opened
pending_ci_move rebasing_to_main = fire rebase_pushed
pending_ci_move _ = skip

unfoldable pub awaiting_review_move : State → Move
awaiting_review_move awaiting_review = stay
awaiting_review_move pending_ci = fire ci_passed
awaiting_review_move _ = skip

unfoldable pub ci_fixup_move : State → Move
unfolding is_audit_stage
ci_fixup_move pending_ci = fire ci_fixup_start
ci_fixup_move awaiting_review = fire ci_fixup_start
ci_fixup_move s = if is_audit_stage s then stay else skip

unfoldable pub review_fixup_move : State → Move
unfolding is_audit_stage
review_fixup_move awaiting_review = fire review_fixup_start
review_fixup_move s = if is_audit_stage s then stay else skip

unfoldable pub conflict_resolving_move : State → Move
conflict_resolving_move rebasing_to_main = fire conflict
conflict_resolving_move _ = skip

-- `enter_audit_local_ci`, with the event that the caller may pass in `fields`: AWAITING_REVIEW takes
-- it out, while LOCAL_CI_CHECKING and PENDING_CI pass it on next to the event that they fire.
unfoldable pub audit_local_ci_move : Option Event → State → Move
audit_local_ci_move event audit_local_ci = stay
audit_local_ci_move none local_ci_checking = fire local_ci_passed
audit_local_ci_move (some e) local_ci_checking = clash
audit_local_ci_move none pending_ci = fire ci_fixup_start
audit_local_ci_move (some e) pending_ci = clash
audit_local_ci_move (some e) awaiting_review = fire e
audit_local_ci_move none awaiting_review = fire review_fixup_start
audit_local_ci_move event _ = skip

-- The helpers that read the state, and then return it, skip or fire one event.
pub data Helper : Type 0 where
  enter_doing_subtask enter_checking_subtask enter_triaging_subtask enter_committing : Helper
  enter_pushing enter_local_ci_checking enter_fixup_planning enter_pr_opening : Helper
  enter_pending_ci enter_awaiting_review enter_audit_cycle_for_ci_fixup : Helper
  enter_audit_cycle_for_review_fixup enter_conflict_resolving : Helper
  enter_audit_local_ci : Option Event → Helper
  advance_audit_stage : State → Bool → Helper

unfoldable pub move_of : Helper → State → Move
unfolding doing_subtask_move checking_subtask_move triaging_subtask_move committing_move
    pushing_move local_ci_checking_move fixup_planning_move pr_opening_move pending_ci_move
    awaiting_review_move ci_fixup_move review_fixup_move conflict_resolving_move audit_local_ci_move
    advance_move
move_of enter_doing_subtask = doing_subtask_move
move_of enter_checking_subtask = checking_subtask_move
move_of enter_triaging_subtask = triaging_subtask_move
move_of enter_committing = committing_move
move_of enter_pushing = pushing_move
move_of enter_local_ci_checking = local_ci_checking_move
move_of enter_fixup_planning = fixup_planning_move
move_of enter_pr_opening = pr_opening_move
move_of enter_pending_ci = pending_ci_move
move_of enter_awaiting_review = awaiting_review_move
move_of enter_audit_cycle_for_ci_fixup = ci_fixup_move
move_of enter_audit_cycle_for_review_fixup = review_fixup_move
move_of enter_conflict_resolving = conflict_resolving_move
move_of (enter_audit_local_ci event) = audit_local_ci_move event
move_of (advance_audit_stage expected passed) = advance_move expected passed

-- Carries a move out.
unfoldable pub carry_out : Text → Option Text → List Field → State → Move → Action (Option State)
carry_out task_id message fields state stay = return (some state)
carry_out task_id message fields state skip = return none
carry_out task_id message fields state clash = throw type_error
carry_out task_id message fields state (fire e) = do
  target ← apply_event task_id (enum e) message fields
  return (some target)

unfoldable pub call : Helper → Text → Option Text → List Field → Action (Option State)
unfolding carry_out
call helper task_id message fields = do
  state ← current_state task_id
  carry_out task_id message fields state (move_of helper state)

-- The two last events of `mark_merged` for a task in BLOCKED, FAILED or ABORTED.
unfoldable pub retry_and_mark :
    Text → Option Text → Option Text → List Field → Action (Option State)
retry_and_mark task_id bridge_note message fields = do
  apply_event task_id (enum Event.retry_task) bridge_note []
  target ← apply_event task_id (enum Event.mark_merged) message fields
  return (some target)

abbrev bridge_text : Text
bridge_text = codes "auto-merge via ancestry: bridging side/terminal state to MERGED"

-- `mark_merged` from the state that was read.
unfoldable pub mark_merged_from : Text → Option Text → List Field → State → Action (Option State)
unfolding is_audit_stage retry_and_mark
mark_merged_from task_id message fields State.merged = return (some State.merged)
mark_merged_from task_id message fields pending = do
  target ← apply_event task_id (enum Event.mark_merged) message fields
  return (some target)
mark_merged_from task_id message fields pending_ci = do
  apply_event task_id (enum ci_passed) message []
  target ← apply_event task_id (enum Event.merged) message fields
  return (some target)
mark_merged_from task_id message fields awaiting_review = do
  target ← apply_event task_id (enum Event.merged) message fields
  return (some target)
mark_merged_from task_id message fields conflict_resolving = do
  apply_event task_id (enum unresolved) (or_note message bridge_text) []
  retry_and_mark task_id (or_note message bridge_text) message fields
mark_merged_from task_id message fields rebasing_to_main = do
  apply_event task_id (enum block_task) (or_note message bridge_text) []
  retry_and_mark task_id (or_note message bridge_text) message fields
mark_merged_from task_id message fields blocked =
    retry_and_mark task_id (or_note message bridge_text) message fields
mark_merged_from task_id message fields failed =
    retry_and_mark task_id (or_note message bridge_text) message fields
mark_merged_from task_id message fields aborted =
    retry_and_mark task_id (or_note message bridge_text) message fields
mark_merged_from task_id message fields s =
    if is_audit_stage s
    then (do
      apply_event task_id (enum block_task) (or_note message bridge_text) []
      retry_and_mark task_id (or_note message bridge_text) message fields)
    else return none

unfoldable pub mark_merged : Text → Option Text → List Field → Action (Option State)
mark_merged task_id message fields = do
  state ← current_state task_id
  mark_merged_from task_id message fields state

unfoldable pub enter_rebasing_from : Text → Option Text → List Field → State → Action (Option State)
unfolding or_skip
enter_rebasing_from task_id message fields rebasing_to_main = return (some rebasing_to_main)
enter_rebasing_from task_id message fields conflict_resolving = do
  target ← apply_event task_id (enum resolved) message fields
  return (some target)
enter_rebasing_from task_id message fields _ =
    λ s. or_skip (apply_event task_id (enum parent_merged_or_conflict) message fields s)

unfoldable pub enter_rebasing_to_main : Text → Option Text → List Field → Action (Option State)
enter_rebasing_to_main task_id message fields = do
  state ← current_state task_id
  enter_rebasing_from task_id message fields state

-- `event_by_state.get(state, Event.BLOCK_TASK)` of `block_current`.
unfoldable pub blocking_event_of : State → Event
blocking_event_of triaging_subtask = retry_exhausted
blocking_event_of fixup_planning = fixup_exhausted
blocking_event_of conflict_resolving = unresolved
blocking_event_of _ = block_task

unfoldable pub block_current : Text → Option Text → List Field → Action (Option State)
block_current task_id message fields = do
  state ← current_state task_id
  λ s. or_skip (apply_event task_id (enum (blocking_event_of state)) message fields s)

-- The supervisor's way out: no event leads to PENDING_CI from everywhere.
unfoldable pub force_recover_to_pending_ci : Text → Option Text → List Field → Action (Option State)
unfolding current_state state_eq
force_recover_to_pending_ci task_id message fields = do
  state ← current_state task_id
  if state_eq state pending_ci then return (some state) else (do
    transition task_id pending_ci
        (or_note message (codes "supervisor force-recovery: bridging to PENDING_CI")) fields
    return (some pending_ci))

-- The helpers that fire their event in any state and raise where it is not valid:
-- `start_task`, `environment_ready`, `crash_current`, `abort_pending`, `pr_closed`, `retry_task`,
-- `resume_task` and `merge_node_built`.
pub data Direct : Type 0 where
  start_direct ready_direct crash_direct abort_direct pr_closed_direct : Direct
  retry_direct resume_direct merge_node_built_direct : Direct

unfoldable pub direct_event : Direct → Event
direct_event start_direct = start_task
direct_event ready_direct = environment_ready
direct_event crash_direct = crash
direct_event abort_direct = abort
direct_event pr_closed_direct = Event.pr_closed
direct_event retry_direct = Event.retry_task
direct_event resume_direct = Event.resume_task
direct_event merge_node_built_direct = merge_node_built

unfoldable pub call_direct : Direct → Text → Option Text → List Field → Action State
unfolding direct_event
call_direct helper task_id message fields =
    apply_event task_id (enum (direct_event helper)) message fields
