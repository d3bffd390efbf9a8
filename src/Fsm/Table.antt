-- ===== src/Fsm/Table.antt =====
-- Task states, events and the transition table of quikode/fsm.py.
use quikode.Prelude.{ℕ, Bool, List, [], ◌∷◌, Option, none, some, Text, codes, nat_eq}

pub data State : Type 0 where
  pending provisioning planning doing_subtask checking_subtask triaging_subtask committing : State
  pushing local_ci_checking audit_local_ci audit_rubric audit_standards audit_architecture : State
  audit_behavior fixup_planning pr_opening pending_ci awaiting_review rebasing_to_main : State
  conflict_resolving merged merge_node_ready merge_node_retired blocked failed aborted : State

pub data Event : Type 0 where
  start_task environment_ready plan_valid doer_done subtask_passed subtask_failed : Event
  retry_subtask retry_exhausted commit_created more_subtasks all_subtasks_done local_ci_passed :
      Event
  local_ci_failed audit_local_ci_passed audit_local_ci_failed audit_rubric_passed : Event
  audit_rubric_failed audit_standards_passed audit_standards_failed audit_architecture_passed :
      Event
  audit_architecture_failed audit_behavior_passed audit_behavior_failed initial_audit_start : Event
  ci_fixup_start review_fixup_start fixup_plan_valid fixup_exhausted pr_opened ci_passed : Event
  ci_failed changes_requested_received merged merge_node_built parent_advanced : Event
  all_parents_merged parent_merged_or_conflict rebase_pushed conflict resolved unresolved : Event
  abort crash retry_task resume_task mark_merged pr_closed block_task : Event

-- The literal entries of `TRANSITIONS`; `none` is a missing key.
unfoldable pub listed_transition : State → Event → Option State
listed_transition pending start_task = some provisioning
listed_transition provisioning environment_ready = some planning
listed_transition planning plan_valid = some doing_subtask
listed_transition doing_subtask doer_done = some checking_subtask
listed_transition checking_subtask subtask_passed = some committing
listed_transition checking_subtask subtask_failed = some triaging_subtask
listed_transition triaging_subtask retry_subtask = some doing_subtask
listed_transition triaging_subtask retry_exhausted = some blocked
listed_transition committing commit_created = some pushing
listed_transition pushing more_subtasks = some doing_subtask
listed_transition pushing all_subtasks_done = some local_ci_checking
listed_transition local_ci_checking local_ci_passed = some audit_local_ci
listed_transition local_ci_checking local_ci_failed = some fixup_planning
listed_transition audit_local_ci audit_local_ci_passed = some audit_rubric
listed_transition audit_local_ci audit_local_ci_failed = some fixup_planning
listed_transition audit_rubric audit_rubric_passed = some audit_standards
listed_transition audit_rubric audit_rubric_failed = some fixup_planning
listed_transition audit_standards audit_standards_passed = some audit_architecture
listed_transition audit_standards audit_standards_failed = some fixup_planning
listed_transition audit_architecture audit_architecture_passed = some audit_behavior
listed_transition audit_architecture audit_architecture_failed = some fixup_planning
listed_transition audit_behavior audit_behavior_passed = some pr_opening
listed_transition audit_behavior audit_behavior_failed = some fixup_planning
listed_transition pending_ci ci_fixup_start = some audit_local_ci
listed_transition awaiting_review ci_fixup_start = some audit_local_ci
listed_transition awaiting_review review_fixup_start = some audit_local_ci
listed_transition fixup_planning fixup_plan_valid = some doing_subtask
listed_transition fixup_planning fixup_exhausted = some blocked
listed_transition pr_opening pr_opened = some pending_ci
listed_transition pending_ci ci_passed = some awaiting_review
listed_transition awaiting_review Event.merged = some State.merged
listed_transition audit_behavior merge_node_built = some merge_node_ready
listed_transition merge_node_ready parent_advanced = some pending
listed_transition merge_node_ready all_parents_merged = some merge_node_retired
listed_transition pending_ci parent_merged_or_conflict = some rebasing_to_main
listed_transition awaiting_review parent_merged_or_conflict = some rebasing_to_main
listed_transition rebasing_to_main rebase_pushed = some pending_ci
listed_transition rebasing_to_main conflict = some conflict_resolving
listed_transition conflict_resolving resolved = some rebasing_to_main
listed_transition conflict_resolving unresolved = some blocked
listed_transition pending abort = some aborted
listed_transition provisioning crash = some failed
listed_transition planning crash = some failed
listed_transition doing_subtask crash = some failed
listed_transition checking_subtask crash = some failed
listed_transition triaging_subtask crash = some failed
listed_transition committing crash = some failed
listed_transition pushing crash = some failed
listed_transition local_ci_checking crash = some failed
listed_transition audit_local_ci crash = some failed
listed_transition audit_rubric crash = some failed
listed_transition audit_standards crash = some failed
listed_transition audit_architecture crash = some failed
listed_transition audit_behavior crash = some failed
listed_transition fixup_planning crash = some failed
listed_transition pr_opening crash = some failed
listed_transition rebasing_to_main crash = some failed
listed_transition conflict_resolving crash = some failed
listed_transition blocked retry_task = some pending
listed_transition failed retry_task = some pending
listed_transition aborted retry_task = some pending
listed_transition blocked resume_task = some pending
listed_transition failed resume_task = some pending
listed_transition pending mark_merged = some State.merged
listed_transition pending_ci pr_closed = some aborted
listed_transition awaiting_review pr_closed = some aborted
listed_transition _ _ = none

-- The position of a state in the enumeration, by which states are compared.
unfoldable pub state_index : State → ℕ
state_index pending = 0
state_index provisioning = 1
state_index planning = 2
state_index doing_subtask = 3
state_index checking_subtask = 4
state_index triaging_subtask = 5
state_index committing = 6
state_index pushing = 7
state_index local_ci_checking = 8
state_index audit_local_ci = 9
state_index audit_rubric = 10
state_index audit_standards = 11
state_index audit_architecture = 12
state_index audit_behavior = 13
state_index fixup_planning = 14
state_index pr_opening = 15
state_index pending_ci = 16
state_index awaiting_review = 17
state_index rebasing_to_main = 18
state_index conflict_resolving = 19
state_index State.merged = 20
state_index merge_node_ready = 21
state_index merge_node_retired = 22
state_index blocked = 23
state_index failed = 24
state_index aborted = 25

-- `a is b` for two states.
unfoldable pub state_eq : State → State → Bool
unfolding state_index
state_eq a b = nat_eq (state_index a) (state_index b)

-- The text of a state, `state.value`.
unfoldable pub state_value : State → Text
state_value pending = codes "pending"
state_value provisioning = codes "provisioning"
state_value planning = codes "planning"
state_value doing_subtask = codes "doing_subtask"
state_value checking_subtask = codes "checking_subtask"
state_value triaging_subtask = codes "triaging_subtask"
state_value committing = codes "committing"
state_value pushing = codes "pushing"
state_value local_ci_checking = codes "local_ci_checking"
state_value audit_local_ci = codes "audit_local_ci"
state_value audit_rubric = codes "audit_rubric"
state_value audit_standards = codes "audit_standards"
state_value audit_architecture = codes "audit_architecture"
state_value audit_behavior = codes "audit_behavior"
state_value fixup_planning = codes "fixup_planning"
state_value pr_opening = codes "pr_opening"
state_value pending_ci = codes "pending_ci"
state_value awaiting_review = codes "awaiting_review"
state_value rebasing_to_main = codes "rebasing_to_main"
state_value conflict_resolving = codes "conflict_resolving"
state_value State.merged = codes "merged"
state_value merge_node_ready = codes "merge_node_ready"
state_value merge_node_retired = codes "merge_node_retired"
state_value blocked = codes "blocked"
state_value failed = codes "failed"
state_value aborted = codes "aborted"

-- The text of an event, `event.value`.
unfoldable pub event_value : Event → Text
event_value start_task = codes "start_task"
event_value environment_ready = codes "environment_ready"
event_value plan_valid = codes "plan_valid"
event_value doer_done = codes "doer_done"
event_value subtask_passed = codes "subtask_passed"
event_value subtask_failed = codes "subtask_failed"
event_value retry_subtask = codes "retry_subtask"
event_value retry_exhausted = codes "retry_exhausted"
event_value commit_created = codes "commit_created"
event_value more_subtasks = codes "more_subtasks"
event_value all_subtasks_done = codes "all_subtasks_done"
event_value local_ci_passed = codes "local_ci_passed"
event_value local_ci_failed = codes "local_ci_failed"
event_value audit_local_ci_passed = codes "audit_local_ci_passed"
event_value audit_local_ci_failed = codes "audit_local_ci_failed"
event_value audit_rubric_passed = codes "audit_rubric_passed"
event_value audit_rubric_failed = codes "audit_rubric_failed"
event_value audit_standards_passed = codes "audit_standards_passed"
event_value audit_standards_failed = codes "audit_standards_failed"
event_value audit_architecture_passed = codes "audit_architecture_passed"
event_value audit_architecture_failed = codes "audit_architecture_failed"
event_value audit_behavior_passed = codes "audit_behavior_passed"
event_value audit_behavior_failed = codes "audit_behavior_failed"
event_value initial_audit_start = codes "initial_audit_start"
event_value ci_fixup_start = codes "ci_fixup_start"
event_value review_fixup_start = codes "review_fixup_start"
event_value fixup_plan_valid = codes "fixup_plan_valid"
event_value fixup_exhausted = codes "fixup_exhausted"
event_value pr_opened = codes "pr_opened"
event_value ci_passed = codes "ci_passed"
event_value ci_failed = codes "ci_failed"
event_value changes_requested_received = codes "changes_requested_received"
event_value Event.merged = codes "merged"
event_value merge_node_built = codes "merge_node_built"
event_value parent_advanced = codes "parent_advanced"
event_value all_parents_merged = codes "all_parents_merged"
event_value parent_merged_or_conflict = codes "parent_merged_or_conflict"
event_value rebase_pushed = codes "rebase_pushed"
event_value conflict = codes "conflict"
event_value resolved = codes "resolved"
event_value unresolved = codes "unresolved"
event_value abort = codes "abort"
event_value crash = codes "crash"
event_value retry_task = codes "retry_task"
event_value resume_task = codes "resume_task"
event_value mark_merged = codes "mark_merged"
event_value pr_closed = codes "pr_closed"
event_value block_task = codes "block_task"

abbrev pub all_states : List State
all_states =
    pending ∷ provisioning ∷ planning ∷ doing_subtask ∷ checking_subtask ∷ triaging_subtask
    ∷ committing ∷ pushing ∷ local_ci_checking ∷ audit_local_ci ∷ audit_rubric ∷ audit_standards
    ∷ audit_architecture ∷ audit_behavior ∷ fixup_planning ∷ pr_opening ∷ pending_ci
    ∷ awaiting_review ∷ rebasing_to_main ∷ conflict_resolving ∷ State.merged ∷ merge_node_ready
    ∷ merge_node_retired ∷ blocked ∷ failed ∷ aborted ∷ []

abbrev pub all_events : List Event
all_events =
    start_task ∷ environment_ready ∷ plan_valid ∷ doer_done ∷ subtask_passed ∷ subtask_failed
    ∷ retry_subtask ∷ retry_exhausted ∷ commit_created ∷ more_subtasks ∷ all_subtasks_done
    ∷ local_ci_passed ∷ local_ci_failed ∷ audit_local_ci_passed ∷ audit_local_ci_failed
    ∷ audit_rubric_passed ∷ audit_rubric_failed ∷ audit_standards_passed ∷ audit_standards_failed
    ∷ audit_architecture_passed ∷ audit_architecture_failed ∷ audit_behavior_passed
    ∷ audit_behavior_failed ∷ initial_audit_start ∷ ci_fixup_start ∷ review_fixup_start
    ∷ fixup_plan_valid ∷ fixup_exhausted ∷ pr_opened ∷ ci_passed ∷ ci_failed
    ∷ changes_requested_received ∷ Event.merged ∷ merge_node_built ∷ parent_advanced
    ∷ all_parents_merged ∷ parent_merged_or_conflict ∷ rebase_pushed ∷ conflict ∷ resolved
    ∷ unresolved ∷ abort ∷ crash ∷ retry_task ∷ resume_task ∷ mark_merged ∷ pr_closed ∷ block_task
    ∷ []
