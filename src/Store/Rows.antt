-- ===== src/Store/Rows.antt =====
-- The rows of the tasks table and of the state log, and statements that may raise.
-- The state column holds a state itself: `Store.validate_runtime_states` rejects a workspace with
-- any other text in it, and every statement that writes the column writes `State.value`.
use quikode.Prelude.{ℕ, Option, none, List, Text, codes, Result, ok, raise}
use quikode.Fsm.Table.{State}
use quikode.Fsm.Rules.{Failure}

-- `Phase` and `PrReviewTrigger` of quikode/state_types.py.
pub data Phase : Type 0 where
  initial pre_pr_review pr_review : Phase

pub data PrReviewTrigger : Type 0 where
  no_trigger ci_failure review_feedback : PrReviewTrigger

-- The columns that the modelled operations read or write. `none` is NULL, a flag is a number,
-- and a JSON array of texts is the list that it encodes.
pub record TaskRow : Type 0 where
  pub id : Text
  pub state : State
  pub kind : Text
  pub branch : Option Text
  pub worktree_path : Option Text
  pub container_id : Option Text
  pub pr_number : Option ℕ
  pub last_error : Option Text
  pub failure_reason : Option Text
  pub ci_triage_retries : ℕ
  pub conflict_resolve_retries : ℕ
  pub needs_intent_review : ℕ
  pub needs_parent_rebase : ℕ
  pub resume_from_existing_subtasks : ℕ
  pub phase : Phase
  pub cycle_in_phase : ℕ
  pub pr_review_trigger : PrReviewTrigger
  pub parent_task_ids : Option (List Text)
  pub parent_branches : Option (List Text)
  pub parent_pr_branches : Option (List Text)
  pub parent_merge_base_branch : Option Text
  pub parent_merge_base_sha : Option Text
  pub seed_source : Option Text
  pub seed_evidence : Option Text

-- A row with only its primary key and state given, the rest by the schema's defaults.
unfoldable pub new_row : Text → State → TaskRow
new_row id state = record {
  id = id;
  state = state;
  kind = codes "spec";
  branch = none;
  worktree_path = none;
  container_id = none;
  pr_number = none;
  last_error = none;
  failure_reason = none;
  ci_triage_retries = 0;
  conflict_resolve_retries = 0;
  needs_intent_review = 0;
  needs_parent_rebase = 0;
  resume_from_existing_subtasks = 0;
  phase = initial;
  cycle_in_phase = 1;
  pr_review_trigger = no_trigger;
  parent_task_ids = none;
  parent_branches = none;
  parent_pr_branches = none;
  parent_merge_base_branch = none;
  parent_merge_base_sha = none;
  seed_source = none;
  seed_evidence = none;
}

-- One of the `**fields` of a transition: a column other than the key and the state, and its value.
pub data Field : Type 0 where
  set_branch set_worktree_path set_container_id set_last_error set_failure_reason :
      Option Text → Field
  set_pr_number : Option ℕ → Field
  set_ci_triage_retries set_conflict_resolve_retries set_needs_intent_review : ℕ → Field
  set_needs_parent_rebase set_resume_from_existing_subtasks : ℕ → Field

unfoldable pub write_field : TaskRow → Field → TaskRow
write_field r (set_branch v) = record r { branch = v }
write_field r (set_worktree_path v) = record r { worktree_path = v }
write_field r (set_container_id v) = record r { container_id = v }
write_field r (set_last_error v) = record r { last_error = v }
write_field r (set_failure_reason v) = record r { failure_reason = v }
write_field r (set_pr_number v) = record r { pr_number = v }
write_field r (set_ci_triage_retries v) = record r { ci_triage_retries = v }
write_field r (set_conflict_resolve_retries v) = record r { conflict_resolve_retries = v }
write_field r (set_needs_intent_review v) = record r { needs_intent_review = v }
write_field r (set_needs_parent_rebase v) = record r { needs_parent_rebase = v }
write_field r (set_resume_from_existing_subtasks v) = record r { resume_from_existing_subtasks = v }

-- A row of the state_log table.
pub record LogRow : Type 0 where
  pub task_id : Text
  pub from_state : Option State
  pub to_state : State
  pub note : Option Text

-- `captures` lists the tasks for which `capture_block_forensics` was called; what it writes to
-- the block_forensics column is left out.
pub record Store : Type 0 where
  pub tasks : List TaskRow
  pub log : List LogRow
  pub captures : List Text

-- The store outlives an exception.
abbrev pub Action : Type 0 → Type 0
Action A = Store → Result Failure A × Store

abbrev pub and_then : {A B : Type 0} → Result Failure A → (A → Action B) → Action B
and_then (raise e) rest s = (raise e, s)
and_then (ok value) rest s = rest value s

infixl 5 ◌>>=◌
abbrev pub ◌>>=◌ : {A B : Type 0} (before : Action A) (rest : A → Action B) → Action B
◌>>=◌ before rest s = let (result, after) = before s in and_then result rest after

infixl 5 ◌>>◌
abbrev pub ◌>>◌ : {A B : Type 0} (before : Action A) (rest : Action B) → Action B
before >> rest = before >>= (λ value. rest)

abbrev pub return : {A : Type 0} → A → Action A
return a s = (ok a, s)

abbrev pub throw : {A : Type 0} → Failure → Action A
throw e s = (raise e, s)
