-- ===== src/Sched/Settings.antt =====
-- What the scheduler is given: the settings of quikode/config.py that it reads, the store by the
-- protocol `_SchedulerStore`, and the walks over the stack that its callers pass as functions.
-- Times are whole seconds.
use quikode.Prelude.{
  ℕ, ◌+◌, Bool, true, false, ◌||◌, Option, none, some, List, Text, leb, if◌then◌else◌,
}
use quikode.Fsm.Table.{
  State, state_eq, provisioning, fixup_planning, pr_opening, pending_ci, awaiting_review,
}
use quikode.Fsm.Rules.{is_stack_ready, is_audit_stage}
use quikode.Store.Rows.{TaskRow}

-- `StackingStrategy` and the values of `stacking_readiness`.
pub data StackingStrategy : Type 0 where
  off within_milestone aggressive : StackingStrategy

pub data StackingReadiness : Type 0 where
  speculative settled : StackingReadiness

pub record Config : Type 0 where
  pub stacking_strategy : StackingStrategy
  pub stacking_readiness : StackingReadiness
  pub review_ready_settle_s : ℕ
  pub stacking_max_depth : ℕ
  pub stacking_max_breadth_per_root : ℕ

-- `_SchedulerStore`: what the scheduler reads of a store.
pub record SchedulerStore : Type 0 where
  pub completed_ids : List Text
  pub active_ids : List Text
  pub get : Text → Option TaskRow
  pub most_recent_awaiting_review_entry_ts : Text → Option ℕ
  pub subtask_progress : Text → ℕ × ℕ

-- The functions `stack_depth_fn`, `stack_root_fn`, `stack_size_under_root_fn` and
-- `would_form_cycle_fn`.
pub record StackFns : Type 0 where
  pub stack_depth : Text → ℕ
  pub stack_root : Text → Text
  pub stack_size_under_root : Text → ℕ
  pub would_form_cycle : Text → Text → Bool

-- The scheduler's own `STACK_READY_STATES`, larger than the state machine's.
unfoldable pub in_stack_ready_states : State → Bool
unfolding is_stack_ready is_audit_stage state_eq
in_stack_ready_states s =
    is_stack_ready s
    || is_audit_stage s
    || state_eq s pending_ci
    || state_eq s pr_opening
    || state_eq s provisioning
    || state_eq s fixup_planning

-- `now - entered >= threshold`, where a moment that lies ahead has not settled.
abbrev pub has_settled : ℕ → ℕ → Option ℕ → Bool
has_settled now threshold none = false
has_settled now threshold (some entered) = leb (entered + threshold) now

unfoldable pub is_parent_stack_ready : Config → SchedulerStore → ℕ → Text → Option State → Bool
unfolding in_stack_ready_states state_eq
is_parent_stack_ready cfg store now parent_id none = false
is_parent_stack_ready cfg store now parent_id (some s) = elim cfg.stacking_readiness [
  | speculative ↦ in_stack_ready_states s
  | settled ↦
      if state_eq s awaiting_review
      then (if leb cfg.review_ready_settle_s 0
          then true
          else has_settled now cfg.review_ready_settle_s
              (store.most_recent_awaiting_review_entry_ts parent_id))
      else false
]
