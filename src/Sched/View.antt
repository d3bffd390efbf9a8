-- ===== src/Sched/View.antt =====
-- The store behind the protocol `_SchedulerStore`, and the walks that the methods `_stack_depth`,
-- `_would_form_cycle`, `_stack_root` and `_stack_size_under_root` of quikode/orchestration/runner.py
-- call. The log's timestamps and the subtasks table are arguments.
use quikode.Prelude.{ℕ, false, Option, none, some, Text}
use quikode.Store.Rows.{Store}
use quikode.Store.Tasks.{select, completed_ids, active_ids}
use quikode.Stacking.Walks.{stack_depth, stack_root, stack_size_under_root, would_form_cycle}
use quikode.Sched.Settings.{Config, SchedulerStore, StackFns}

unfoldable pub store_view : Store → (Text → Option ℕ) → (Text → ℕ × ℕ) → SchedulerStore
store_view s entered progress = record {
  completed_ids = completed_ids s;
  active_ids = active_ids s;
  get = λ i. select i s.tasks;
  most_recent_awaiting_review_entry_ts = entered;
  subtask_progress = progress;
}

-- The answer of a walk; the theorems on the walks show that there always is one.
abbrev pub answer {ℓ} : {A : Type ℓ} → A → Option A → A
answer unmet none = unmet
answer unmet (some a) = a

unfoldable pub stack_fns : Config → Store → StackFns
stack_fns cfg s = record {
  stack_depth = λ i. answer 0 (stack_depth s i cfg.stacking_max_depth);
  stack_root = λ i. answer i (stack_root s i);
  stack_size_under_root = stack_size_under_root s;
  would_form_cycle = λ child parent. answer false (would_form_cycle s child parent);
}
