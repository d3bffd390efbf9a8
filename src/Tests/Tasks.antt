-- ===== src/Tests/Tasks.antt =====
-- Runs of the store and of the helpers on a workspace with three tasks.
use quikode.Prelude.{true, false, none, some, List, [], ◌∷◌, Text, codes, ok, ◌≡◌, refl, ◌⊎◌, ◌==◌}
use quikode.Fsm.Table.{
  state_eq, State, audit_rubric, awaiting_review, doing_subtask, blocked, start_task,
}
use quikode.Fsm.Rules.{enum}
use quikode.Store.Rows.{TaskRow, new_row, Store}
use quikode.Store.Tasks.{select, recover_orphan_tasks}
use quikode.Store.Fire.{IsAt, Arrives}
use quikode.Store.Log.{IsLogged}
use quikode.Store.Orphans.{is_active_at, recover_orphan_tasks-is_settled}
use quikode.Store.History.{
  Call, create, event, move, seed, recover, add_merge_node, prune_parent, run_calls,
  run_calls-IsLogged,
}
use quikode.Runtime.Helpers.{advance_audit_stage, call, mark_merged}
use quikode.Runtime.Safety.{Reaches, call-is_safe}
use quikode.Runtime.Stages.{StageHelper, stage_helper, acts_at, leads_to, stage_helper-settles}
use quikode.Runtime.Merging.{is_mergeable, mark_merged-settles}

abbrev task_a : Text
task_a = codes "R-0001"

abbrev task_b : Text
task_b = codes "R-0002"

abbrev row_a : TaskRow
row_a = new_row task_a audit_rubric

abbrev row_b : TaskRow
row_b = record (new_row task_b doing_subtask) { pr_number = some 7 }

abbrev row_c : TaskRow
row_c = new_row (codes "R-0003") awaiting_review

abbrev workspace : Store
workspace = record { tasks = row_a ∷ row_b ∷ row_c ∷ []; log = []; captures = [] }

a-IsAt : IsAt task_a audit_rubric workspace
unfolding select ◌==◌ new_row
a-IsAt = record { row = row_a; found = refl; state = refl }

call-is_safe_example :
    (call (advance_audit_stage audit_rubric true) task_a none [] workspace ≡ (ok none, workspace))
    ⊎ ((u : State) × Reaches (advance_audit_stage audit_rubric true) u
        × Arrives task_a u workspace
            (ok (some u))
            (call (advance_audit_stage audit_rubric true) task_a none [] workspace))
call-is_safe_example =
    call-is_safe (advance_audit_stage audit_rubric true) task_a none [] workspace a-IsAt tt

stage_helper-settles_example :
    ((state_eq audit_rubric (acts_at StageHelper.audit_rubric_failed) ≡ true)
      × Arrives task_a
          (leads_to StageHelper.audit_rubric_failed)
          workspace
          (ok (some (leads_to StageHelper.audit_rubric_failed)))
          (call (stage_helper StageHelper.audit_rubric_failed) task_a none [] workspace))
    ⊎ ((state_eq audit_rubric (acts_at StageHelper.audit_rubric_failed) ≡ false)
        × (call (stage_helper StageHelper.audit_rubric_failed) task_a none [] workspace
            ≡ (ok none, workspace)))
stage_helper-settles_example =
    stage_helper-settles StageHelper.audit_rubric_failed task_a none [] workspace audit_rubric
      a-IsAt

mark_merged-settles_example :
    ((is_mergeable audit_rubric ≡ true)
      × Arrives task_a State.merged workspace
          (ok (some State.merged))
          (mark_merged task_a none [] workspace))
    ⊎ ((is_mergeable audit_rubric ≡ false)
        × (mark_merged task_a none [] workspace ≡ (ok none, workspace)))
mark_merged-settles_example = mark_merged-settles task_a none [] workspace audit_rubric a-IsAt

recover_orphan_tasks-is_settled_example :
    (recovered : List (Text × State × State)) × (after : Store) × (recover_orphan_tasks workspace
      ≡ (ok recovered, after))
    × ((j : Text) → is_active_at j after ≡ false)
recover_orphan_tasks-is_settled_example = recover_orphan_tasks-is_settled workspace

-- A task is created and started, one is seeded as merged, a missing one is moved, and the daemon
-- restarts; then a merge node is created and loses a parent.
abbrev calls : List Call
calls =
    create task_a
    ∷ event task_a (enum start_task) none []
    ∷ seed task_b (codes "base") (codes "abc1234")
    ∷ move (codes "R-0009") blocked none []
    ∷ recover
    ∷ add_merge_node (codes "M-1") (task_a ∷ task_b ∷ []) (codes "a" ∷ codes "b" ∷ []) (codes "m")
    ∷ prune_parent (codes "M-1") task_b
    ∷ []

run_calls-IsLogged_example : IsLogged (run_calls calls)
run_calls-IsLogged_example = run_calls-IsLogged calls
