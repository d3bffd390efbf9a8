-- ===== src/Subtasks/Cycles.antt =====
-- Planning cycles, the retry log, and the progress count of quikode/store_tasks.py.
use quikode.Prelude.{
  ℕ, zero, suc, ◌-◌, Bool, not, ◌&&◌, Option, none, some, List, [], ◌∷◌, ◌++◌, Text, ◌==◌, keep,
  find, length, ltb, nat_eq, if◌then◌else◌,
}
use quikode.Subtasks.Table.{
  SubtaskRow, Table, RetryReason, max_cycle, is_done, get_subtask, update_subtask, or_default,
}

abbrev pub in_cycle : Text → ℕ → SubtaskRow → Bool
in_cycle task_id cycle r = r.task_id == task_id && nat_eq r.planning_cycle cycle

abbrev pub kind_of : Option SubtaskRow → Option Text
kind_of none = none
kind_of (some r) = some r.planning_kind

-- (0, None) when the task has no row.
unfoldable pub latest_planning_cycle : Text → Table → ℕ × Option Text
latest_planning_cycle task_id t = elim (find (λ r. r.task_id == task_id) t) [
  | none ↦ (0, none)
  | some r ↦ (max_cycle task_id t, kind_of (find (in_cycle task_id (max_cycle task_id t)) t))
]

unfoldable pub subtasks_in_cycle : Text → ℕ → Table → List SubtaskRow
subtasks_in_cycle task_id cycle t = keep (in_cycle task_id cycle) t

-- The number of deleted rows, and the table without them.
unfoldable pub delete_subtasks_in_cycle : Text → ℕ → Table → ℕ × Table
delete_subtasks_in_cycle task_id cycle t =
    (length (keep (in_cycle task_id cycle) t), keep (λ r. not (in_cycle task_id cycle r)) t)

-- (done, total)
unfoldable pub subtask_progress : Text → Table → ℕ × ℕ
subtask_progress task_id t = (
  length (keep (λ r. r.task_id == task_id && is_done r.state) t),
  length (keep (λ r. r.task_id == task_id) t),
)

abbrev pub drop_rows {ℓ} : {A : Type ℓ} → ℕ → List A → List A
drop_rows zero xs = xs
drop_rows (suc n) [] = []
drop_rows (suc n) (x ∷ xs) = drop_rows n xs

abbrev pub take_text : ℕ → Text → Text
take_text zero t = []
take_text (suc n) [] = []
take_text (suc n) (c ∷ t) = c ∷ take_text n t

-- `existing[-50:]` of a list that is longer than 50, and the list itself otherwise.
abbrev pub keep_last {ℓ} : {A : Type ℓ} → List A → List A
keep_last xs = if ltb 50 (length xs) then drop_rows (length xs - 50) xs else xs

unfoldable pub append_retry_reason : Text → Text → ℕ → Text → Text → Bool → Table → Table
append_retry_reason task_id subtask_id attempt category signature transient t =
    update_subtask task_id subtask_id
      (λ r. record r {
        retry_reasons = some (
            keep_last (
              or_default [] r.retry_reasons
              ++ record {
                attempt = attempt;
                category = category;
                signature = take_text 200 signature;
                transient = transient;
              }
                ∷ []));
      })
      t

abbrev pub reasons_of : Option SubtaskRow → List RetryReason
reasons_of none = []
reasons_of (some r) = or_default [] r.retry_reasons

unfoldable pub retry_reasons : Text → Text → Table → List RetryReason
retry_reasons task_id subtask_id t = reasons_of (get_subtask task_id subtask_id t)
