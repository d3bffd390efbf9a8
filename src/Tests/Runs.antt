-- ===== src/Tests/Runs.antt =====
-- Runs of the subtasks table and of the retries: a planner that emits S-01 and S-02, and a process
-- that succeeds at the third attempt.
use quikode.Prelude.{
  ℕ, suc, ◌+◌, ◌*◌, ◌^◌, ◌≤◌, none, some, List, [], ◌∷◌, ◌++◌, Text, codes, ◌==◌, map, count,
  IsUnique, ok, raise, Result, length, ◌≡◌, refl, arith, ◌⊎◌,
}
use quikode.Fsm.Rules.{integrity_error}
use quikode.Subtasks.Table.{
  Planned, Table, planned_row, new_planned, effective_cycle, max_cycle, append_subtasks,
}
use quikode.Subtasks.Cycles.{subtasks_in_cycle, delete_subtasks_in_cycle}
use quikode.Subtasks.Append.{planned_ids, append_subtasks-outcome}
use quikode.Subtasks.Replan.{append-delete_cycle}
use quikode.Retry.Backoff.{
  ClassifyVerdict, success, transient, run_with_backoff, attempts_loop, returned,
}
use quikode.Retry.Bounds.{doubling, sum, AreTransient, EndsAt, run_with_backoff-bounds}

abbrev task : Text
task = codes "R-0001"

abbrev fixup : Text
fixup = codes "fixup"

abbrev planned : Text → Planned
planned id = record {
  subtask_id = id;
  title = some (codes "slice");
  depends_on = none;
  files_to_touch = none;
  boundary = none;
  acceptance = none;
  notes = none;
  kind = none;
  planning_cycle = none;
  planning_kind = none;
}

abbrev first_plan : List Planned
first_plan = planned (codes "S-01") ∷ []

abbrev second_plan : List Planned
second_plan = planned (codes "S-01") ∷ planned (codes "S-02") ∷ []

-- The table after the initial plan.
abbrev table : Table
table = planned_row task 1 (codes "initial") (planned (codes "S-01")) ∷ []

append_subtasks-outcome_example :
    (IsUnique (planned_ids (new_planned task second_plan table))
      × (append_subtasks task second_plan none fixup table ≡ (
        ok tt,
        table
            ++ map
                (planned_row task (effective_cycle task none table) fixup)
                (new_planned task second_plan table),
      )))
    ⊎ ((i : Text) × (2 ≤ count i (planned_ids (new_planned task second_plan table)))
        × (append_subtasks task second_plan none fixup table ≡ (raise (integrity_error i), table)))
append_subtasks-outcome_example = append_subtasks-outcome task second_plan none fixup table

new-IsUnique : IsUnique (planned_ids (new_planned task second_plan table))
unfolding planned_row ◌==◌
new-IsUnique k = ground arith

append-delete_cycle_example :
    (t' : Table) × (append_subtasks task second_plan none fixup table ≡ (ok tt, t'))
    × (subtasks_in_cycle task (suc (max_cycle task table)) t'
        ≡ map
            (planned_row task (suc (max_cycle task table)) fixup)
            (new_planned task second_plan table))
    × (delete_subtasks_in_cycle task (suc (max_cycle task table)) t'
        ≡ (length (new_planned task second_plan table), table))
append-delete_cycle_example = append-delete_cycle task second_plan fixup table refl new-IsUnique

-- The process with its attempt's number as the return code's stand-in.
abbrev process : ℕ → Result Text ℕ
process n = ok n

abbrev verdict : ℕ → ClassifyVerdict
verdict n = elim n [ suc (suc k) ↦ success | _ ↦ transient ]

run_with_backoff-bounds_example :
    (k : ℕ) × (k ≤ 3)
    × AreTransient process verdict 0 k
    × EndsAt process verdict k k 3 (run_with_backoff process verdict 3 2).0
    × ((run_with_backoff process verdict 3 2).1 ≡ doubling 2 k)
    × (sum (doubling 2 k) + 2 ≡ 2 * 2 ^ k)
run_with_backoff-bounds_example = run_with_backoff-bounds process verdict 3 2

run_with_backoff_test : run_with_backoff process verdict 3 2 ≡ (returned 2, 2 ∷ 4 ∷ [])
unfolding run_with_backoff attempts_loop
run_with_backoff_test = refl
