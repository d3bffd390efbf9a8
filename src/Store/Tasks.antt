-- ===== src/Store/Tasks.antt =====
-- The operations on the tasks table of quikode/store_tasks.py, and orphan recovery of
-- quikode/store_review.py. Timestamps are left out. A statement that a constraint of the schema
-- rejects raises `integrity_error` and is rolled back.
use quikode.Prelude.{
  ℕ, suc, Bool, true, false, not, ◌&&◌, Option, none, some, List, [], ◌∷◌, ◌++◌, Text, ◌==◌, codes,
  find, map, Result, ok, raise, if◌then◌else◌, foldl, keep, ◌+◌,
}
use quikode.Fsm.Table.{
  State, Event, state_eq, state_value, event_value, pending, blocked, failed, aborted, pending_ci,
}
use quikode.Fsm.Rules.{
  Failure, invalid_transition, no_task, value_error, integrity_error, OrText, enum, text,
  target_for_event, is_active, recover_after_crash, RecoveryUpdate, clear_branch,
  clear_worktree_path, clear_container_id, resume_from_existing_subtasks,
}
use quikode.Store.Rows.{
  Phase, PrReviewTrigger, TaskRow, new_row, Field, write_field, LogRow, Store, Action, ◌>>=◌, ◌>>◌,
  return, set_branch, set_worktree_path, set_container_id, set_last_error, set_failure_reason,
  set_ci_triage_retries, set_conflict_resolve_retries, set_needs_intent_review,
  set_needs_parent_rebase, set_resume_from_existing_subtasks,
}

-- SELECT * FROM tasks WHERE id = ?
unfoldable pub select : Text → List TaskRow → Option TaskRow
select task_id rows = find (λ r. r.id == task_id) rows

-- UPDATE tasks SET ... WHERE id = ?
unfoldable pub update_rows : Text → (TaskRow → TaskRow) → List TaskRow → List TaskRow
update_rows task_id f [] = []
update_rows task_id f (r ∷ rows) = (if r.id == task_id then f r else r) ∷ update_rows task_id f rows

unfoldable pub get : Text → Action (Option TaskRow)
get task_id s = (ok (select task_id s.tasks), s)

abbrev append_log : LogRow → Store → Store
append_log entry s = record s { log = s.log ++ entry ∷ [] }

unfoldable pub upsert_pending : Text → Action (Unit {0})
unfolding new_row
upsert_pending task_id s = elim (select task_id s.tasks) [
  | some r ↦ (ok tt, s)
  | none ↦ (
    ok tt,
    append_log (record { task_id = task_id; from_state = none; to_state = pending; note = none })
        (record s { tasks = s.tasks ++ new_row task_id pending ∷ [] }),
  )
]

-- The row that a transition writes.
unfoldable pub moved_row : State → List Field → TaskRow → TaskRow
unfolding write_field
moved_row new_state fields r = foldl write_field (record r { state = new_state }) fields

-- A missing task: the UPDATE touches no row, and the log entry breaks its foreign key.
unfoldable pub transition : Text → State → Option Text → List Field → Action (Unit {0})
unfolding state_eq
transition task_id new_state message fields s = elim (select task_id s.tasks) [
  | none ↦ (raise (integrity_error task_id), s)
  | some r ↦ (
    ok tt,
    record {
      tasks = update_rows task_id (moved_row new_state fields) s.tasks;
      log =
          s.log
          ++ record {
            task_id = task_id;
            from_state = some r.state;
            to_state = new_state;
            note = message;
          }
            ∷ [];
      captures =
          if state_eq new_state blocked && not (state_eq r.state blocked)
          then s.captures ++ task_id ∷ []
          else s.captures;
    },
  )
]

-- `note or str(event)`: an absent or empty note is replaced.
unfoldable pub or_event : Option Text → OrText Event → Option Text
or_event (some (c ∷ message)) e = some (c ∷ message)
or_event (some []) (enum e) = some (event_value e)
or_event (some []) (text t) = some t
or_event none (enum e) = some (event_value e)
or_event none (text t) = some t

-- A pure computation that may raise, as an action.
abbrev pub from_result : {A : Type 0} → Result Failure A → Action A
from_result r s = (r, s)

unfoldable pub apply_event : Text → OrText Event → Option Text → List Field → Action State
unfolding get
apply_event task_id event message fields = do
  found ← get task_id
  row ←
      from_result
        (elim found [ some r ↦ ok r | none ↦ raise (invalid_transition (no_task task_id)) ])
  target ← from_result (target_for_event (text (state_value row.state)) event)
  transition task_id target (or_event message event) fields
  return target

seeded_row : Text → Text → TaskRow → TaskRow
seeded_row source evidence r = record r {
  state = State.merged;
  seed_source = some source;
  seed_evidence = some evidence;
}

seed_entry : Text → Text → Option State → LogRow
seed_entry task_id source from_state = record {
  task_id = task_id;
  from_state = from_state;
  to_state = State.merged;
  note = some (codes "seed-from-base:" ++ source);
}

-- `seed_merged_node` of a row that is there.
unfoldable pub seed_existing : Text → Text → Text → TaskRow → Action (Unit {0})
unfolding update_rows seeded_row seed_entry
seed_existing task_id source evidence r s =
    if state_eq r.state pending
    then (
      ok tt,
      append_log (seed_entry task_id source (some pending))
          (record s { tasks = update_rows task_id (seeded_row source evidence) s.tasks }),
    )
    else if state_eq r.state State.merged
    then (ok tt, s)
    else (raise (value_error task_id), s)

-- `seed_merged_node`: a task that is absent or pending becomes MERGED with its evidence.
unfoldable pub seed_merged_node : Text → Text → Text → Action (Unit {0})
unfolding new_row seeded_row seed_entry
seed_merged_node task_id source evidence s = elim (select task_id s.tasks) [
  | some r ↦ seed_existing task_id source evidence r s
  | none ↦ (
    ok tt,
    append_log (seed_entry task_id source none) (record s {
      tasks = s.tasks ++ seeded_row source evidence (new_row task_id State.merged) ∷ [];
    }),
  )
]

-- A log entry that repeats the state and carries only a note.
stay_entry : TaskRow → Option Text → LogRow
stay_entry r message = record {
  task_id = r.id;
  from_state = some r.state;
  to_state = r.state;
  note = message;
}

phased_row : Phase → ℕ → PrReviewTrigger → TaskRow → TaskRow
phased_row phase cycle trigger r = record r {
  phase = phase;
  cycle_in_phase = cycle;
  pr_review_trigger = trigger;
}

-- `enter_phase`; the text of its default note is left out. A missing task would get a log entry
-- with no state, which the schema rejects.
unfoldable pub enter_phase : Text → Phase → ℕ → PrReviewTrigger → Option Text → Action (Unit {0})
unfolding phased_row stay_entry
enter_phase task_id phase cycle trigger message s = elim (select task_id s.tasks) [
  | none ↦ (raise (integrity_error task_id), s)
  | some r ↦ (
    ok tt,
    append_log (stay_entry r message)
        (record s { tasks = update_rows task_id (phased_row phase cycle trigger) s.tasks }),
  )
]

abbrev or_trigger : Option PrReviewTrigger → PrReviewTrigger → PrReviewTrigger
or_trigger (some t) old = t
or_trigger none old = old

unfoldable pub increment_cycle_in_phase : Text → Option PrReviewTrigger → Option Text → Action ℕ
unfolding phased_row stay_entry
increment_cycle_in_phase task_id trigger message s = elim (select task_id s.tasks) [
  | none ↦ (raise (invalid_transition (no_task task_id)), s)
  | some r ↦ (
    ok (r.cycle_in_phase + 1),
    append_log (stay_entry r message) (record s {
      tasks =
          update_rows task_id
            (phased_row r.phase (r.cycle_in_phase + 1) (or_trigger trigger r.pr_review_trigger))
            s.tasks;
    }),
  )
]

abbrev ids_where : (State → Bool) → List TaskRow → List Text
ids_where p rows = map (λ r. r.id) (keep (λ r. p r.state) rows)

-- SELECT id FROM tasks WHERE state = 'merged', a set.
unfoldable pub completed_ids : Store → List Text
unfolding state_eq
completed_ids s = ids_where (λ t. state_eq t State.merged) s.tasks

-- The states that `active_ids` leaves out.
unfoldable pub counts_as_active : State → Bool
counts_as_active pending = false
counts_as_active State.merged = false
counts_as_active blocked = false
counts_as_active failed = false
counts_as_active aborted = false
counts_as_active pending_ci = false
counts_as_active _ = true

unfoldable pub active_ids : Store → List Text
unfolding counts_as_active
active_ids s = ids_where counts_as_active s.tasks

-- The columns that crash recovery names, as fields of a transition.
pub recovery_field : RecoveryUpdate → Field
recovery_field clear_branch = set_branch none
recovery_field clear_worktree_path = set_worktree_path none
recovery_field clear_container_id = set_container_id none
recovery_field resume_from_existing_subtasks = set_resume_from_existing_subtasks 1

-- `retry_reset_fields`.
abbrev pub retry_reset_fields : List Field
retry_reset_fields =
    set_ci_triage_retries 0
    ∷ set_conflict_resolve_retries 0
    ∷ set_needs_intent_review 0
    ∷ set_needs_parent_rebase 0
    ∷ set_last_error none
    ∷ set_failure_reason none
    ∷ []

pub has_pr_number : Option ℕ → Bool
has_pr_number (some (suc n)) = true
has_pr_number _ = false

abbrev pub recovery_note : TaskRow → Option Text
recovery_note row = some (codes "orphan recovery from " ++ state_value row.state)

abbrev pub recovery_fields : List RecoveryUpdate → List Field
recovery_fields updates = retry_reset_fields ++ map recovery_field updates

-- The body of the loop of `recover_orphan_tasks` for a row in an active state.
unfoldable pub recover_row : TaskRow → Action (Text × State × State)
recover_row row = do
  recovery ← from_result (recover_after_crash (enum row.state) (has_pr_number row.pr_number))
  let target = recovery.0
  transition row.id target (recovery_note row) (recovery_fields recovery.1)
  return (row.id, row.state, target)

unfoldable pub recover_rows : List TaskRow → Action (List (Text × State × State))
recover_rows [] = return []
recover_rows (row ∷ rows) =
    let later = recover_rows rows in
    if is_active row.state
    then (do one ← recover_row row; rest ← later; return (one ∷ rest))
    else later

-- The rows are read once, before the loop; the order of the rows is that of the table.
unfoldable pub recover_orphan_tasks : Action (List (Text × State × State))
recover_orphan_tasks s = recover_rows s.tasks s
