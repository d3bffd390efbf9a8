-- ===== src/Subtasks/Table.antt =====
-- The operations on the subtasks table. The rows stand in the order of their ids, which is the order
-- of insertion. Timestamps are left out; a JSON column is the value that it encodes.
use quikode.Prelude.{
  ℕ, suc, Bool, true, false, not, ◌&&◌, Option, none, some, List, [], ◌∷◌, ◌++◌, Text, codes, ◌==◌,
  map, keep, any, find, elem, ltb, if◌then◌else◌, sort_by, Result, ok, raise,
}
use quikode.Fsm.Rules.{Failure, integrity_error}

-- `SubtaskState` of quikode/state_types.py.
pub data SubtaskState : Type 0 where
  pending doing checking triaging done blocked skipped : SubtaskState

abbrev pub is_done : SubtaskState → Bool
is_done done = true
is_done _ = false

abbrev pub is_skipped : SubtaskState → Bool
is_skipped skipped = true
is_skipped _ = false

-- An entry of the JSON column `retry_reasons`.
pub record RetryReason : Type 0 where
  pub attempt : ℕ
  pub category : Text
  pub signature : Text
  pub transient : Bool

pub record SubtaskRow : Type 0 where
  pub task_id : Text
  pub subtask_id : Text
  pub title : Text
  pub depends_on : List Text
  pub files_to_touch : List Text
  pub boundary : Text
  pub acceptance : List Text
  pub notes : Text
  pub kind : Text
  pub state : SubtaskState
  pub retries : ℕ
  pub last_error : Option Text
  pub triage_notes : Option Text
  pub commit_sha : Option Text
  pub transient_retries : ℕ
  pub progress_check_count : ℕ
  pub flatline_count : ℕ
  pub pre_commit_failures : ℕ
  pub retry_reasons : Option (List RetryReason)
  pub accepted_files : Option Text
  pub planning_cycle : ℕ
  pub planning_kind : Text

abbrev pub Table : Type 0
Table = List SubtaskRow

-- The dictionary of a planned subtask, with `none` for a missing key.
pub record Planned : Type 0 where
  pub subtask_id : Text
  pub title : Option Text
  pub depends_on : Option (List Text)
  pub files_to_touch : Option (List Text)
  pub boundary : Option Text
  pub acceptance : Option (List Text)
  pub notes : Option Text
  pub kind : Option Text
  pub planning_cycle : Option ℕ
  pub planning_kind : Option Text

-- `d.get(key, default)`
abbrev pub or_default {ℓ} : {A : Type ℓ} → A → Option A → A
or_default a none = a
or_default a (some b) = b

-- The row that both INSERT statements write.
unfoldable pub planned_row : Text → ℕ → Text → Planned → SubtaskRow
planned_row task_id cycle kind p = record {
  task_id = task_id;
  subtask_id = p.subtask_id;
  title = or_default [] p.title;
  depends_on = or_default [] p.depends_on;
  files_to_touch = or_default [] p.files_to_touch;
  boundary = or_default [] p.boundary;
  acceptance = or_default [] p.acceptance;
  notes = or_default [] p.notes;
  kind = or_default (codes "spec") p.kind;
  state = pending;
  retries = 0;
  last_error = none;
  triage_notes = none;
  commit_sha = none;
  transient_retries = 0;
  progress_check_count = 0;
  flatline_count = 0;
  pre_commit_failures = 0;
  retry_reasons = none;
  accepted_files = none;
  planning_cycle = or_default cycle p.planning_cycle;
  planning_kind = or_default kind p.planning_kind;
}

abbrev pub has_key : Text → Text → SubtaskRow → Bool
has_key task_id subtask_id r = r.task_id == task_id && r.subtask_id == subtask_id

-- The rows are inserted in turn; a second row with the same key breaks the constraint
-- UNIQUE(task_id, subtask_id).
unfoldable pub insert_rows : Table → List SubtaskRow → Result Failure Table
insert_rows t [] = ok t
insert_rows t (r ∷ rows) =
    let rest = insert_rows (t ++ r ∷ []) rows in
    if any (has_key r.task_id r.subtask_id) t then raise (integrity_error r.subtask_id) else rest

-- A transaction that raises leaves the table as it was.
abbrev pub commit : Table → Result Failure Table → Result Failure (Unit {0}) × Table
commit t (ok t') = (ok tt, t')
commit t (raise e) = (raise e, t)

unfoldable pub upsert_subtasks :
    Text → List Planned → ℕ → Text → Table → Result Failure (Unit {0}) × Table
upsert_subtasks task_id planned cycle kind t = commit t (
    insert_rows (keep (λ r. not (r.task_id == task_id)) t)
      (map (planned_row task_id cycle kind) planned))

-- SELECT COALESCE(MAX(planning_cycle), 0) FROM subtasks WHERE task_id = ?
unfoldable pub max_cycle : Text → Table → ℕ
max_cycle task_id [] = 0
max_cycle task_id (r ∷ rows) =
    let rest = max_cycle task_id rows in
    if r.task_id == task_id && ltb rest r.planning_cycle then r.planning_cycle else rest

abbrev pub existing_ids : Text → Table → List Text
existing_ids task_id t = map (λ r. r.subtask_id) (keep (λ r. r.task_id == task_id) t)

-- The planned subtasks whose ids are not there yet, and the cycle that they get.
abbrev pub new_planned : Text → List Planned → Table → List Planned
new_planned task_id planned t = keep (λ p. not (elem p.subtask_id (existing_ids task_id t))) planned

abbrev pub effective_cycle : Text → Option ℕ → Table → ℕ
effective_cycle task_id none t = suc (max_cycle task_id t)
effective_cycle task_id (some cycle) t = cycle

unfoldable pub append_subtasks :
    Text → List Planned → Option ℕ → Text → Table → Result Failure (Unit {0}) × Table
append_subtasks task_id planned cycle kind t = commit t (
    insert_rows t (
      map (planned_row task_id (effective_cycle task_id cycle t) kind)
        (new_planned task_id planned t)))

unfoldable pub list_subtasks : Text → Table → List SubtaskRow
list_subtasks task_id t = keep (λ r. r.task_id == task_id) t

unfoldable pub get_subtask : Text → Text → Table → Option SubtaskRow
get_subtask task_id subtask_id t = find (has_key task_id subtask_id) t

-- UPDATE subtasks SET ... WHERE task_id = ? AND subtask_id = ?
unfoldable pub update_subtask : Text → Text → (SubtaskRow → SubtaskRow) → Table → Table
update_subtask task_id subtask_id f t = map (λ r. if has_key task_id subtask_id r then f r else r) t

-- The keys of the repaired rows, ORDER BY task_id, subtask_id.
unfoldable pub repair_stale_skipped_subtasks : Table → List (Text × Text) × Table
repair_stale_skipped_subtasks t = (
  sort_by (λ k. k.0)
      (sort_by (λ k. k.1)
        (map (λ r. (r.task_id, r.subtask_id)) (keep (λ r. is_skipped r.state) t))),
  map (λ r. if is_skipped r.state then record r { state = pending } else r) t,
)

unfoldable pub reset_subtask_for_rewind : Text → Text → Table → Table
reset_subtask_for_rewind task_id subtask_id t =
    update_subtask task_id subtask_id
      (λ r. record r {
        state = pending;
        retries = 0;
        transient_retries = 0;
        flatline_count = 0;
        triage_notes = none;
        last_error = none;
        commit_sha = none;
        retry_reasons = none;
        accepted_files = none;
        pre_commit_failures = 0;
        progress_check_count = 0;
      })
      t

-- An UPDATE that counts up, and the SELECT of the counter after it.
abbrev pub bump : (SubtaskRow → SubtaskRow) → (SubtaskRow → ℕ) → Text → Text → Table → ℕ × Table
bump f counter task_id subtask_id t =
    let after = update_subtask task_id subtask_id f t in
    (elim (get_subtask task_id subtask_id after) [ none ↦ 0 | some r ↦ counter r ], after)

unfoldable pub increment_subtask_retries : Text → Text → Table → ℕ × Table
increment_subtask_retries = bump (λ r. record r { retries = suc r.retries }) (λ r. r.retries)

unfoldable pub increment_subtask_pre_commit_failures : Text → Text → Table → ℕ × Table
increment_subtask_pre_commit_failures =
    bump (λ r. record r { pre_commit_failures = suc r.pre_commit_failures })
      (λ r. r.pre_commit_failures)

unfoldable pub increment_subtask_flatline_count : Text → Text → Table → ℕ × Table
increment_subtask_flatline_count =
    bump
      (λ r. record r {
        flatline_count = suc r.flatline_count;
        progress_check_count = suc r.progress_check_count;
      })
      (λ r. r.flatline_count)

unfoldable pub reset_subtask_flatline_count : Text → Text → Table → Table
reset_subtask_flatline_count task_id subtask_id t =
    update_subtask task_id subtask_id
      (λ r. record r { flatline_count = 0; progress_check_count = suc r.progress_check_count }) t
