-- ===== src/Attempt/Loop/Notes.antt =====
-- The outcomes of a pass and of a round in quikode/workers/subtasks.py, the texts that are kept of them,
-- and the pure tests of the loop.
use quikode.Prelude.{
  ℕ, suc, ◌-◌, ◌%◌, Bool, true, false, not, ◌&&◌, ◌||◌, Option, none, some, List, [], ◌∷◌, ◌++◌,
  Text, codes, ◌==◌, elem, all, nat_eq, ltb, if◌then◌else◌, is_pos, decimal,
}
use quikode.Subtasks.Table.{Table, bump}
use quikode.Subtasks.Cycles.{take_text}
use quikode.Attempt.Storms.{Block}
use quikode.Attempt.State.{Settings, AgentResult, TriageReport}

-- `SubtaskPassOutcome` of quikode/workers/outcomes.py.
pub data PassOutcome : Type 0 where
  settled transient_retry : PassOutcome
  failed : Text → PassOutcome

-- `UPDATE subtasks SET transient_retries = COALESCE(transient_retries, 0) + 1`
unfoldable pub increment_subtask_transient_retries : Text → Text → Table → ℕ × Table
increment_subtask_transient_retries =
    bump (λ r. record r { transient_retries = suc r.transient_retries }) (λ r. r.transient_retries)

-- `cfg.transient_retry_delays_s.get(category, 15)`
abbrev pub delay_of : Text → List (Text × ℕ) → ℕ
delay_of category [] = 15
delay_of category ((c, delay) ∷ delays) = if c == category then delay else delay_of category delays

-- `set(xs) == set(ys)`
abbrev pub same_set : List Text → List Text → Bool
same_set xs ys = all (λ x. elem x ys) xs && all (λ y. elem y xs) ys

-- `not (xs and set(xs) != set(ys))`
abbrev pub keeps_files : List Text → List Text → Bool
keeps_files [] ys = true
keeps_files (x ∷ xs) ys = same_set (x ∷ xs) ys

abbrev pub join_files : List Text → Text
join_files [] = []
join_files (f ∷ []) = f
join_files (f ∷ g ∷ files) = f ++ codes "," ++ join_files (g ∷ files)

abbrev pub commit_failure_text : Text → Text
commit_failure_text output =
    codes "VERDICT: FAIL\nROOT_CAUSE: commit/push failed\nDETAILS:\n" ++ take_text 4000 output

abbrev pub gate_failure_text : Text → Text
gate_failure_text output =
    codes "VERDICT: FAIL\nROOT_CAUSE: pre-commit hook failed\nDETAILS:\n" ++ take_text 4000 output

abbrev pub transport_notes : Text
transport_notes =
    codes
      "TRIAGE TRANSPORT FAILURE\nfailure_layer: transport\nroot_cause: doer produced no diff (empty git status). Transport-class failure; no LLM triage call needed."

abbrev pub cannot_reproduce_notes : Text
cannot_reproduce_notes =
    codes
      "TRIAGE CANNOT_REPRODUCE\nfailure_layer: cannot_reproduce\nroot_cause: GitHub CI failed but the local container's objective gate and scoped witnesses are green on an empty diff. Likely environmental drift (cached intermediate artifacts, pinned-version divergence, or missing checked-in generated file). No LLM triage call needed; operator should investigate the environmental delta."

-- `_triage_subtask` from the agent's result: the notes, with their details left out where the agent
-- failed, and the layer.
unfoldable pub triage_of : AgentResult TriageReport → Text × Option Text
unfolding is_pos
triage_of r =
    if not (is_pos 0 r.rc) || r.transient
    then (codes "TRIAGE TRANSPORT FAILURE\nfailure_layer: transport\n", none)
    else (elim r.parse_errors [
      | e ∷ errors ↦ (codes "TRIAGE PARSE FAILURE\nfailure_layer: parse_failure\n", none)
      | [] ↦ (elim r.structured [
        | none ↦ (codes "TRIAGE PARSE FAILURE\nfailure_layer: parse_failure\n", none)
        | some report ↦ (report.rendered, some report.failure_layer)
      ])
    ])

-- `_should_run_progress_check`
unfoldable pub should_run_progress_check : Settings → ℕ → Bool
should_run_progress_check cfg attempt =
    if ltb attempt cfg.subtask_progress_check_after
    then false
    else if nat_eq cfg.subtask_progress_check_every 0
    then nat_eq attempt cfg.subtask_progress_check_after
    else nat_eq ((attempt - cfg.subtask_progress_check_after) % cfg.subtask_progress_check_every) 0

-- The variables of the loop.
pub record Round : Type 0 where
  pub attempt : ℕ
  pub triage_notes : Option Text
  pub consecutive_transients : ℕ
  pub consecutive_reprovisions : ℕ

-- A round returns (settled, block_reason) or goes on.
pub data Next : Type 0 where
  finish : Bool → Option Block → Next
  again : Round → Next

abbrev pub attempt_note : Text → ℕ → Text
attempt_note id attempt = id ++ codes " attempt " ++ decimal attempt
