-- ===== src/Attempt/Check.antt =====
-- `_check_subtask` of quikode/workers/subtask_execution.py with the checks that it makes. Artifacts,
-- agent-call rows and log messages are left out.
use quikode.Prelude.{
  Bool, true, false, not, ◌&&◌, ◌||◌, Option, none, some, List, [], ◌∷◌, ◌++◌, Text, codes, ◌==◌,
  any, contains, if◌then◌else◌, ℤ, pos, is_pos, str_int,
}
use quikode.Runtime.Helpers.{enter_checking_subtask}
use quikode.Plan.Schema.{Subtask, stabilization_subtask_id}
use quikode.Subtasks.Table.{checking, or_default}
use quikode.Subtasks.Cycles.{take_text}
use quikode.Attempt.Classify.{CheckVerdict, pass, fail, strip}
use quikode.Attempt.State.{
  World, Settings, Work, Witness, AgentResult, CheckerReport, Ran, ran, raised, enter, set_row, see,
  act, return, ◌>>=◌, ◌>>◌,
}

-- `CheckerOutcome` of quikode/workers/outcomes.py.
pub record CheckerOutcome : Type 0 where
  pub verdict : CheckVerdict
  pub checker_text : Text
  pub transient : Bool
  pub rc : Option ℤ
  pub stderr : Text
  pub category : Text

abbrev pub empty_diff_prefix : Text
empty_diff_prefix = codes "VERDICT: FAIL\nROOT_CAUSE: doer produced no diff"

abbrev pub no_op_done_prefix : Text
no_op_done_prefix = codes "VERDICT: PASS\nROOT_CAUSE: subtask no-op DONE"

abbrev pub cannot_reproduce_prefix : Text
cannot_reproduce_prefix = codes "VERDICT: FAIL\nROOT_CAUSE: cannot reproduce CI failure locally"

-- A synthesized outcome.
abbrev synthesized : CheckVerdict → Text → CheckerOutcome
synthesized verdict checker_text = record {
  verdict = verdict;
  checker_text = checker_text;
  transient = false;
  rc = none;
  stderr = [];
  category = codes "none";
}

abbrev pub no_op_done_outcome : CheckerOutcome
no_op_done_outcome = synthesized pass (
    no_op_done_prefix
    ++ codes
        "; objective gate green and scoped witnesses green on an empty diff. Subtask was already satisfied by upstream commits.")

abbrev pub cannot_reproduce_outcome : CheckerOutcome
cannot_reproduce_outcome = synthesized fail (
    cannot_reproduce_prefix
    ++ codes
        " (Plan 53 environmental-drift signal). Doer ran the CI-fix recipe and produced no diff while the local objective gate and scoped witnesses are green. GitHub CI must be diverging on environment, not code. Operator action: investigate environmental drift between the local container and the CI runner.")

abbrev pub empty_diff_outcome : CheckerOutcome
empty_diff_outcome = synthesized fail (
    empty_diff_prefix
    ++ codes
        " (transport-class failure). git status --porcelain returned 0 entries. Skipping LLM checker; this is not a content-grading failure.")

-- `int(entry.get("rc", 1) or 1) != 0`: both `none` and 0 are replaced by 1.
abbrev pub rc_or_one : Option ℤ → ℤ
rc_or_one none = pos 1
rc_or_one (some rc) = if is_pos 0 rc then pos 1 else rc

-- quikode/workers/subtask_render.py
unfoldable pub witnesses_all_passed : List Witness → Bool
unfolding is_pos
witnesses_all_passed [] = true
witnesses_all_passed (w ∷ results) =
    if not (is_pos 0 (rc_or_one w.rc))
    then false
    else if w.classification == codes "FAIL"
    then false
    else witnesses_all_passed results

abbrev pub is_fixup_ci_subtask : Subtask → Bool
is_fixup_ci_subtask subtask = subtask.kind == codes "fixup_ci" || subtask.kind == codes "fixup-ci"

unfoldable pub classify_empty_diff_branch : Subtask → List Witness → CheckerOutcome
unfolding witnesses_all_passed
classify_empty_diff_branch subtask results =
    if not (witnesses_all_passed results)
    then empty_diff_outcome
    else if is_fixup_ci_subtask subtask
    then cannot_reproduce_outcome
    else no_op_done_outcome

-- quikode/agents/transient_quota.py
abbrev pub transient_stderr_markers : List Text
transient_stderr_markers =
    codes "Error response from daemon"
    ∷ codes "Cannot connect to the Docker daemon"
    ∷ codes "container not running"
    ∷ codes "context deadline exceeded"
    ∷ []

unfoldable pub is_transient_container_failure : ℤ → Text → Bool
unfolding is_pos
is_transient_container_failure rc stderr =
    if is_pos 0 rc
    then false
    else if is_pos 137 rc
    then true
    else any (λ marker. contains marker stderr) transient_stderr_markers

-- `(stdout or "") + ("\n" + stderr if stderr else "")`
abbrev pub output_blob : Text → Text → Text
output_blob stdout [] = stdout
output_blob stdout (c ∷ stderr) = stdout ++ 10 ∷ c ∷ stderr

abbrev pub failed_check_text : Text → ℤ → Text → Text
failed_check_text cmd rc blob =
    codes "VERDICT: FAIL\nROOT_CAUSE: objective subtask check `"
    ++ cmd
    ++ codes "` failed (rc="
    ++ str_int rc
    ++ codes ")\nDETAILS:\n"
    ++ take_text 6000 blob

-- What `_run_subtask_check_command` makes of the command's end.
unfoldable pub objective_outcome : Text → Ran → Option CheckerOutcome
unfolding is_pos is_transient_container_failure
objective_outcome cmd (raised e) = some (record {
  verdict = fail;
  checker_text = codes "subtask check command raised: " ++ e;
  transient = true;
  rc = some (pos 124);
  stderr = e;
  category = codes "none";
})
objective_outcome cmd (ran rc stdout stderr) =
    let blob = output_blob stdout stderr in
    if is_pos 0 rc
    then none
    else some (record {
      verdict = fail;
      checker_text = failed_check_text cmd rc blob;
      transient =
          is_transient_container_failure rc stderr || is_transient_container_failure rc blob;
      rc = some rc;
      stderr = stderr;
      category = codes "none";
    })

abbrev pub check_command : Settings → Subtask → Text
check_command cfg subtask =
    if subtask.id == stabilization_subtask_id
    then strip (or_default [] cfg.local_ci_command)
    else strip (or_default [] cfg.subtask_check_command)

-- `result.transient`, or a quick failure of the call.
abbrev pub agent_transient : {A : Type 0} → AgentResult A → Bool
agent_transient r = r.transient || not (is_pos 0 r.rc) && r.quick

abbrev pub join_details : List Text → Text
join_details [] = []
join_details (e ∷ []) = e
join_details (e ∷ f ∷ errors) = e ++ codes "; " ++ join_details (f ∷ errors)

-- `_checker_parse_failure`, with the schema's name left out of the text.
abbrev pub parse_failure_outcome : AgentResult CheckerReport → CheckerOutcome
parse_failure_outcome r = record {
  verdict = fail;
  checker_text =
      codes
        "VERDICT: FAIL\nROOT_CAUSE: subtask checker output failed schema validation; failure_layer=parse_failure.\nDETAILS:\n"
      ++ take_text 4000 (join_details r.parse_errors);
  transient = r.transient;
  rc = some r.rc;
  stderr = r.stderr_excerpt;
  category = r.category;
}

abbrev pub report_outcome : AgentResult CheckerReport → CheckerReport → CheckerOutcome
report_outcome r report = record {
  verdict = report.verdict;
  checker_text = report.rendered;
  transient = agent_transient r;
  rc = some r.rc;
  stderr = r.stderr_excerpt;
  category = r.category;
}

-- `_run_llm_subtask_checker` from the agent's result.
abbrev pub checker_outcome_of :
    AgentResult CheckerReport → List Text → Option CheckerReport → CheckerOutcome
checker_outcome_of r (e ∷ errors) structured = parse_failure_outcome r
checker_outcome_of r [] none = parse_failure_outcome r
checker_outcome_of r [] (some report) = report_outcome r report

module _ {W : Type 0} (o : World W) (cfg : Settings) (task_id : Text) (subtask : Subtask) where
  unfoldable pub run_llm_subtask_checker : Work W CheckerOutcome
  unfolding is_pos
  run_llm_subtask_checker = do
    r ← act o.checker_agent
    return (checker_outcome_of r r.parse_errors r.structured)

  unfoldable pub run_subtask_check_command : Work W (Option CheckerOutcome)
  unfolding objective_outcome strip
  run_subtask_check_command = if check_command cfg subtask == [] then return none else (do
    r ← act (o.exec_check (check_command cfg subtask))
    return (objective_outcome (check_command cfg subtask) r))

  -- The checks behind the objective one, which decides alone if it fails.
  unfoldable pub check_diff : Option CheckerOutcome → Text → List Witness → Work W CheckerOutcome
  unfolding classify_empty_diff_branch run_llm_subtask_checker
  check_diff (some outcome) diff results = return outcome
  check_diff none [] results = return (classify_empty_diff_branch subtask results)
  check_diff none (c ∷ diff) results = run_llm_subtask_checker

  unfoldable pub check_subtask : Work W CheckerOutcome
  unfolding run_subtask_check_command check_diff
  check_subtask = do
    enter enter_checking_subtask task_id (some subtask.id)
    set_row task_id subtask.id (λ r. record r { state = checking })
    objective ← run_subtask_check_command
    diff ← see o.last_diff_text
    results ← see o.last_witness_results
    check_diff objective diff results
