-- ===== src/Audit/Stages.antt =====
-- `_execute_audit_stages` of quikode/workers/pre_pr_audit_stages.py: the five stages in order, with the
-- events that carry the task along them. What an audit finds is given.
use quikode.Prelude.{
  ℕ, Bool, true, false, Option, none, some, List, [], ◌∷◌, ◌++◌, Text, codes, decimal, Result, ok,
  raise, if◌then◌else◌,
}
use quikode.Fsm.Table.{State}
use quikode.Fsm.Rules.{Failure}
use quikode.Store.Rows.{Store, Action}
use quikode.Runtime.Helpers.{call, enter_audit_local_ci}
use quikode.Runtime.Stages.{
  StageHelper, stage_helper, enter_audit_rubric, enter_audit_standards, enter_audit_architecture,
  enter_audit_behavior,
}
use quikode.Audit.Findings.{
  StageName, local_ci, rubric, standards, architecture, behavior, StageOutcome,
}
use quikode.Audit.Summary.{Summary, update_pre_pr_audit_stage, pre_pr_stage_passed}

-- What is outside: the runner of a stage, and whether the daemon was asked to stop.
pub record Auditors (W : Type 0) : Type 0 where
  pub run_stage : StageName → W → StageOutcome × W
  pub stop_requested : W → Bool

-- The task's store, its audit summary, and the world.
pub record Audit (W : Type 0) : Type 0 where
  pub store : Store
  pub summary : Option Summary
  pub world : W

-- `ShutdownRequested`, or an exception of the store.
pub data Stop : Type 0 where
  shutdown : Stop
  failure : Failure → Stop

abbrev pub Work : Type 0 → Type 0 → Type 0
Work W A = Audit W → Result Stop A × Audit W

abbrev pub or_failure : {A : Type 0} → Result Failure A → Result Stop A
or_failure (ok a) = ok a
or_failure (raise e) = raise (failure e)

-- The outcome that stands for a pass that was persisted before a restart.
abbrev pub reused : StageName → StageOutcome
reused name = record { name = name; passed = true; findings = [] }

module _ {W : Type 0} where
  abbrev pub work_then : {A B : Type 0} → Result Stop A → (A → Work W B) → Work W B
  work_then (raise e) rest w = (raise e, w)
  work_then (ok value) rest w = rest value w

  infixl 5 ◌>>=◌
  abbrev pub ◌>>=◌ : {A B : Type 0} (before : Work W A) (rest : A → Work W B) → Work W B
  ◌>>=◌ before rest w = let (result, after) = before w in work_then result rest after

  infixl 5 ◌>>◌
  abbrev pub ◌>>◌ : {A B : Type 0} (before : Work W A) (rest : Work W B) → Work W B
  before >> rest = before >>= (λ value. rest)

  abbrev pub return : {A : Type 0} → A → Work W A
  return a w = (ok a, w)

  -- An operation of the store.
  unfoldable pub in_store : {A : Type 0} → Action A → Work W A
  in_store f w = let (result, store) = f w.store in (or_failure result, record w { store = store })

module _ {W : Type 0} (o : Auditors W) (task_id : Text) (cycle : ℕ) where
  abbrev pub label : Text → Option Text
  label text = some (codes "audit cycle " ++ decimal cycle ++ codes ": " ++ text)

  -- `advance_to`, by the prior outcome's `passed`.
  unfoldable pub advance_to : StageHelper → Text → Bool → Work W Bool
  advance_to helper text false = return false
  advance_to helper text true = do
    in_store (call (stage_helper helper) task_id (label text) [])
    return true

  -- The runner, and the record of its outcome.
  unfoldable pub run_and_record : StageName → Work W StageOutcome
  run_and_record name w =
      let (outcome, world) = o.run_stage name w.world in
      if o.stop_requested world then (raise shutdown, record w { world = world }) else (
        ok outcome,
        record w {
          world = world;
          summary = some (update_pre_pr_audit_stage cycle name outcome.passed w.summary);
        },
      )

  unfoldable pub run_or_reuse : Option Summary → StageName → Work W StageOutcome
  unfolding run_and_record
  run_or_reuse resume name =
      if pre_pr_stage_passed resume name then return (reused name) else run_and_record name

  -- After a pass of local CI the task enters AUDIT_LOCAL_CI.
  unfoldable pub enter_after_local_ci : Bool → Work W (Option State)
  enter_after_local_ci false = return none
  enter_after_local_ci true =
      in_store (call (enter_audit_local_ci none) task_id (label (codes "local_ci passed")) [])

  -- The stages between local CI and behavior.
  unfoldable pub content_stages : Option Summary → StageOutcome → Work W (List StageOutcome)
  unfolding advance_to run_or_reuse
  content_stages resume first = do
    advance_to enter_audit_rubric (codes "rubric audit") first.passed
    second ← run_or_reuse resume rubric
    advance_to enter_audit_standards (codes "standards audit") second.passed
    third ← run_or_reuse resume standards
    advance_to enter_audit_architecture (codes "architecture audit") third.passed
    fourth ← run_or_reuse resume architecture
    advance_to enter_audit_behavior (codes "behavior audit") fourth.passed
    return (second ∷ third ∷ fourth ∷ [])

  -- `full` is `(not merge_node_mode) or self._merge_integration_subtasks_present()`.
  unfoldable pub middle_stages : Bool → Option Summary → StageOutcome → Work W (List StageOutcome)
  unfolding advance_to content_stages
  middle_stages true resume first = content_stages resume first
  middle_stages false resume first = do
    advance_to enter_audit_behavior (codes "behavior audit") first.passed
    return []

  unfoldable pub execute_audit_stages : Bool → Option Summary → Work W (List StageOutcome)
  unfolding run_or_reuse enter_after_local_ci middle_stages
  execute_audit_stages full resume = do
    first ← run_or_reuse resume local_ci
    enter_after_local_ci first.passed
    middle ← middle_stages full resume first
    last ← run_or_reuse resume behavior
    return (first ∷ middle ++ last ∷ [])
