-- ===== src/Audit/Cycles.antt =====
-- The audit cycles of quikode/workers/audit_driver.py, with the settling of a cycle in
-- quikode/workers/pre_pr.py and the bootstrap of quikode/workers/audit_bootstrap.py. What the bootstrap
-- and a fixup round do is given.
use quikode.Prelude.{
  ℕ, zero, suc, ◌-◌, Bool, not, Option, none, some, List, [], ◌∷◌, ◌++◌, Text, codes, decimal, map,
  nat_eq, Result, ok, raise, if◌then◌else◌,
}
use quikode.Fsm.Table.{State, blocked, state_eq}
use quikode.Store.Rows.{initial, pre_pr_review, no_trigger, set_last_error}
use quikode.Store.Tasks.{select, enter_phase}
use quikode.Runtime.Helpers.{
  call, current_state, block_current, enter_local_ci_checking, enter_fixup_planning,
  enter_audit_cycle_for_ci_fixup, enter_audit_cycle_for_review_fixup,
}
use quikode.Runtime.Stages.{stage_helper, audit_behavior_passed}
use quikode.Merge.Parents.{join}
use quikode.Subtasks.Cycles.{take_text}
use quikode.Audit.Findings.{
  StageOutcome, stage_text, local_ci, Valve, cycle_passed, failed_stages, release_valve_report,
  structural_failure_report, collect_finding_ids,
}
use quikode.Audit.Summary.{
  Summary, begin_pre_pr_audit_cycle, resumable_pre_pr_audit_summary, pre_pr_stage_passed,
}
use quikode.Audit.Stages.{
  Auditors, Audit, Stop, shutdown, failure, Work, in_store, execute_audit_stages, label, return,
  ◌>>=◌, ◌>>◌,
}

pub data AuditTriggerSource : Type 0 where
  initial_audit ci_failure review_feedback : AuditTriggerSource

-- `prepare` is the fresh container and its bootstrap, and gives the note and the error of a failure;
-- `report_text` is the text of a structural failure's report, with the outcomes that it renders.
-- `fixup_round` is `_run_fixup_round` with the cycle and the ids of the findings, and returns the final
-- state of its outcome.
pub record Driver (W : Type 0) : Type 0 where
  pub auditors : Auditors W
  pub prepare : ℕ → W → Option (Text × Text) × W
  pub report_text : List StageOutcome → Text
  pub fixup_round : ℕ → List Text → Work W (Option State)

pub record AuditConfig : Type 0 where
  pub pre_pr_audit_max_cycles : ℕ
  pub audit_fresh_container : Bool
  pub valve : Valve

-- How a cycle ended: by a pass, by going on, or by the outcome with its final state.
pub data CycleEnd : Type 0 where
  passed goes_on : CycleEnd
  outcome : State → CycleEnd

abbrev pub cycle_of : Option Summary → ℕ
cycle_of none = 1
cycle_of (some s) = s.cycle

-- The summary that is resumed, if it is of this cycle.
abbrev pub resumed_in : ℕ → Option Summary → Option Summary
resumed_in cycle none = none
resumed_in cycle (some s) = if nat_eq s.cycle cycle then some s else none

module _ {W : Type 0} (d : Driver W) (cfg : AuditConfig) (task_id : Text)
    (merge_node_mode full : Bool) where
  -- `block_current` with a note and the error, and the outcome BLOCKED.
  unfoldable pub block_with : Text → Text → Work W State
  block_with text error = do
    in_store (block_current task_id (some text) (set_last_error (some error) ∷ []))
    return blocked

  -- `maybe_enter_pre_pr_review_phase`: whatever it raises is caught.
  unfoldable pub maybe_enter_pre_pr_review_phase : Work W (Unit {0})
  maybe_enter_pre_pr_review_phase w = elim (select task_id w.store.tasks) [
    | none ↦ (ok tt, w)
    | some row ↦ elim row.phase [
      | initial ↦ (
        ok tt,
        record w {
          store =
              (enter_phase task_id pre_pr_review 1 no_trigger
                (some (codes "initial subtasks done; entering PRE_PR_REVIEW phase")) w.store).1;
        },
      )
      | _ ↦ (ok tt, w)
    ]
  ]

  unfoldable pub audit_cycle_prologue : AuditTriggerSource → Work W (Unit {0})
  unfolding maybe_enter_pre_pr_review_phase
  audit_cycle_prologue initial_audit = maybe_enter_pre_pr_review_phase
  audit_cycle_prologue ci_failure = do
    in_store (
        call enter_audit_cycle_for_ci_fixup task_id
          (some (codes "post-PR CI failure: entering unified audit cycle")) [])
    return tt
  audit_cycle_prologue review_feedback = do
    in_store (
        call enter_audit_cycle_for_review_fixup task_id
          (some (codes "post-PR CHANGES_REQUESTED: entering unified audit cycle")) [])
    return tt

  -- `prepare_audit_cycle`: a bootstrap that failed blocks the task.
  unfoldable pub prepare_audit_cycle : ℕ → Work W (Option State)
  unfolding block_with
  prepare_audit_cycle cycle w =
      let (broken, world) = d.prepare cycle w.world in
      if not cfg.audit_fresh_container then (ok none, w) else (elim broken [
        | none ↦ (ok none, record w { world = world })
        | some texts ↦
            (do final ← block_with texts.0 texts.1; return (some final))
              (record w { world = world })
      ])

  -- `_enter_audit_cycle`, from the summary that the cycle resumes.
  unfoldable pub enter_audit_cycle : ℕ → Option Summary → Work W (Option State)
  unfolding prepare_audit_cycle
  enter_audit_cycle cycle (some s) = return none
  enter_audit_cycle cycle none = do
    (λ w. (ok tt, record w { summary = some (begin_pre_pr_audit_cycle cycle) }))
    prepare_audit_cycle cycle

  abbrev pub structural_note : ℕ → Text
  structural_note cycle =
      codes "pre-pr cycle "
      ++ decimal cycle
      ++ codes " structural audit failure; blocked instead of fixup planning"

  unfoldable pub block_structural : ℕ → List StageOutcome → Work W (Option CycleEnd)
  unfolding block_with
  block_structural cycle stages = do
    final ← block_with (structural_note cycle) (take_text 1000 (d.report_text stages))
    return (some (outcome final))

  -- `_settle_pre_pr_cycle` for a failed cycle: `none` where the fixup planner comes next.
  unfoldable pub settle_failed : ℕ → List StageOutcome → Work W (Option CycleEnd)
  unfolding block_structural
  settle_failed cycle stages = elim (release_valve_report cfg.valve cycle stages) [
    | some deferred ↦ return (some passed)
    | none ↦ elim (structural_failure_report stages) [
      | none ↦ return none
      | some pairs ↦ block_structural cycle (failed_stages stages)
    ]
  ]

  unfoldable pub settle_pre_pr_cycle : ℕ → List StageOutcome → Work W (Option CycleEnd)
  unfolding settle_failed
  settle_pre_pr_cycle cycle stages =
      if cycle_passed stages then return (some passed) else settle_failed cycle stages

  -- The end of a cycle that settled: a pass fires the last stage's event, for a task that is no
  -- merge node.
  unfoldable pub finish_cycle : ℕ → CycleEnd → Work W CycleEnd
  finish_cycle cycle passed = if merge_node_mode then return passed else (do
    in_store (
        call (stage_helper audit_behavior_passed) task_id
          (some (codes "audit cycle " ++ decimal cycle ++ codes " passed cleanly")) [])
    return passed)
  finish_cycle cycle goes_on = return goes_on
  finish_cycle cycle (outcome final) = return (outcome final)

  -- What the driver makes of a fixup round's outcome.
  abbrev pub after_fixup : Option State → CycleEnd
  after_fixup none = goes_on
  after_fixup (some final) = if state_eq final blocked then outcome final else goes_on

  abbrev pub failed_note : ℕ → List StageOutcome → Option Text
  failed_note cycle stages = some (
      codes "audit cycle "
      ++ decimal cycle
      ++ codes " failed: "
      ++ join (codes ", ") (map (λ s. stage_text s.name) (failed_stages stages)))

  unfoldable pub run_fixup_round : ℕ → List StageOutcome → Work W CycleEnd
  run_fixup_round cycle stages = do
    final ← d.fixup_round cycle (collect_finding_ids (failed_stages stages))
    return (after_fixup final)

  unfoldable pub drive_fixup_round : ℕ → List StageOutcome → Work W CycleEnd
  unfolding run_fixup_round
  drive_fixup_round cycle stages = do
    in_store (call enter_fixup_planning task_id (failed_note cycle stages) [])
    run_fixup_round cycle stages

  abbrev pub settled_or : Option CycleEnd → ℕ → List StageOutcome → Work W CycleEnd
  settled_or (some e) cycle stages = finish_cycle cycle e
  settled_or none cycle stages = drive_fixup_round cycle stages

  -- The cycle from its stages on.
  unfoldable pub judge_stages : ℕ → List StageOutcome → Work W CycleEnd
  unfolding settle_pre_pr_cycle finish_cycle drive_fixup_round
  judge_stages cycle stages = do
    settled ← settle_pre_pr_cycle cycle stages
    settled_or settled cycle stages

  -- A shutdown during the stages ends the cycle with the state that the task is in.
  unfoldable pub or_shutdown :
      ℕ → Result Stop (List StageOutcome) × Audit W → Result Stop CycleEnd × Audit W
  unfolding judge_stages
  or_shutdown cycle (ok stages, w) = judge_stages cycle stages w
  or_shutdown cycle (raise shutdown, w) =
      (do state ← in_store (current_state task_id); return (outcome state)) w
  or_shutdown cycle (raise (failure e), w) = (raise (failure e), w)

  unfoldable pub enter_first_check : AuditTriggerSource → ℕ → Option Summary → Work W (Option State)
  enter_first_check initial_audit cycle resume =
      if pre_pr_stage_passed resume local_ci
      then return none
      else in_store (
          call enter_local_ci_checking task_id (label d.auditors task_id cycle (codes "local-ci"))
            [])
  enter_first_check trigger cycle resume = return none

  unfoldable pub run_one_audit_cycle : AuditTriggerSource → ℕ → Option Summary → Work W CycleEnd
  unfolding enter_audit_cycle enter_first_check or_shutdown
  run_one_audit_cycle trigger cycle resume = do
    blocked_by ← enter_audit_cycle cycle (resumed_in cycle resume)
    elim blocked_by [
      | some final ↦ return (outcome final)
      | none ↦ do
        enter_first_check trigger cycle (resumed_in cycle resume)
        (λ w.
            or_shutdown cycle
              (execute_audit_stages d.auditors task_id cycle full (resumed_in cycle resume) w))
    ]

  abbrev pub exhausted_note : Text
  exhausted_note =
      codes "pre-PR audit pipeline exhausted "
      ++ decimal cfg.pre_pr_audit_max_cycles
      ++ codes " cycle(s) without a clean pass — manual review required"

  abbrev pub exhausted : Work W (Option State)
  exhausted = do
    final ← block_with exhausted_note (take_text 1000 exhausted_note)
    return (some final)

  -- The loop over the cycles that are left; `none` is a clean end, else the outcome's final state.
  unfoldable pub run_cycles : AuditTriggerSource → ℕ → ℕ → Option Summary → Work W (Option State)
  unfolding run_one_audit_cycle block_with
  run_cycles trigger zero cycle resume = exhausted
  run_cycles trigger (suc left) cycle resume = do
    end ← run_one_audit_cycle trigger cycle resume
    elim end [
      | passed ↦ return none
      | outcome final ↦ return (some final)
      | goes_on ↦ run_cycles trigger left (suc cycle) none
    ]

  unfoldable pub run_audit_cycle : AuditTriggerSource → Work W (Option State)
  unfolding audit_cycle_prologue run_cycles
  run_audit_cycle trigger = do
    audit_cycle_prologue trigger
    resume ← (λ w. (ok (resumable_pre_pr_audit_summary cfg.pre_pr_audit_max_cycles w.summary), w))
    run_cycles trigger (suc cfg.pre_pr_audit_max_cycles - cycle_of resume) (cycle_of resume) resume
