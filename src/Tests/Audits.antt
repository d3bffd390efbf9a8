-- ===== src/Tests/Audits.antt =====
-- An audit in which the rubric stage alone fails, with a finding that may be deferred.
use quikode.Prelude.{
  ℕ, Bool, true, false, none, List, [], ◌∷◌, Text, codes, ok, ◌≡◌, refl, ◌⊎◌, elem, IsUnique, ◌==◌,
  pos,
}
use quikode.Fsm.Table.{State, local_ci_checking, audit_rubric, pushing, merge_node_built}
use quikode.Fsm.Rules.{transitions, is_audit_stage}
use quikode.Store.Rows.{new_row}
use quikode.Store.Tasks.{select, get}
use quikode.Store.Fire.{IsAt}
use quikode.Runtime.Helpers.{call, current_state, carry_out, move_of}
use quikode.Audit.Findings.{
  stage_text, StageName, local_ci, rubric, standards, architecture, behavior, Finding, StageOutcome,
  cycle_passed, failed_stages, release_valve_report, collect_finding_ids,
}
use quikode.Audit.Stages.{in_store, Auditors, Audit, execute_audit_stages}
use quikode.Audit.Cycles.{Driver, AuditConfig, passed, judge_stages}
use quikode.Audit.Parks.{Ends, started, opens_gauntlet}
use quikode.Audit.Stays.{Stays, execute_audit_stages-Stays}
use quikode.Audit.Valve.{MayDefer}
use quikode.Audit.Opens.{after_clean, deferred_at, judge_stages-outcome}
use quikode.Audit.Ids.{stage_ids, collect_finding_ids-is_exact}

abbrev task : Text
task = codes "R-0001"

abbrev gap : Finding
gap = record {
  kind = codes "rubric_below_threshold";
  id = codes "category-security";
  behavior_id = [];
  category = codes "security";
  file = [];
  severity = [];
  gaps = codes "g1" ∷ codes "g1" ∷ [];
  completeness_gaps = [];
}

abbrev outcome_of : StageName → StageOutcome
outcome_of rubric = record { name = rubric; passed = false; findings = gap ∷ [] }
outcome_of name = record { name = name; passed = true; findings = [] }

abbrev auditors : Auditors ℕ
auditors = record { run_stage = λ name w. (outcome_of name, w); stop_requested = λ w. false }

abbrev audit_in : State → Audit ℕ
audit_in state = record {
  store = record { tasks = new_row task state ∷ []; log = []; captures = [] };
  summary = none;
  world = 0;
}

begins-IsAt : IsAt task local_ci_checking (audit_in local_ci_checking).store
unfolding select ◌==◌ new_row
begins-IsAt = record { row = new_row task local_ci_checking; found = refl; state = refl }

parks-IsAt : IsAt task audit_rubric (audit_in audit_rubric).store
unfolding select ◌==◌ new_row
parks-IsAt = record { row = new_row task audit_rubric; found = refl; state = refl }

execute_audit_stages-Stays_example :
    Ends
      (Stays auditors task 1 local_ci_checking)
      (execute_audit_stages auditors task 1 false none (audit_in local_ci_checking))
    × ((b : Bool) → transitions (started b local_ci_checking) merge_node_built ≡ none)
execute_audit_stages-Stays_example =
    execute_audit_stages-Stays auditors task 1 none local_ci_checking (audit_in local_ci_checking)
      refl begins-IsAt

abbrev driver : Driver ℕ
driver = record {
  auditors = auditors;
  prepare = λ n w. (none, w);
  report_text = λ failed. [];
  fixup_round = λ n ids w. (ok none, w);
}

abbrev config : AuditConfig
config = record {
  pre_pr_audit_max_cycles = 10;
  audit_fresh_container = false;
  valve = record {
    after_cycles = pos 5;
    defer_stages = rubric ∷ standards ∷ architecture ∷ [];
    max_critical_findings = 0;
  };
}

abbrev stages : List StageOutcome
stages =
    outcome_of local_ci
    ∷ outcome_of rubric
    ∷ outcome_of standards
    ∷ outcome_of architecture
    ∷ outcome_of behavior
    ∷ []

-- In the fifth cycle the valve opens.
judged :
    judge_stages driver config task false true 5 stages (audit_in audit_rubric)
    ≡ (ok passed, audit_in audit_rubric)
unfolding judge_stages release_valve_report select ◌==◌ new_row in_store call current_state get
    carry_out move_of stage_text
judged = refl

judge_stages-outcome_example :
    ((cycle_passed stages ≡ true)
      × IsAt task (after_clean local_ci_checking) (audit_in audit_rubric).store)
    ⊎ (MayDefer config.valve 5 (failed_stages stages)
        × (true ≡ true)
        × (true ≡ true)
        × (opens_gauntlet local_ci_checking ≡ true
            → IsAt task (deferred_at false true) (audit_in audit_rubric).store)
        × (opens_gauntlet local_ci_checking ≡ false
            → is_audit_stage local_ci_checking ≡ false
            → IsAt task local_ci_checking (audit_in audit_rubric).store))
judge_stages-outcome_example =
    judge_stages-outcome driver config task true 5 (outcome_of local_ci) (outcome_of rubric)
      (outcome_of standards) (outcome_of architecture) (outcome_of behavior) local_ci_checking
      (audit_in audit_rubric)
      (record { first = refl; second = refl; third = refl; fourth = refl; fifth = refl }) parks-IsAt
      judged

-- A clean cycle that is judged in PUSHING passes there.
abbrev clean_stages : List StageOutcome
clean_stages = record (outcome_of local_ci) { passed = true } ∷ []

pushing_test :
    judge_stages driver config task false true 2 clean_stages (audit_in pushing)
    ≡ (ok passed, audit_in pushing)
unfolding judge_stages release_valve_report select ◌==◌ new_row in_store call current_state get
    carry_out move_of stage_text
pushing_test = refl

collect_finding_ids-is_exact_example :
    IsUnique (collect_finding_ids stages)
    × ((i : Text) → elem i (collect_finding_ids stages) ≡ elem i (stage_ids stages))
collect_finding_ids-is_exact_example = collect_finding_ids-is_exact stages

-- A gap that is named twice is listed once.
collect_finding_ids_test :
    collect_finding_ids stages ≡ codes "rubric:g1" ∷ codes "rubric:category-security" ∷ []
unfolding collect_finding_ids stage_text ◌==◌
collect_finding_ids_test = refl
