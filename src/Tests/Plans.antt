-- ===== src/Tests/Plans.antt =====
-- Runs of the planner's checks on a plan of two subtasks.
use quikode.Prelude.{
  ℕ, true, not, some, List, [], ◌∷◌, Text, codes, ◌==◌, sort, text_le, elem, IsUnique, All, keep,
  if◌then◌else◌, ok, ◌≡◌, refl, ◌↔◌,
}
use quikode.Topo.Kahn.{degrees, count_edge, loop, round, relax, check_length}
use quikode.Plan.Schema.{
  RubricTarget, DocRef, Subtask, subtask_ids, check_plan, check_unique, check_known,
  check_fixup_plan, topo_order_raise_on_cycle, maybe_inject_stabilization,
}
use quikode.Plan.Valid.{is_known, check_fixup_plan_iff}
use quikode.Plan.Validators.{
  validate_evidence_partition, validate_finding_coverage, is_parse_failure_finding,
}
use quikode.Plan.Evidence.{IsPartition, validate_evidence_partition_iff}
use quikode.Plan.Findings.{IsTaken, validate_finding_coverage_iff}
use quikode.Plan.Stabilize.{injection-is_accepted}

abbrev domain : Text
domain = codes "S-01"

abbrev api : Text
api = codes "S-02"

abbrev quality : Text
quality = codes "quality"

abbrev subtask : Text → List Text → List RubricTarget → List DocRef → List Text → Subtask
subtask id deps targeted standards evidence = record {
  id = id;
  title = [];
  depends_on = deps;
  files_to_touch = [];
  boundary = [];
  acceptance = codes "builds" ∷ [];
  notes = [];
  interfaces = [];
  kind = codes "spec";
  rubric_targets = targeted;
  standards_referenced = standards;
  architecture_referenced = [];
  behavior_evidence_advanced = evidence;
  root_cause_hypothesis = [];
}

abbrev first : Subtask
first =
    subtask domain [] (record { category = quality; predicted_score = 8 } ∷ [])
      (record { doc_path = codes "p.md"; section = codes "s" } ∷ []) (codes "B-1" ∷ [])

abbrev second : Subtask
second = subtask api (domain ∷ []) [] [] (codes "B-2" ∷ [])

abbrev plan : List Subtask
plan = second ∷ first ∷ []

abbrev gate : Text
gate = codes "just ci"

plan-is_accepted : check_plan plan ≡ ok (domain ∷ api ∷ [])
unfolding check_plan check_unique check_known topo_order_raise_on_cycle degrees count_edge loop
    round relax check_length sort text_le ◌==◌
plan-is_accepted = refl

abbrev rank : Text → ℕ
rank n = if n == domain then 0 else 1

-- Two subtasks that need each other: a fixup plan of the two is accepted.
abbrev looped : List Subtask
looped = record first { depends_on = api ∷ [] } ∷ second ∷ []

check_fixup_plan_iff_example :
    (check_fixup_plan looped ≡ ok tt)
    ↔ (IsUnique (subtask_ids looped) × (is_known (subtask_ids looped) looped ≡ true))
check_fixup_plan_iff_example = check_fixup_plan_iff looped

fixup_cycle-is_accepted : check_fixup_plan looped ≡ ok tt
unfolding check_fixup_plan check_unique check_known ◌==◌
fixup_cycle-is_accepted = refl

validate_evidence_partition_iff_example :
    (validate_evidence_partition plan (codes "B-1" ∷ codes "B-2" ∷ []) ≡ ok tt)
    ↔ IsPartition (codes "B-1" ∷ codes "B-2" ∷ []) plan
validate_evidence_partition_iff_example =
    validate_evidence_partition_iff plan (codes "B-1" ∷ codes "B-2" ∷ [])

abbrev audit : List Text
audit = codes "rubric:quality" ∷ codes "behavior:B-9" ∷ codes "standards:parse_failure" ∷ []

validate_finding_coverage_iff_example :
    (validate_finding_coverage plan (codes "behavior:B-9" ∷ []) audit ≡ ok tt)
    ↔ All
        (IsTaken plan (codes "behavior:B-9" ∷ []))
        (keep (λ fid. not (is_parse_failure_finding fid)) audit)
validate_finding_coverage_iff_example =
    validate_finding_coverage_iff plan (codes "behavior:B-9" ∷ []) audit

injection-is_accepted_example :
    (r : List Text) × (check_plan
        (maybe_inject_stabilization plan (some gate) (quality ∷ []) (some 7))
      ≡ ok r)
injection-is_accepted_example =
    injection-is_accepted plan (some gate) (quality ∷ []) (some 7) (domain ∷ api ∷ [])
      plan-is_accepted

quality-is_listed : elem quality (codes "tests" ∷ quality ∷ []) ≡ true
unfolding ◌==◌
quality-is_listed = refl
