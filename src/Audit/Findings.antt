-- ===== src/Audit/Findings.antt =====
-- The stage outcomes of quikode/pre_pr_audit.py, what counts their findings, and the two reports of
-- quikode/workers/pre_pr_reports.py. Summaries, raw outputs and rendered reports are left out; a report
-- is kept as the data it shows.
use quikode.Prelude.{
  ℕ, suc, Bool, true, false, not, ◌||◌, Option, none, some, List, [], ◌∷◌, ◌++◌, Text, codes, ◌==◌,
  map, keep, any, all, elem, ltb, if◌then◌else◌, ℤ, pos, negsuc, decimal, sort,
}
use quikode.Merge.Nodes.{lower}

pub data StageName : Type 0 where
  local_ci rubric standards architecture behavior : StageName

unfoldable pub stage_text : StageName → Text
stage_text local_ci = codes "local_ci"
stage_text rubric = codes "rubric"
stage_text standards = codes "standards"
stage_text architecture = codes "architecture"
stage_text behavior = codes "behavior"

-- The entries of a finding's dictionary that are read, with [] for a missing one: `or` treats both
-- alike. `gaps` and `completeness_gaps` are the ids of the gaps that have one.
pub record Finding : Type 0 where
  pub kind : Text
  pub id : Text
  pub behavior_id : Text
  pub category : Text
  pub file : Text
  pub severity : Text
  pub gaps : List Text
  pub completeness_gaps : List Text

pub record StageOutcome : Type 0 where
  pub name : StageName
  pub passed : Bool
  pub findings : List Finding

-- `PipelineCycleResult`: `passed` and `failed_stages` of it.
abbrev pub cycle_passed : List StageOutcome → Bool
cycle_passed stages = all (λ s. s.passed) stages

abbrev pub failed_stages : List StageOutcome → List StageOutcome
failed_stages stages = keep (λ s. not s.passed) stages

-- `severity_counts(findings)[severity]`
unfoldable pub severity_count : Text → List Finding → ℕ
unfolding ◌==◌
severity_count severity [] = 0
severity_count severity (f ∷ findings) =
    if lower f.severity == severity
    then suc (severity_count severity findings)
    else severity_count severity findings

-- The severities whose count is over the budget, with count and budget.
abbrev pub over : Text → ℕ → List Finding → List (Text × ℕ × ℕ)
over severity budget findings =
    if ltb budget (severity_count severity findings)
    then (severity, severity_count severity findings, budget) ∷ []
    else []

unfoldable pub severity_budget_violations : List Finding → ℕ → ℕ → ℕ → List (Text × ℕ × ℕ)
unfolding severity_count
severity_budget_violations findings medium high critical =
    over (codes "medium") medium findings
    ++ over (codes "high") high findings
    ++ over (codes "critical") critical findings

abbrev pub is_empty_list {ℓ} : {A : Type ℓ} → List A → Bool
is_empty_list [] = true
is_empty_list (x ∷ xs) = false

-- `_build_standards_outcome` and `_build_architecture_outcome`: the budgets decide.
unfoldable pub build_budget_outcome : StageName → ℕ → ℕ → ℕ → List Finding → StageOutcome
unfolding severity_budget_violations
build_budget_outcome name medium high critical findings = record {
  name = name;
  passed = is_empty_list (severity_budget_violations findings medium high critical);
  findings = findings;
}

-- `x or y`
abbrev pub or_text : Text → Text → Text
or_text [] y = y
or_text (c ∷ x) y = c ∷ x

-- The id of a finding, which one without any gets from its place.
abbrev pub raw_id : Finding → Text
raw_id f = or_text f.id (or_text f.behavior_id (or_text f.category (or_text f.file f.kind)))

abbrev pub auto_id : ℕ → Text → Text
auto_id n [] = codes "auto-" ++ decimal n
auto_id n (c ∷ raw) = c ∷ raw

abbrev pub namespaced : StageName → Text → Text
namespaced name raw = stage_text name ++ codes ":" ++ raw

-- `seen` and `ids` hold the same.
abbrev pub add_id : Text → List Text → List Text
add_id i ids = if elem i ids then ids else ids ++ i ∷ []

unfoldable pub add_ids : StageName → List Text → List Text → List Text
add_ids name [] ids = ids
add_ids name (g ∷ gaps) ids = add_ids name gaps (add_id (namespaced name g) ids)

unfoldable pub add_findings : StageName → ℕ → List Finding → List Text → List Text
unfolding add_ids
add_findings name n [] ids = ids
add_findings name n (f ∷ findings) ids = add_findings name (suc n) findings (
    add_id (namespaced name (auto_id n (raw_id f)))
      (add_ids name f.completeness_gaps (add_ids name f.gaps ids)))

unfoldable pub add_stages : List StageOutcome → List Text → List Text
unfolding add_findings
add_stages [] ids = ids
add_stages (s ∷ failed) ids = add_stages failed (add_findings s.name 0 s.findings ids)

unfoldable pub collect_finding_ids : List StageOutcome → List Text
unfolding add_stages
collect_finding_ids failed = add_stages failed []

abbrev pub non_deferable_finding_kinds : List Text
non_deferable_finding_kinds =
    codes "config_error"
    ∷ codes "bootstrap_error"
    ∷ codes "infra"
    ∷ codes "parse_failure"
    ∷ codes "render_failure"
    ∷ codes "transport"
    ∷ []

abbrev pub is_non_deferable : Finding → Bool
is_non_deferable f = elem f.kind non_deferable_finding_kinds

-- The settings that the release valve reads.
pub record Valve : Type 0 where
  pub after_cycles : ℤ
  pub defer_stages : List StageName
  pub max_critical_findings : ℕ

abbrev pub same_stage : StageName → StageName → Bool
same_stage a b = stage_text a == stage_text b

-- `after_cycles < 0 or cycle < after_cycles`
abbrev pub too_early : ℤ → ℕ → Bool
too_early (negsuc n) cycle = true
too_early (pos n) cycle = ltb cycle n

abbrev pub all_findings : List StageOutcome → List Finding
all_findings [] = []
all_findings (s ∷ stages) = s.findings ++ all_findings stages

-- `release_valve_report`: the names of the deferred stages, if the valve opens.
unfoldable pub release_valve_report : Valve → ℕ → List StageOutcome → Option (List Text)
unfolding severity_count
release_valve_report valve cycle stages =
    let failed = failed_stages stages in
    if too_early valve.after_cycles cycle || is_empty_list failed
    then none
    else if any (λ s. same_stage s.name local_ci || same_stage s.name behavior) failed
    then none
    else if not (all (λ s. any (same_stage s.name) valve.defer_stages) failed)
    then none
    else if any (λ s. is_empty_list s.findings || any is_non_deferable s.findings) failed
        || ltb valve.max_critical_findings (severity_count (codes "critical") (all_findings failed))
    then none
    else some (sort (map (λ s. stage_text s.name) failed))

-- The pairs that `structural_failure_report` names.
abbrev pub structural_of : StageOutcome → List (StageName × Text)
structural_of s = map (λ f. (s.name, f.kind)) (keep is_non_deferable s.findings)

abbrev pub structural_pairs : List StageOutcome → List (StageName × Text)
structural_pairs [] = []
structural_pairs (s ∷ failed) = structural_of s ++ structural_pairs failed

abbrev pub or_no_report : List (StageName × Text) → Option (List (StageName × Text))
or_no_report [] = none
or_no_report (p ∷ pairs) = some (p ∷ pairs)

unfoldable pub structural_failure_report : List StageOutcome → Option (List (StageName × Text))
structural_failure_report stages = or_no_report (structural_pairs (failed_stages stages))
