-- ===== src/Audit/Summary.antt =====
-- The audit summary that quikode/store_planning_cycle.py keeps for a task, and what
-- quikode/workers/pre_pr_audit_stages.py reads from it to resume a cycle. Times and texts are left out.
use quikode.Prelude.{
  ℕ, Bool, false, ◌&&◌, ◌||◌, Option, none, some, List, [], ◌∷◌, any, nat_eq, ltb, if◌then◌else◌,
}
use quikode.Audit.Findings.{
  StageName, local_ci, rubric, standards, architecture, behavior, same_stage,
}

-- `passed` is `none` for a stage in flight.
pub record StageEntry : Type 0 where
  pub name : StageName
  pub passed : Option Bool

pub record Summary : Type 0 where
  pub cycle : ℕ
  pub stages : List StageEntry

abbrev pub queued : StageName → StageEntry
queued name = record { name = name; passed = none }

unfoldable pub begin_pre_pr_audit_cycle : ℕ → Summary
begin_pre_pr_audit_cycle cycle = record {
  cycle = cycle;
  stages =
      queued local_ci
      ∷ queued rubric
      ∷ queued standards
      ∷ queued architecture
      ∷ queued behavior
      ∷ [];
}

-- The first entry of the stage is overwritten, or a new one stands at the end.
unfoldable pub set_stage : StageName → Bool → List StageEntry → List StageEntry
set_stage name passed [] = record { name = name; passed = some passed } ∷ []
set_stage name passed (s ∷ stages) =
    if same_stage s.name name
    then record s { passed = some passed } ∷ stages
    else s ∷ set_stage name passed stages

abbrev pub for_cycle : ℕ → Option Summary → Summary
for_cycle cycle none = begin_pre_pr_audit_cycle cycle
for_cycle cycle (some s) = if nat_eq s.cycle cycle then s else begin_pre_pr_audit_cycle cycle

unfoldable pub update_pre_pr_audit_stage : ℕ → StageName → Bool → Option Summary → Summary
unfolding begin_pre_pr_audit_cycle set_stage
update_pre_pr_audit_stage cycle name passed existing =
    let s = for_cycle cycle existing in record s { stages = set_stage name passed s.stages }

abbrev pub is_true : Option Bool → Bool
is_true none = false
is_true (some b) = b

abbrev pub has_passed : StageEntry → Bool
has_passed s = is_true s.passed

-- `_resumable_pre_pr_audit_summary`
abbrev pub resumable_if : ℕ → Summary → Option Summary
resumable_if max_cycles s =
    if ltb s.cycle 1 || ltb max_cycles s.cycle
    then none
    else if any has_passed s.stages
    then some s
    else none

unfoldable pub resumable_pre_pr_audit_summary : ℕ → Option Summary → Option Summary
resumable_pre_pr_audit_summary max_cycles none = none
resumable_pre_pr_audit_summary max_cycles (some s) = resumable_if max_cycles s

-- `_pre_pr_stage_passed`, which is also whether `_stage_outcome_from_summary` gives a pass.
unfoldable pub pre_pr_stage_passed : Option Summary → StageName → Bool
pre_pr_stage_passed none name = false
pre_pr_stage_passed (some s) name = any (λ e. same_stage e.name name && has_passed e) s.stages
