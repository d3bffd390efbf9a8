-- ===== src/Plan/Schema.antt =====
-- The plan of quikode/subtask_schema.py: its subtasks, their order, the checks that pydantic calls
-- after the fields, and the stabilization subtask.
use quikode.Prelude.{
  ℕ, Bool, true, false, not, Option, none, some, List, [], ◌∷◌, ◌++◌, map, Text, codes, ◌==◌, elem,
  if◌then◌else◌, any, keep, length, Result, ok, raise, ◌>>◌,
}
use quikode.Topo.Kahn.{Edge, Order, ordered, cycle, out_of_fuel, degrees, loop, start, check_length}

pub record RubricTarget : Type 0 where
  pub category : Text
  pub predicted_score : ℕ

-- `StandardsRef` and `ArchitectureRef`.
pub record DocRef : Type 0 where
  pub doc_path : Text
  pub section : Text

pub record Subtask : Type 0 where
  pub id : Text
  pub title : Text
  pub depends_on : List Text
  pub files_to_touch : List Text
  pub boundary : Text
  pub acceptance : List Text
  pub notes : Text
  pub interfaces : List Text
  pub kind : Text
  pub rubric_targets : List RubricTarget
  pub standards_referenced : List DocRef
  pub architecture_referenced : List DocRef
  pub behavior_evidence_advanced : List Text
  pub root_cause_hypothesis : Text

-- What `_check_unique_and_acyclic` raises; the last stands for fuel that ran out.
pub data PlanError : Type 0 where
  duplicate_id : Text → PlanError
  unknown_dependency : Text → Text → PlanError
  subtask_cycle no_fuel : PlanError

abbrev pub PlanCheck : Type 0
PlanCheck = Result {0, 0} PlanError Unit

abbrev pub subtask_ids : List Subtask → List Text
subtask_ids subtasks = map (λ s. s.id) subtasks

-- The keys of `{s.id: ... for s in self.subtasks}`, in the order of insertion.
abbrev pub dict_keys : List Text → List Text → List Text
dict_keys seen [] = []
dict_keys seen (k ∷ ids) =
    let old = dict_keys seen ids in
    let new = dict_keys (k ∷ seen) ids in if elem k seen then old else k ∷ new

abbrev pub dependency_edges : List Subtask → List Edge
dependency_edges [] = []
dependency_edges (s ∷ subtasks) = map (λ d. (s.id, d)) s.depends_on ++ dependency_edges subtasks

abbrev pub or_cycle : Order → Result PlanError (List Text)
or_cycle (ordered out) = ok out
or_cycle cycle = raise subtask_cycle
or_cycle out_of_fuel = raise no_fuel

-- `_topo_order_raise_on_cycle`, by the ids of the subtasks that it returns.
unfoldable pub topo_order_raise_on_cycle : List Subtask → Result PlanError (List Text)
topo_order_raise_on_cycle subtasks =
    let keys = dict_keys [] (subtask_ids subtasks) in
    let edges = dependency_edges subtasks in
    or_cycle (
      check_length (subtask_ids subtasks)
        (loop (length keys) (degrees edges).rev (start keys edges)))

unfoldable pub check_unique : List Text → List Subtask → PlanCheck
check_unique ids [] = ok tt
check_unique ids (s ∷ subtasks) =
    let rest = check_unique (s.id ∷ ids) subtasks in
    if elem s.id ids then raise (duplicate_id s.id) else rest

abbrev pub check_dependencies : Text → List Text → List Text → PlanCheck
check_dependencies sid ids [] = ok tt
check_dependencies sid ids (d ∷ deps) =
    let rest = check_dependencies sid ids deps in
    if elem d ids then rest else raise (unknown_dependency sid d)

unfoldable pub check_known : List Text → List Subtask → PlanCheck
check_known ids [] = ok tt
check_known ids (s ∷ subtasks) =
    check_dependencies s.id ids s.depends_on >> check_known ids subtasks

-- `Plan._check_unique_and_acyclic`, with the order that it computes and drops.
unfoldable pub check_plan : List Subtask → Result PlanError (List Text)
check_plan subtasks =
    check_unique [] subtasks
    >> check_known (subtask_ids subtasks) subtasks
    >> topo_order_raise_on_cycle subtasks

-- `FixupPlan._check_unique_and_acyclic`
unfoldable pub check_fixup_plan : List Subtask → PlanCheck
check_fixup_plan subtasks = check_unique [] subtasks >> check_known (subtask_ids subtasks) subtasks

abbrev pub stabilization_subtask_id : Text
stabilization_subtask_id = codes "Z-99-stabilize-spec-gate"

-- `if rubric_categories and rubric_min_score is not None`
abbrev pub stabilization_targets : List Text → Option ℕ → List RubricTarget
stabilization_targets categories none = []
stabilization_targets categories (some score) =
    map (λ c. record { category = c; predicted_score = score }) categories

stabilization_boundary : Text → Text
stabilization_boundary command =
    codes "Make the spec gate (`"
    ++ command
    ++ codes
        "`) pass cleanly. May edit any file required to fix gate failures. Plan 33: `files_to_touch` is advisory — the audit gauntlet is the truth; gate-keeping cross-file fixes are always legitimate."

stabilization_acceptance : Text → List Text
stabilization_acceptance command =
    (codes "Spec gate (`" ++ command ++ codes "`) passes with rc=0")
    ∷ codes "All committed changes from prior subtasks remain functional"
    ∷ []

stabilization_notes : Text
stabilization_notes =
    codes
      "System-injected stabilization subtask (plan 24, plan 33 D4). Every prior subtask has already landed and been committed. Your job is to run the gate, fix anything that fails, run it again, and repeat until rc=0. As the holistic-pass guardian, your `rubric_targets` cover every category at the minimum score — the audit must clear that bar by the time you commit."

stabilization_title : Text
stabilization_title = codes "Stabilize spec gate — ensure all gate checks pass cleanly"

unfoldable pub build_stabilization_subtask : List Text → Text → List Text → Option ℕ → Subtask
unfolding stabilization_title stabilization_boundary stabilization_acceptance stabilization_notes
build_stabilization_subtask prior_ids command categories score = record {
  id = stabilization_subtask_id;
  title = stabilization_title;
  depends_on = prior_ids;
  files_to_touch = [];
  boundary = stabilization_boundary command;
  acceptance = stabilization_acceptance command;
  notes = stabilization_notes;
  interfaces = [];
  kind = codes "spec";
  rubric_targets = stabilization_targets categories score;
  standards_referenced = [];
  architecture_referenced = [];
  behavior_evidence_advanced = [];
  root_cause_hypothesis = [];
}

abbrev pub is_empty {ℓ} : {A : Type ℓ} → List A → Bool
is_empty [] = true
is_empty (x ∷ xs) = false

abbrev pub inject : List Subtask → Text → List Text → Option ℕ → List Subtask
inject subtasks command categories score =
    if any (λ s. s.id == stabilization_subtask_id) subtasks
    then subtasks
    else subtasks
      ++ build_stabilization_subtask (keep (λ i. not (is_empty i)) (subtask_ids subtasks)) command
          categories score
        ∷ []

-- `_maybe_inject_stabilization`, with the gate's command, the categories and the minimum score.
unfoldable pub maybe_inject_stabilization :
    List Subtask → Option Text → List Text → Option ℕ → List Subtask
maybe_inject_stabilization subtasks none categories score = subtasks
maybe_inject_stabilization subtasks (some []) categories score = subtasks
maybe_inject_stabilization subtasks (some (c ∷ command)) categories score =
    inject subtasks (c ∷ command) categories score
