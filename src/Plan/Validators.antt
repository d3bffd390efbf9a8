-- ===== src/Plan/Validators.antt =====
-- quikode/planner_validators.py. A message is kept as the lists that it shows. The categories of the
-- contract and the canonical evidence ids are arguments.
use quikode.Prelude.{
  ℕ, Bool, true, false, not, ◌&&◌, List, [], ◌∷◌, ◌++◌, map, foldl, Text, codes, ◌==◌, elem,
  if◌then◌else◌, nat_eq, ltb, keep, length, sort, Result, ok, raise,
}
use quikode.Plan.Schema.{DocRef, Subtask}

-- A dictionary of lists, in the order of insertion, and `holders[key].append(owner)`.
abbrev pub Holders : Type 0
Holders = List (Text × List Text)

unfoldable pub add_holder : Holders → Text × Text → Holders
add_holder [] (key, owner) = (key, owner ∷ []) ∷ []
add_holder ((k, owners) ∷ holders) (key, owner) =
    let rest = add_holder holders (key, owner) in
    if k == key then (k, owners ++ owner ∷ []) ∷ holders else (k, owners) ∷ rest

-- `holders.get(key, [])`
abbrev pub owners_of : Holders → Text → List Text
owners_of [] key = []
owners_of ((k, owners) ∷ holders) key = if k == key then owners else owners_of holders key

pub data PlannerValidationError : Type 0 where
  no_rubric_categories : PlannerValidationError
  missing_categories : List Text → PlannerValidationError
  unknown_categories : List (Text × Text) → PlannerValidationError
  unexpected_claims : List (Text × Text) → PlannerValidationError
  evidence_partition :
      List Text → List (Text × List Text) → List (Text × Text) → PlannerValidationError
  strategy_too_short strategy_too_long : ℕ → PlannerValidationError
  finding_coverage : List Text → List (Text × List Text) → PlannerValidationError

abbrev pub Verdict : Type 0
Verdict = Result {0, 0} PlannerValidationError Unit

-- The pairs (category, subtask id) and (evidence id, subtask id) of the two loops.
abbrev pub tag : List Text → Text → List (Text × Text)
tag keys sid = map (λ k. (k, sid)) keys

abbrev pub rubric_pairs : List Subtask → List (Text × Text)
rubric_pairs [] = []
rubric_pairs (s ∷ subtasks) =
    tag (map (λ t. t.category) s.rubric_targets) s.id ++ rubric_pairs subtasks

abbrev pub evidence_pairs : List Subtask → List (Text × Text)
evidence_pairs [] = []
evidence_pairs (s ∷ subtasks) = tag s.behavior_evidence_advanced s.id ++ evidence_pairs subtasks

abbrev pub flip_pairs : List (Text × Text) → List (Text × Text)
flip_pairs pairs = map (λ p. (p.1, p.0)) pairs

abbrev pub missing_of : List Text → List Text → List Text
missing_of seen expected = keep (λ c. not (elem c seen)) expected

abbrev pub unknown_of : List Text → List (Text × Text) → List (Text × Text)
unknown_of expected pairs = keep (λ p. not (elem p.0 expected)) pairs

abbrev pub keys_of : List (Text × Text) → List Text
keys_of pairs = map (λ p. p.0) pairs

abbrev pub check_unknown_categories : List (Text × Text) → Verdict
check_unknown_categories [] = ok tt
check_unknown_categories (p ∷ unknown) = raise (unknown_categories (flip_pairs (p ∷ unknown)))

abbrev pub check_missing_categories : List Text → List (Text × Text) → Verdict
check_missing_categories [] unknown = check_unknown_categories unknown
check_missing_categories (c ∷ missing) unknown = raise (missing_categories (c ∷ missing))

unfoldable pub validate_rubric_coverage : List Subtask → List Text → Verdict
validate_rubric_coverage subtasks [] = raise no_rubric_categories
validate_rubric_coverage subtasks (c ∷ expected) =
    let pairs = rubric_pairs subtasks in
    check_missing_categories (missing_of (keys_of pairs) (c ∷ expected))
      (unknown_of (c ∷ expected) pairs)

-- `_classify_evidence_claims`
abbrev pub holders_of : List (Text × Text) → Holders
holders_of pairs = foldl add_holder [] pairs

abbrev pub duplicated_of : List Text → Holders → List (Text × List Text)
duplicated_of expected [] = []
duplicated_of expected ((k, owners) ∷ holders) =
    let rest = duplicated_of expected holders in
    if elem k expected && ltb 1 (length owners) then (k, sort owners) ∷ rest else rest

abbrev pub unknown_claims : List Text → Holders → List (Text × Text)
unknown_claims expected [] = []
unknown_claims expected ((k, owners) ∷ holders) =
    let rest = unknown_claims expected holders in
    if elem k expected then rest else map (λ o. (o, k)) owners ++ rest

abbrev pub check_claims : List Text → List (Text × List Text) → List (Text × Text) → Verdict
check_claims [] [] [] = ok tt
check_claims (x ∷ missing) duplicated unknown =
    raise (evidence_partition (x ∷ missing) duplicated unknown)
check_claims [] (x ∷ duplicated) unknown = raise (evidence_partition [] (x ∷ duplicated) unknown)
check_claims [] [] (x ∷ unknown) = raise (evidence_partition [] [] (x ∷ unknown))

abbrev pub check_no_claims : List (Text × Text) → Verdict
check_no_claims [] = ok tt
check_no_claims (p ∷ claims) = raise (unexpected_claims (flip_pairs (p ∷ claims)))

-- `validate_evidence_partition`, given the ids of the node's expected evidence.
unfoldable pub validate_evidence_partition : List Subtask → List Text → Verdict
validate_evidence_partition subtasks [] = check_no_claims (evidence_pairs subtasks)
validate_evidence_partition subtasks (e ∷ expected) =
    let holders = holders_of (evidence_pairs subtasks) in
    check_claims (missing_of (map (λ h. h.0) holders) (e ∷ expected))
      (duplicated_of (e ∷ expected) holders) (unknown_claims (e ∷ expected) holders)

unfoldable pub validate_gauntlet_strategy : Text → Verdict
validate_gauntlet_strategy s =
    if ltb (length s) 200
    then raise (strategy_too_short (length s))
    else if ltb 2000 (length s)
    then raise (strategy_too_long (length s))
    else ok tt

-- `finding_id.partition(":")[2] == "parse_failure"`
abbrev pub tail_of : Text → Text
tail_of [] = []
tail_of (c ∷ fid) = if nat_eq c 58 then fid else tail_of fid

abbrev pub is_parse_failure_finding : Text → Bool
is_parse_failure_finding fid = tail_of fid == codes "parse_failure"

-- The keys that one subtask adds to `holders`, in order.
abbrev pub doc_keys : Text → List DocRef → List Text
doc_keys stage [] = []
doc_keys stage (ref ∷ refs) =
    (stage ++ ref.doc_path)
    ∷ (stage ++ ref.doc_path ++ codes "§" ++ ref.section)
    ∷ doc_keys stage refs

abbrev pub covered_keys : Subtask → List Text
covered_keys s =
    map (λ t. codes "rubric:" ++ t.category) s.rubric_targets
    ++ doc_keys (codes "standards:") s.standards_referenced
    ++ doc_keys (codes "architecture:") s.architecture_referenced
    ++ map (λ e. codes "behavior:" ++ e) s.behavior_evidence_advanced

abbrev pub finding_pairs : List Subtask → List (Text × Text)
finding_pairs [] = []
finding_pairs (s ∷ subtasks) = tag (covered_keys s) s.id ++ finding_pairs subtasks

-- `set(owners)`: each owner once.
abbrev pub distinct : List Text → List Text
distinct [] = []
distinct (o ∷ owners) = let rest = distinct owners in if elem o owners then rest else o ∷ rest

abbrev pub Classified : Type 0
Classified = List Text × List (Text × List Text)

abbrev pub classify_one : Text → List Text → Bool → Classified → Classified
classify_one fid [] true rest = rest
classify_one fid [] false (missing, duplicated) = (fid ∷ missing, duplicated)
classify_one fid (o ∷ owners) addressed (missing, duplicated) =
    if ltb 1 (length (distinct (o ∷ owners)))
    then (missing, (fid, sort (distinct (o ∷ owners))) ∷ duplicated)
    else (missing, duplicated)

-- `_classify_finding_coverage`, the loop over the expected findings.
unfoldable pub classify_findings : Holders → List Text → List Text → Classified
classify_findings holders addressed [] = ([], [])
classify_findings holders addressed (fid ∷ expected) =
    classify_one fid (owners_of holders fid) (elem fid addressed)
      (classify_findings holders addressed expected)

abbrev pub check_findings : Classified → Verdict
check_findings ([], []) = ok tt
check_findings (f ∷ missing, duplicated) = raise (finding_coverage (f ∷ missing) duplicated)
check_findings ([], d ∷ duplicated) = raise (finding_coverage [] (d ∷ duplicated))

-- `validate_finding_coverage` of a plan's subtasks and `findings_addressed`.
unfoldable pub validate_finding_coverage : List Subtask → List Text → List Text → Verdict
validate_finding_coverage subtasks addressed audit_findings = check_findings (
    classify_findings (holders_of (finding_pairs subtasks)) addressed
      (keep (λ fid. not (is_parse_failure_finding fid)) audit_findings))
