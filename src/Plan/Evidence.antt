-- ===== src/Plan/Evidence.antt =====
-- `validate_evidence_partition` and `validate_rubric_coverage` accept exactly the right plans.
use quikode.Prelude.{
  ℕ, ◌+◌, Bool, true, ◌||◌, List, [], ◌∷◌, ◌++◌, map, Text, ◌==◌, ==_iff, elem, count,
  elem_iff_count, if◌then◌else◌, any, ok, List-cases, ◌≡◌, ◌≢◌, refl, arith, inl, inr, ◌↔◌,
}
use quikode.Plan.Schema.{Subtask, RubricTarget}
use quikode.Plan.Validators.{
  holders_of, tag, keys_of, missing_of, unknown_of, duplicated_of, unknown_claims, evidence_pairs,
  rubric_pairs, check_claims, check_no_claims, check_missing_categories,
  validate_evidence_partition, validate_rubric_coverage,
}
use quikode.Plan.Holders.{
  holder_keys, holders_of-IsUnique, elem-holder_keys, length-owners_of, elem_of_missing_of,
  missing_of-eq-nil, duplicated_of-nil_le, unknown_claims-nil_eq, duplicated_of-eq-nil,
  unknown_claims-eq-nil,
}

count-keys-tag :
    (j : Text) (keys : List Text) (sid : Text) (pairs : List (Text × Text))
    → count j (keys_of (tag keys sid ++ pairs)) ≡ count j keys + count j (keys_of pairs)
count-keys-tag j [] sid pairs = omega arith
count-keys-tag j (k ∷ keys) sid pairs = ground (arith, count-keys-tag j keys sid pairs)

-- How often the subtasks of a plan claim to advance an evidence id.
abbrev pub claim_count : Text → List Subtask → ℕ
claim_count evid [] = 0
claim_count evid (s ∷ subtasks) =
    count evid s.behavior_evidence_advanced + claim_count evid subtasks

claim_count-eq :
    (evid : Text) (subtasks : List Subtask)
    → count evid (keys_of (evidence_pairs subtasks)) ≡ claim_count evid subtasks
claim_count-eq evid [] = refl
claim_count-eq evid (s ∷ subtasks) = omega (
  arith,
  count-keys-tag evid s.behavior_evidence_advanced s.id (evidence_pairs subtasks),
  claim_count-eq evid subtasks,
)

-- Each expected id is claimed exactly once, and no other id is claimed.
abbrev pub IsPartition : List Text → List Subtask → Type 0
IsPartition expected subtasks =
    (evid : Text) → claim_count evid subtasks ≡ (if elem evid expected then 1 else 0)

no_keys : (pairs : List (Text × Text)) → ((j : Text) → count j (keys_of pairs) ≡ 0) → pairs ≡ []
no_keys [] h = refl
no_keys ((k, o) ∷ pairs) h = ground (arith, h k, ==_iff k k)

no_claims_iff :
    (subtasks : List Subtask)
    → (check_no_claims (evidence_pairs subtasks) ≡ ok tt) ↔ IsPartition [] subtasks
no_claims_iff subtasks = elim (List-cases (evidence_pairs subtasks)) [
  | inl e ↦ (λ h evid. ground (arith, e, claim_count-eq evid subtasks), λ h. rw e refl)
  | inr (p, r, e) ↦ (
    λ h. ground (arith, e, h),
    λ h. ground (
      arith,
      e,
      no_keys (evidence_pairs subtasks) (λ j. omega (arith, claim_count-eq j subtasks, h j)),
    ),
  )
]

claims_iff :
    (expected : List Text) (subtasks : List Subtask)
    → ((missing_of (holder_keys (holders_of (evidence_pairs subtasks))) expected ≡ [])
        × ((duplicated_of expected (holders_of (evidence_pairs subtasks)) ≡ [])
            × (unknown_claims expected (holders_of (evidence_pairs subtasks)) ≡ [])))
      ↔ IsPartition expected subtasks
claims_iff expected subtasks =
    let pairs = evidence_pairs subtasks in
    let holders = holders_of pairs in
    let unique = holders_of-IsUnique pairs in
    (
      λ (m, (d, u)) evid. ground (
        arith,
        claim_count-eq evid subtasks,
        length-owners_of pairs evid,
        elem_of_missing_of (holder_keys holders) expected evid m,
        elem-holder_keys pairs evid,
        elem_iff_count evid (keys_of pairs),
        duplicated_of-nil_le expected holders evid d,
        unknown_claims-nil_eq expected holders evid u,
      ),
      λ h. (
        missing_of-eq-nil (holder_keys holders) expected (λ j e. ground (
          arith,
          h j,
          claim_count-eq j subtasks,
          elem-holder_keys pairs j,
          elem_iff_count j (keys_of pairs),
        )),
        (
          duplicated_of-eq-nil expected holders unique
              (λ j e. ground (arith, h j, claim_count-eq j subtasks, length-owners_of pairs j)),
          unknown_claims-eq-nil expected holders unique
              (λ j e. ground (arith, h j, claim_count-eq j subtasks, length-owners_of pairs j)),
        ),
      ),
    )

check_claims_iff :
    (missing : List Text) (duplicated : List (Text × List Text)) (unknown : List (Text × Text))
    → (check_claims missing duplicated unknown ≡ ok tt)
      ↔ ((missing ≡ []) × ((duplicated ≡ []) × (unknown ≡ [])))
check_claims_iff [] [] [] = ground arith
check_claims_iff (x ∷ missing) duplicated unknown = ground arith
check_claims_iff [] (x ∷ duplicated) unknown = ground arith
check_claims_iff [] [] (x ∷ unknown) = ground arith

-- The evidence check accepts a plan exactly when each expected id is claimed exactly once over all
-- subtasks and no other id is claimed, also for a node without expected evidence. The stabilization
-- subtask Z-99 counts as a subtask like any other.
pub validate_evidence_partition_iff :
    (subtasks : List Subtask) (expected : List Text)
    → (validate_evidence_partition subtasks expected ≡ ok tt) ↔ IsPartition expected subtasks
unfolding validate_evidence_partition
validate_evidence_partition_iff subtasks [] = no_claims_iff subtasks
validate_evidence_partition_iff subtasks (e ∷ expected) =
    let holders = holders_of (evidence_pairs subtasks) in
    let all = e ∷ expected in
    let verdict =
      check_claims_iff (missing_of (holder_keys holders) all) (duplicated_of all holders)
        (unknown_claims all holders) in
    let counts = claims_iff all subtasks in
    (λ h. counts.0 (verdict.0 h), λ h. verdict.1 (counts.1 h))

-- Some subtask has the category among its rubric targets.
abbrev pub targets : Text → List Subtask → Bool
targets category subtasks = any (λ s. any (λ t. t.category == category) s.rubric_targets) subtasks

elem-rubric_pairs :
    (c : Text) (subtasks : List Subtask)
    → elem c (keys_of (rubric_pairs subtasks)) ≡ targets c subtasks
elem-rubric_pairs c [] = refl
elem-rubric_pairs c (s ∷ subtasks) =
    ground
      (arith, elem-tags s.rubric_targets s.id (rubric_pairs subtasks), elem-rubric_pairs c subtasks)
  where
    elem-tags :
        (ts : List RubricTarget) (sid : Text) (pairs : List (Text × Text))
        → elem c (keys_of (tag (map (λ t. t.category) ts) sid ++ pairs))
          ≡ (any (λ t. t.category == c) ts || elem c (keys_of pairs))
    elem-tags [] sid pairs = refl
    elem-tags (t ∷ ts) sid pairs = ground (arith, elem-tags ts sid pairs)

unknown_of-nil :
    (expected : List Text) (pairs : List (Text × Text)) (c : Text)
    → unknown_of expected pairs ≡ []
    → elem c (keys_of pairs) ≡ true
    → elem c expected ≡ true
unknown_of-nil expected [] c e h = cc
unknown_of-nil expected ((k, o) ∷ pairs) c e h =
    ground (arith, e, h, ==_iff k c, unknown_of-nil expected pairs c)

unknown_of-eq-nil :
    (expected : List Text) (pairs : List (Text × Text))
    → ((c : Text) → elem c (keys_of pairs) ≡ true → elem c expected ≡ true)
    → unknown_of expected pairs ≡ []
unknown_of-eq-nil expected [] h = refl
unknown_of-eq-nil expected ((k, o) ∷ pairs) h =
    let rest = unknown_of-eq-nil expected pairs (λ j e. h j (ground (arith, e))) in
    ground (arith, rest, ==_iff k k, h k)

check_categories_iff :
    (missing : List Text) (unknown : List (Text × Text))
    → (check_missing_categories missing unknown ≡ ok tt) ↔ ((missing ≡ []) × (unknown ≡ []))
check_categories_iff [] [] = ground arith
check_categories_iff (x ∷ missing) unknown = ground arith
check_categories_iff [] (x ∷ unknown) = ground arith

-- The categories of the contract are covered by the subtasks, and no other is targeted.
abbrev pub Covers : List Text → List Subtask → Type 0
Covers expected subtasks = (c : Text) → targets c subtasks ≡ elem c expected

-- The rubric check accepts a plan exactly when the contract has a category, and the categories that
-- the subtasks target are exactly those of the contract.
validate_rubric_coverage_iff :
    (subtasks : List Subtask) (expected : List Text)
    → (validate_rubric_coverage subtasks expected ≡ ok tt)
      ↔ ((expected ≢ []) × Covers expected subtasks)
unfolding validate_rubric_coverage
validate_rubric_coverage_iff subtasks [] = (λ h. cc, λ (h, _). absurd (h refl))
validate_rubric_coverage_iff subtasks (x ∷ expected) =
    let all = x ∷ expected in
    let pairs = rubric_pairs subtasks in
    let verdict = check_categories_iff (missing_of (keys_of pairs) all) (unknown_of all pairs) in
    (
      λ h.
          let (m, u) = verdict.0 h in
          (
            λ e. cc,
            λ c. ground (
              arith,
              elem-rubric_pairs c subtasks,
              elem_of_missing_of (keys_of pairs) all c m,
              unknown_of-nil all pairs c u,
            ),
          ),
      λ (_, h). verdict.1 (
        missing_of-eq-nil (keys_of pairs) all
            (λ j e. ground (arith, e, h j, elem-rubric_pairs j subtasks)),
        unknown_of-eq-nil all pairs (λ j e. ground (arith, e, h j, elem-rubric_pairs j subtasks)),
      ),
    )
