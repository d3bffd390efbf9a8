-- ===== src/Plan/Findings.antt =====
-- `validate_finding_coverage` accepts exactly the fixup plans in which every finding has one owner.
use quikode.Prelude.{
  ◌≤◌, Bool, true, false, not, ◌&&◌, ◌||◌, List, [], ◌∷◌, ◌++◌, Text, ◌==◌, ==_iff, elem, length,
  any, keep, ok, ◌≡◌, refl, arith, inl, inr, ◌↔◌, ◌⊎◌, All, List-cases, sym, ◌∙◌,
}
use quikode.Plan.Schema.{Subtask}
use quikode.Plan.Validators.{
  owners_of, holders_of, tag, covered_keys, finding_pairs, distinct, Classified, classify_one,
  classify_findings, check_findings, is_parse_failure_finding, validate_finding_coverage,
}
use quikode.Plan.Holders.{elem-owners_of-fold}

-- The subtask's typed fields name the finding.
abbrev pub covers : Text → Subtask → Bool
covers fid s = elem fid (covered_keys s)

-- The subtask `sid` owns the finding.
abbrev pub owns : Text → Text → List Subtask → Bool
owns fid sid subtasks = any (λ s. s.id == sid && covers fid s) subtasks

any-tag :
    (fid sid id : Text) (keys : List Text) (pairs : List (Text × Text))
    → any (λ p. p.0 == fid && p.1 == sid) (tag keys id ++ pairs)
      ≡ ((id == sid && elem fid keys) || any (λ p. p.0 == fid && p.1 == sid) pairs)
any-tag fid sid id [] pairs = ground arith
any-tag fid sid id (k ∷ keys) pairs = ground (arith, any-tag fid sid id keys pairs)

any-finding_pairs :
    (fid sid : Text) (subtasks : List Subtask)
    → any (λ p. p.0 == fid && p.1 == sid) (finding_pairs subtasks) ≡ owns fid sid subtasks
any-finding_pairs fid sid [] = refl
any-finding_pairs fid sid (s ∷ subtasks) = ground (
  arith,
  any-tag fid sid s.id (covered_keys s) (finding_pairs subtasks),
  any-finding_pairs fid sid subtasks,
)

elem-owners :
    (fid sid : Text) (subtasks : List Subtask)
    → elem sid (owners_of (holders_of (finding_pairs subtasks)) fid) ≡ owns fid sid subtasks
elem-owners fid sid subtasks = ground (
  arith,
  elem-owners_of-fold (finding_pairs subtasks) [] fid sid,
  any-finding_pairs fid sid subtasks,
)

elem-distinct : (o : Text) (owners : List Text) → elem o (distinct owners) ≡ elem o owners
elem-distinct o [] = refl
elem-distinct o (x ∷ owners) = ground (arith, elem-distinct o owners, ==_iff x o)

-- A subtask owns the finding and no other one does.
abbrev pub HasOneOwner : Text → List Subtask → Type 0
HasOneOwner fid subtasks = (o : Text) × ((sid : Text) → owns fid sid subtasks ≡ o == sid)

-- No subtask owns the finding.
abbrev pub HasNoOwner : Text → List Subtask → Type 0
HasNoOwner fid subtasks = (sid : Text) → owns fid sid subtasks ≡ false

-- What the code takes for one finding.
abbrev pub IsTaken : List Subtask → List Text → Text → Type 0
IsTaken subtasks addressed fid =
    HasOneOwner fid subtasks ⊎ (HasNoOwner fid subtasks × (elem fid addressed ≡ true))

-- A list whose distinct texts are at most one text has only its head.
sole_owner :
    (o sid : Text) (owners : List Text)
    → length (distinct (o ∷ owners)) ≤ 1
    → elem sid (o ∷ owners) ≡ o == sid
sole_owner o sid owners h = elim (List-cases (distinct (o ∷ owners))) [
  | inl e ↦ ground (arith, e, elem-distinct o (o ∷ owners), ==_iff o o)
  | inr (y, [], e) ↦ ground (
    arith,
    e,
    elem-distinct o (o ∷ owners),
    elem-distinct sid (o ∷ owners),
    ==_iff o o,
    ==_iff y o,
  )
  | inr (y, z ∷ r, e) ↦ ground (arith, e)
]

distinct-le-one :
    (o : Text) (owners : List Text)
    → ((sid : Text) → elem sid owners ≡ true → o == sid ≡ true)
    → length (distinct owners) ≤ 1
distinct-le-one o [] h = omega arith
distinct-le-one o (x ∷ []) h = ground arith
distinct-le-one o (x ∷ y ∷ owners) h =
    let rest = distinct-le-one o (y ∷ owners) (λ sid e. h sid (ground (arith, e))) in
    ground (arith, rest, h x, h y, ==_iff x x, ==_iff y y, ==_iff o x, ==_iff o y, ==_iff y x)

-- One finding passes when it has one distinct owner, or none and is declared addressed.
abbrev Passes : List Text → Bool → Type 0
Passes [] addressed = addressed ≡ true
Passes (o ∷ owners) addressed = length (distinct (o ∷ owners)) ≤ 1

classify_one_iff :
    (fid : Text) (owners : List Text) (addressed : Bool) (rest : Classified)
    → (classify_one fid owners addressed rest ≡ ([], []))
      ↔ (Passes owners addressed × (rest ≡ ([], [])))
classify_one_iff fid [] true rest = ground arith
classify_one_iff fid [] false (m, d) = ground arith
classify_one_iff fid (o ∷ owners) addressed (m, d) = ground arith

Passes-iff :
    (subtasks : List Subtask) (addressed : List Text) (fid : Text) (owners : List Text)
    → ((sid : Text) → elem sid owners ≡ owns fid sid subtasks)
    → Passes owners (elem fid addressed) ↔ IsTaken subtasks addressed fid
Passes-iff subtasks addressed fid [] own = (
  λ h. inr (λ sid. sym (own sid), h),
  λ h. elim h [ inl (o, one) ↦ ground (arith, own o, one o, ==_iff o o) | inr (_, e) ↦ e ],
)
Passes-iff subtasks addressed fid (o ∷ owners) own = (
  λ h. inl (o, λ sid. sym (own sid) ∙ sole_owner o sid owners h),
  λ h. elim h [
    | inl (x, one) ↦ distinct-le-one x (o ∷ owners) (λ sid e. ground (arith, e, own sid, one sid))
    | inr (free, _) ↦ ground (arith, own o, free o, ==_iff o o)
  ],
)

classify_findings_iff :
    (subtasks : List Subtask) (addressed expected : List Text)
    → (classify_findings (holders_of (finding_pairs subtasks)) addressed expected ≡ ([], []))
      ↔ All (IsTaken subtasks addressed) expected
unfolding classify_findings
classify_findings_iff subtasks addressed [] = (λ h. tt, λ h. refl)
classify_findings_iff subtasks addressed (fid ∷ expected) =
    let owners = owners_of (holders_of (finding_pairs subtasks)) fid in
    let rest = classify_findings_iff subtasks addressed expected in
    let one =
      classify_one_iff fid owners (elem fid addressed)
        (classify_findings (holders_of (finding_pairs subtasks)) addressed expected) in
    let taken = Passes-iff subtasks addressed fid owners (λ sid. elem-owners fid sid subtasks) in
    (λ h. let (p, q) = one.0 h in (taken.0 p, rest.0 q), λ (p, q). one.1 (taken.1 p, rest.1 q))

check_findings_iff : (found : Classified) → (check_findings found ≡ ok tt) ↔ (found ≡ ([], []))
check_findings_iff ([], []) = ground arith
check_findings_iff (f ∷ missing, duplicated) = ground arith
check_findings_iff ([], d ∷ duplicated) = ground arith

-- The finding check accepts a fixup plan exactly when each audit finding, parse failures left out,
-- has exactly one owning subtask, or has no owner at all and is declared in `findings_addressed`.
pub validate_finding_coverage_iff :
    (subtasks : List Subtask) (addressed audit_findings : List Text)
    → (validate_finding_coverage subtasks addressed audit_findings ≡ ok tt)
      ↔ All
          (IsTaken subtasks addressed)
          (keep (λ fid. not (is_parse_failure_finding fid)) audit_findings)
unfolding validate_finding_coverage
validate_finding_coverage_iff subtasks addressed audit_findings =
    let expected = keep (λ fid. not (is_parse_failure_finding fid)) audit_findings in
    let found = classify_findings (holders_of (finding_pairs subtasks)) addressed expected in
    let verdict = check_findings_iff found in
    let all = classify_findings_iff subtasks addressed expected in
    (λ h. all.0 (verdict.0 h), λ h. verdict.1 (all.1 h))
