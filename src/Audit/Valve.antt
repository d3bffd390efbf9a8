-- ===== src/Audit/Valve.antt =====
-- When `release_valve_report` of quikode/workers/pre_pr_reports.py lets a failed cycle pass.
use quikode.Prelude.{
  ℕ, Bool, true, false, none, List, [], ◌∷◌, codes, ◌≡◌, ◌≢◌, refl, arith, inl, inr, Bool-cases,
  any, ◌||◌, All, all, ltb, ◌≤◌, ◌↔◌,
}
use quikode.Audit.Findings.{
  StageOutcome, local_ci, behavior, same_stage, failed_stages, release_valve_report, Valve,
  too_early, is_empty_list, is_non_deferable, all_findings, severity_count,
}

abbrev pub is_gate : StageOutcome → Bool
is_gate s = same_stage s.name local_ci || same_stage s.name behavior

-- The valve stays shut while local CI or behavior fails.
pub shut-at-gate :
    (valve : Valve) (cycle : ℕ) (stages : List StageOutcome)
    → any is_gate (failed_stages stages) ≡ true
    → release_valve_report valve cycle stages ≡ none
unfolding release_valve_report
shut-at-gate valve cycle stages gate =
    elim (Bool-cases (too_early valve.after_cycles cycle || is_empty_list (failed_stages stages))) [
      | inl e ↦ rw e refl
      | inr e ↦ rw (e, gate) refl
    ]

-- What has to hold of the failed stages for the valve to open: late enough a cycle, only stages that
-- may be deferred, each with findings of its content alone, and few enough critical ones.
abbrev pub IsDeferable : Valve → StageOutcome → Type 0
IsDeferable valve s =
    (is_gate s ≡ false)
    × (any (same_stage s.name) valve.defer_stages ≡ true)
    × (is_empty_list s.findings ≡ false)
    × (any is_non_deferable s.findings ≡ false)

abbrev pub MayDefer : Valve → ℕ → List StageOutcome → Type 0
MayDefer valve cycle failed =
    (too_early valve.after_cycles cycle ≡ false)
    × (is_empty_list failed ≡ false)
    × All (IsDeferable valve) failed
    × (severity_count (codes "critical") (all_findings failed) ≤ valve.max_critical_findings)

all-IsDeferable :
    (valve : Valve) (failed : List StageOutcome)
    → any is_gate failed ≡ false
    → all (λ s. any (same_stage s.name) valve.defer_stages) failed ≡ true
    → any (λ s. is_empty_list s.findings || any is_non_deferable s.findings) failed ≡ false
    → All (IsDeferable valve) failed
all-IsDeferable valve [] gate stages content = tt
all-IsDeferable valve (s ∷ failed) gate stages content = (
  (ground (arith, gate), ground (arith, stages), ground (arith, content), ground (arith, content)),
  all-IsDeferable valve failed (ground (arith, gate)) (ground (arith, stages))
      (ground (arith, content)),
)

release_valve-MayDefer :
    (valve : Valve) (cycle : ℕ) (stages : List StageOutcome)
    → release_valve_report valve cycle stages ≢ none
    → MayDefer valve cycle (failed_stages stages)
unfolding release_valve_report
release_valve-MayDefer valve cycle stages opened =
    let failed = failed_stages stages in
    elim (Bool-cases (too_early valve.after_cycles cycle || is_empty_list failed)) [
      | inl e ↦ absurd (opened (rw e refl))
      | inr early ↦ elim (Bool-cases (any is_gate failed)) [
        | inl e ↦ absurd (opened (rw (early, e) refl))
        | inr gate ↦
            elim (Bool-cases (all (λ s. any (same_stage s.name) valve.defer_stages) failed)) [
              | inr e ↦ absurd (opened (rw (early, gate, e) refl))
              | inl named ↦
                  elim (Bool-cases (
                    any (λ s. is_empty_list s.findings || any is_non_deferable s.findings) failed
                    || ltb valve.max_critical_findings
                        (severity_count (codes "critical") (all_findings failed)))) [
                          | inl e ↦ absurd (opened (rw (early, gate, named, e) refl))
                          | inr content ↦ (
                            ground (arith, early),
                            ground (arith, early),
                            all-IsDeferable valve failed gate named (ground (arith, content)),
                            ground (arith, content),
                          )
                        ]
            ]
      ]
    ]

deferable-all :
    (valve : Valve) (failed : List StageOutcome)
    → All (IsDeferable valve) failed
    → (any is_gate failed ≡ false)
      × (all (λ s. any (same_stage s.name) valve.defer_stages) failed ≡ true)
      × (any (λ s. is_empty_list s.findings || any is_non_deferable s.findings) failed ≡ false)
deferable-all valve [] fit = (refl, refl, refl)
deferable-all valve (s ∷ failed) (((gate, named, findings, content), fit)) =
    let (gates, names, contents) = deferable-all valve failed fit in
    (
      ground (arith, gate, gates),
      ground (arith, named, names),
      ground (arith, findings, content, contents),
    )

MayDefer-opens :
    (valve : Valve) (cycle : ℕ) (stages : List StageOutcome)
    → MayDefer valve cycle (failed_stages stages)
    → release_valve_report valve cycle stages ≢ none
unfolding release_valve_report
MayDefer-opens valve cycle stages (early, some_failed, fit, critical) =
    let (gates, names, contents) = deferable-all valve (failed_stages stages) fit in
    let few : ltb valve.max_critical_findings
          (severity_count (codes "critical") (all_findings (failed_stages stages)))
        ≡ false =
      ground (arith, critical) in
    rw (early, some_failed, gates, names, contents, few) (λ h. cc)

pub release_valve_iff :
    (valve : Valve) (cycle : ℕ) (stages : List StageOutcome)
    → (release_valve_report valve cycle stages ≢ none) ↔ MayDefer valve cycle (failed_stages stages)
release_valve_iff valve cycle stages =
    (release_valve-MayDefer valve cycle stages, MayDefer-opens valve cycle stages)
