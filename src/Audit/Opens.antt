-- ===== src/Audit/Opens.antt =====
-- What a passed audit cycle means for the task: its pull request is being opened, or findings were
-- deferred and the task stands where the first stage failed.
use quikode.Prelude.{
  ℕ, Bool, true, false, Option, none, some, List, [], ◌∷◌, Text, codes, Result, ok, raise, ◌≡◌, ◌≢◌,
  refl, arith, ◌⊎◌, inl, inr, ap, subst, if◌then◌else◌, Bool-cases, Option-cases, any, ◌||◌, ◌&&◌,
  ◌++◌, ◌==◌, decimal,
}
use quikode.Fsm.Table.{
  State, state_eq, audit_rubric, audit_standards, audit_architecture, audit_behavior, pr_opening,
  blocked,
}
use quikode.Store.Fire.{IsAt}
use quikode.Runtime.Helpers.{call, enter_fixup_planning}
use quikode.Runtime.Stages.{stage_helper-settles, audit_behavior_passed}
use quikode.Audit.Findings.{
  StageOutcome, local_ci, rubric, standards, architecture, behavior, cycle_passed, stage_text,
  failed_stages, release_valve_report, structural_failure_report, collect_finding_ids,
}
use quikode.Audit.Stages.{Audit, Stop, Work, work_then, in_store, return}
use quikode.Audit.Cycles.{
  Driver, AuditConfig, CycleEnd, passed, outcome, after_fixup, finish_cycle, settle_failed,
  settle_pre_pr_cycle, settled_or, block_structural, structural_note, block_with, run_fixup_round,
  failed_note, drive_fixup_round, judge_stages,
}
use quikode.Subtasks.Cycles.{take_text}
use quikode.Audit.Valve.{is_gate, shut-at-gate, MayDefer, release_valve_iff}
use quikode.Audit.Parks.{parked, opens_gauntlet}
use quikode.Fsm.Rules.{is_audit_stage}

work_then-ok :
    {W A B : Type 0} (r : Result Stop A) (rest : A → Work W B) (w : Audit W) {b : B} {w' : Audit W}
    → work_then r rest w ≡ (ok b, w')
    → (a : A) × (r ≡ ok a) × (rest a w ≡ (ok b, w'))
work_then-ok (raise e) rest w h = cc
work_then-ok (ok a) rest w h = (a, refl, h)

ok-injective : {E A : Type 0} {a b : A} → ◌≡◌ {A = Result E A} (ok a) (ok b) → a ≡ b
ok-injective h = cc

outcome-ne-passed : (final : State) → outcome final ≡ passed → ⊥
outcome-ne-passed final h = cc

outcome_of :
    {W : Type 0} (out : Result Stop State × Audit W) (x : Option CycleEnd)
    → (work_then out.0 (λ final. return (some (outcome final))) out.1).0 ≡ ok x
    → (final : State) × (x ≡ some (outcome final))
outcome_of (ok final, w) x h = (final, cc)
outcome_of (raise e, w) x h = cc

-- The stages of a full cycle, by their names.
pub record AreNamed (a b c d e : StageOutcome) : Type 0 where
  pub first : a.name ≡ local_ci
  pub second : b.name ≡ rubric
  pub third : c.name ≡ standards
  pub fourth : d.name ≡ architecture
  pub fifth : e.name ≡ behavior

local_ci-is_gate : (s : StageOutcome) → s.name ≡ local_ci → is_gate s ≡ true
unfolding stage_text ◌==◌
local_ci-is_gate s named = rw named refl

behavior-is_gate : (s : StageOutcome) → s.name ≡ behavior → is_gate s ≡ true
unfolding stage_text ◌==◌
behavior-is_gate s named = rw named refl

any-gate :
    (a b c d e : StageOutcome)
    → is_gate a ≡ true
    → is_gate e ≡ true
    → (a.passed ≡ false) ⊎ (e.passed ≡ false)
    → any is_gate (failed_stages (a ∷ b ∷ c ∷ d ∷ e ∷ [])) ≡ true
any-gate a b c d e first fifth (inl failed) = rw failed (ground (arith, first))
any-gate a b c d e first fifth (inr failed) = ground (arith, fifth, failed)

after_fixup-other :
    {W : Type 0} (d : Driver W) (cfg : AuditConfig) (task_id : Text) (m f : Bool) (x : Option State)
    → after_fixup d cfg task_id m f x ≡ passed
    → ⊥
after_fixup-other d cfg task_id m f none h = cc
after_fixup-other d cfg task_id m f (some final) h = elim (Bool-cases (state_eq final blocked)) [
  | inl e ↦ cc (rw e at h)
  | inr e ↦ cc (rw e at h)
]

-- The first of the three deferrable stages that failed.
abbrev pub deferred_at : Bool → Bool → State
deferred_at false q = audit_rubric
deferred_at true false = audit_standards
deferred_at true true = audit_architecture

not-false : (b : Bool) → (b ≡ false → ⊥) → b ≡ true
not-false true h = refl
not-false false h = absurd (h refl)

-- Where a clean cycle leaves the task: its pull request is being opened if the audit saw the task at
-- all, that is in one of the states in which the gauntlet opens or in a stage of it.
abbrev pub after_clean : State → State
after_clean t = if opens_gauntlet t || is_audit_stage t then pr_opening else t

-- Where the event of the behavior stage leads, which is fired on every pass.
abbrev pub after_behavior : State → State
after_behavior t = if state_eq t audit_behavior then pr_opening else t

clean-state :
    (t : State) (a b c s e : Bool)
    → (a && (b && (c && (s && (e && true))))) ≡ true
    → after_behavior (parked t a b c s) ≡ after_clean t
unfolding state_eq is_audit_stage
clean-state _ a b c s e h = ground arith

deferred-state :
    (t : State) (a b c s e : Bool)
    → a ≡ true
    → e ≡ true
    → (a && (b && (c && (s && (e && true))))) ≡ false
    → opens_gauntlet t ≡ true
    → after_behavior (parked t a b c s) ≡ deferred_at b c
unfolding state_eq
deferred-state _ a b c s e first last h opens = ground arith

deferred-outside :
    (t : State) (a b c s : Bool)
    → opens_gauntlet t ≡ false
    → is_audit_stage t ≡ false
    → after_behavior (parked t a b c s) ≡ t
unfolding state_eq is_audit_stage
deferred-outside _ a b c s opens stage = ground arith

module _ {W : Type 0} (d : Driver W) (cfg : AuditConfig) (task_id : Text) (full : Bool) where
  finish_cycle-IsAt :
      (cycle : ℕ) (t : State) (w : Audit W) {w' : Audit W}
      → IsAt task_id t w.store
      → finish_cycle d cfg task_id false full cycle passed w ≡ (ok passed, w')
      → IsAt task_id (if state_eq t audit_behavior then pr_opening else t) w'.store
  unfolding finish_cycle in_store
  finish_cycle-IsAt cycle t w at h =
      elim (stage_helper-settles audit_behavior_passed task_id
        (some (codes "audit cycle " ++ decimal cycle ++ codes " passed cleanly")) [] w.store t at) [
          | inl (here, a) ↦ rw here (
              subst (λ (x : Audit W). IsAt task_id pr_opening x.store)
                (ap (λ p. p.1) (rw a.returns at h)) a.at)
          | inr (elsewhere, e) ↦
              rw elsewhere
                (subst (λ (x : Audit W). IsAt task_id t x.store) (ap (λ p. p.1) (rw e at h)) at)
        ]

  run_fixup_round-other :
      (cycle : ℕ) (stages : List StageOutcome) (w : Audit W) {w' : Audit W}
      → run_fixup_round d cfg task_id false full cycle stages w ≡ (ok passed, w')
      → ⊥
  unfolding run_fixup_round
  run_fixup_round-other cycle stages w h =
      let out = d.fixup_round cycle (collect_finding_ids (failed_stages stages)) w in
      let (final, ended, last) =
        work_then-ok out.0 (λ x. return (after_fixup d cfg task_id false full x)) out.1 h in
      after_fixup-other d cfg task_id false full final (ok-injective (ap (λ p. p.0) last))

  -- A fixup round never ends a cycle with a pass.
  drive_fixup_round-other :
      (cycle : ℕ) (stages : List StageOutcome) (w : Audit W) {w' : Audit W}
      → drive_fixup_round d cfg task_id false full cycle stages w ≡ (ok passed, w')
      → ⊥
  unfolding drive_fixup_round
  drive_fixup_round-other cycle stages w h =
      let out =
        in_store
          (call enter_fixup_planning task_id (failed_note d cfg task_id false full cycle stages) [])
          w in
      let (state, entered, rest) =
        work_then-ok out.0 (λ x. run_fixup_round d cfg task_id false full cycle stages) out.1 h in
      run_fixup_round-other cycle stages out.1 rest

  block_structural-outcome :
      (cycle : ℕ) (stages : List StageOutcome) (w : Audit W) (x : Option CycleEnd)
      → (block_structural d cfg task_id false full cycle stages w).0 ≡ ok x
      → (final : State) × (x ≡ some (outcome final))
  unfolding block_structural
  block_structural-outcome cycle stages w x h =
      outcome_of
        (block_with d cfg task_id false full (structural_note d cfg task_id false full cycle)
          (take_text 1000 (d.report_text stages)) w)
        x h

  -- Neither does a block.
  block_structural-other :
      (cycle : ℕ) (failed stages : List StageOutcome) (w : Audit W) {w' : Audit W}
      → work_then
          (block_structural d cfg task_id false full cycle failed w).0
          (λ x. settled_or d cfg task_id false full x cycle stages)
          (block_structural d cfg task_id false full cycle failed w).1
        ≡ (ok passed, w')
      → ⊥
  unfolding finish_cycle
  block_structural-other cycle failed stages w h =
      let out = block_structural d cfg task_id false full cycle failed w in
      let (x, e, rest) =
        work_then-ok out.0 (λ y. settled_or d cfg task_id false full y cycle stages) out.1 h in
      let (final, named) = block_structural-outcome cycle failed w x e in
      outcome-ne-passed final (ok-injective (ap (λ p. p.0) (rw named at rest)))

  judge_failed-outcome :
      (cycle : ℕ) (stages : List StageOutcome) (t : State) (w : Audit W) {w' : Audit W}
      → IsAt task_id t w.store
      → work_then
          (settle_failed d cfg task_id false full cycle stages w).0
          (λ x. settled_or d cfg task_id false full x cycle stages)
          (settle_failed d cfg task_id false full cycle stages w).1
        ≡ (ok passed, w')
      → (release_valve_report cfg.valve cycle stages ≢ none)
        × IsAt task_id (if state_eq t audit_behavior then pr_opening else t) w'.store
  unfolding settle_failed
  judge_failed-outcome cycle stages t w at h =
      elim (Option-cases (release_valve_report cfg.valve cycle stages)) [
        | inr (names, r) ↦ ((λ e. cc), finish_cycle-IsAt cycle t w at (rw (r, settle_failed) at h))
        | inl r ↦ elim (Option-cases (structural_failure_report stages)) [
          | inl s ↦ absurd (drive_fixup_round-other cycle stages w (rw (r, s, settle_failed) at h))
          | inr (pairs, s) ↦ absurd (
              block_structural-other cycle (failed_stages stages) stages w
                (rw (r, s, settle_failed) at h))
        ]
      ]

  judge-clean :
      (cycle : ℕ) (stages : List StageOutcome) (t : State) (w : Audit W) {w' : Audit W}
      → cycle_passed stages ≡ true
      → IsAt task_id t w.store
      → judge_stages d cfg task_id false full cycle stages w ≡ (ok passed, w')
      → IsAt task_id (if state_eq t audit_behavior then pr_opening else t) w'.store
  unfolding judge_stages settle_pre_pr_cycle
  judge-clean cycle stages t w e at h =
      finish_cycle-IsAt cycle t w at (rw (e, judge_stages, settle_pre_pr_cycle) at h)

  judge-failed :
      (cycle : ℕ) (stages : List StageOutcome) (t : State) (w : Audit W) {w' : Audit W}
      → cycle_passed stages ≡ false
      → IsAt task_id t w.store
      → judge_stages d cfg task_id false full cycle stages w ≡ (ok passed, w')
      → (release_valve_report cfg.valve cycle stages ≢ none)
        × IsAt task_id (if state_eq t audit_behavior then pr_opening else t) w'.store
  unfolding judge_stages settle_pre_pr_cycle
  judge-failed cycle stages t w e at h =
      judge_failed-outcome cycle stages t w at (rw (e, judge_stages, settle_pre_pr_cycle) at h)

  -- When a full cycle of a task that is no merge node ends in a pass, from whatever state `t` its
  -- stages left the task, either all five stages passed, and the task is in PR_OPENING if `t` was a
  -- state in which the gauntlet opens or a stage of it, and else still in `t`; or local CI and behavior
  -- passed and the release valve deferred the rest: in a late enough cycle every stage that failed may
  -- be deferred and has findings, none of them structural, and not too many are critical. The task then
  -- stands at the first stage that failed if `t` was a state in which the gauntlet opens, and still in
  -- `t` if that was no stage of it either.
  pub judge_stages-outcome :
      (cycle : ℕ) (a b c s e : StageOutcome) (t : State) (w : Audit W) {w' : Audit W}
      → AreNamed a b c s e
      → IsAt task_id (parked t a.passed b.passed c.passed s.passed) w.store
      → judge_stages d cfg task_id false full cycle (a ∷ b ∷ c ∷ s ∷ e ∷ []) w ≡ (ok passed, w')
      → ((cycle_passed (a ∷ b ∷ c ∷ s ∷ e ∷ []) ≡ true) × IsAt task_id (after_clean t) w'.store)
        ⊎ (MayDefer cfg.valve cycle (failed_stages (a ∷ b ∷ c ∷ s ∷ e ∷ []))
            × (a.passed ≡ true)
            × (e.passed ≡ true)
            × (opens_gauntlet t ≡ true → IsAt task_id (deferred_at b.passed c.passed) w'.store)
            × (opens_gauntlet t ≡ false → is_audit_stage t ≡ false → IsAt task_id t w'.store))
  judge_stages-outcome cycle a b c s e t w {w'} named at h =
      elim (Bool-cases (cycle_passed (a ∷ b ∷ c ∷ s ∷ e ∷ []))) [
        | inl all_passed ↦
            let ends = judge-clean cycle _ _ w all_passed at h in
            inl (
              all_passed,
              subst (λ x. IsAt task_id x w'.store)
                  (clean-state t a.passed b.passed c.passed s.passed e.passed all_passed) ends,
            )
        | inr some_failed ↦
            let (opened, ends) = judge-failed cycle _ _ w some_failed at h in
            let gates =
              any-gate a b c s e (local_ci-is_gate a named.first)
                (behavior-is_gate e named.fifth) in
            let first = not-false a.passed (λ x.
              opened (shut-at-gate cfg.valve cycle (a ∷ b ∷ c ∷ s ∷ e ∷ []) (gates (inl x)))) in
            let last = not-false e.passed (λ x.
              opened (shut-at-gate cfg.valve cycle (a ∷ b ∷ c ∷ s ∷ e ∷ []) (gates (inr x)))) in
            inr (
              (release_valve_iff cfg.valve cycle (a ∷ b ∷ c ∷ s ∷ e ∷ [])).0 opened,
              first,
              last,
              (λ opens.
                  subst (λ x. IsAt task_id x w'.store)
                    (deferred-state t a.passed b.passed c.passed s.passed e.passed first last
                      some_failed opens)
                    ends),
              λ opens stage.
                  subst (λ x. IsAt task_id x w'.store)
                    (deferred-outside t a.passed b.passed c.passed s.passed opens stage) ends,
            )
      ]
