-- ===== src/Audit/Parks.antt =====
-- Where the stages of an audit leave the task: at the first stage that failed.
use quikode.Prelude.{
  ℕ, Bool, true, false, Option, none, some, ◌&&◌, List, [], ◌∷◌, Text, codes, Result, ok, raise,
  ◌≡◌, refl, inl, inr, if◌then◌else◌, Bool-cases,
}
use quikode.Fsm.Table.{
  State, state_eq, local_ci_checking, audit_local_ci, audit_rubric, audit_standards,
  audit_architecture, audit_behavior, local_ci_passed, pending_ci, awaiting_review, Event,
  ci_fixup_start, review_fixup_start,
}
use quikode.Fsm.Rules.{transitions}
use quikode.Store.Fire.{IsAt}
use quikode.Runtime.Helpers.{call, move_of, carry_out, audit_local_ci_move, fire}
use quikode.Runtime.Safety.{current_state-at}
use quikode.Runtime.Merging.{return_event}
use quikode.Runtime.Stages.{
  StageHelper, acts_at, leads_to, stage_helper-settles, enter_audit_rubric, enter_audit_standards,
  enter_audit_architecture, enter_audit_behavior,
}
use quikode.Audit.Findings.{StageName, StageOutcome}
use quikode.Audit.Summary.{Summary, pre_pr_stage_passed}
use quikode.Audit.Stages.{
  Auditors, Audit, Stop, shutdown, Work, work_then, in_store, advance_to, run_and_record,
  run_or_reuse, enter_after_local_ci, label,
}

-- A step returned a value with the property, or stopped for a shutdown.
pub data Ends {W A : Type 0} (P : A → Audit W → Type 0) : Result Stop A × Audit W → Type 0 where
  returned : (value : A) (w : Audit W) → P value w → Ends P (ok value, w)
  stopped : (w : Audit W) → Ends P (raise shutdown, w)

pub Ends-bind :
    {W A B : Type 0} {P : A → Audit W → Type 0} {Q : B → Audit W → Type 0}
    (out : Result Stop A × Audit W) (rest : A → Work W B)
    → Ends P out
    → ((value : A) (w : Audit W) → P value w → Ends Q (rest value w))
    → Ends Q (work_then out.0 rest out.1)
Ends-bind out rest (returned value w p) then_ = then_ value w p
Ends-bind out rest (stopped w) then_ = stopped w

-- Where a stage's helper takes the task if the stage before passed.
abbrev pub moved : StageHelper → Bool → State → State
moved h false t = t
moved h true t = if state_eq t (acts_at h) then leads_to h else t

-- The states that `enter_audit_local_ci` takes to AUDIT_LOCAL_CI, or leaves there.
abbrev pub opens_gauntlet : State → Bool
opens_gauntlet local_ci_checking = true
opens_gauntlet audit_local_ci = true
opens_gauntlet pending_ci = true
opens_gauntlet awaiting_review = true
opens_gauntlet _ = false

abbrev pub started : Bool → State → State
started passed t = if passed && opens_gauntlet t then audit_local_ci else t

-- The first stage from architecture, standards or rubric on that failed, else behavior.
abbrev pub from_architecture : Bool → State
from_architecture r = if r then audit_behavior else audit_architecture

abbrev pub from_standards : Bool → Bool → State
from_standards q r = if q then from_architecture r else audit_standards

abbrev pub from_rubric : Bool → Bool → Bool → State
from_rubric p q r = if p then from_standards q r else audit_rubric

-- The state after the stages, by the state before them and by what local CI, rubric, standards and
-- architecture gave.
abbrev pub parked : State → Bool → Bool → Bool → Bool → State
parked audit_rubric o p q r = from_rubric p q r
parked audit_standards o p q r = from_standards q r
parked audit_architecture o p q r = from_architecture r
parked t o p q r = if o && opens_gauntlet t then from_rubric p q r else t

module _ {W : Type 0} (o : Auditors W) (task_id : Text) (cycle : ℕ) where
  pub advance-moved :
      (h : StageHelper) (text : Text) (b : Bool) (t : State) (w : Audit W)
      → IsAt task_id t w.store
      → Ends
          (λ fired w'. IsAt task_id (moved h b t) w'.store)
          (advance_to o task_id cycle h text b w)
  unfolding advance_to in_store
  advance-moved h text false t w at = returned _ _ at
  advance-moved h text true t w at =
      elim (stage_helper-settles h task_id (label o task_id cycle text) [] w.store t at) [
        | inl (here, a) ↦ rw (a.returns, here) (returned _ _ a.at)
        | inr (elsewhere, e) ↦ rw (e, elsewhere) (returned _ _ at)
      ]

  pub run_or_reuse-IsAt :
      (resume : Option Summary) (name : StageName) (t : State) (w : Audit W)
      → IsAt task_id t w.store
      → Ends (λ outcome w'. IsAt task_id t w'.store) (run_or_reuse o task_id cycle resume name w)
  unfolding run_or_reuse run_and_record
  run_or_reuse-IsAt resume name t w at = elim (Bool-cases (pre_pr_stage_passed resume name)) [
    | inl e ↦ rw e (returned _ _ at)
    | inr e ↦ elim (Bool-cases (o.stop_requested (o.run_stage name w.world).1)) [
      | inl stop ↦ rw (e, stop) (stopped _)
      | inr run ↦ rw (e, run) (returned _ _ at)
    ]
  ]

  fires-started :
      (e : Event) (t : State) (w : Audit W)
      → transitions t e ≡ some audit_local_ci
      → audit_local_ci_move none t ≡ fire e
      → IsAt task_id t w.store
      → Ends
          (λ r w'. IsAt task_id audit_local_ci w'.store)
          (enter_after_local_ci o task_id cycle true w)
  unfolding enter_after_local_ci in_store call carry_out move_of
  fires-started e t w leads fires at =
      let a =
        return_event task_id (label o task_id cycle (codes "local_ci passed")) [] w.store at e
          audit_local_ci leads in
      rw (current_state-at task_id w.store at, fires, a.returns) (returned _ _ a.at)

  pub enter_after-started :
      (b : Bool) (t : State) (w : Audit W)
      → IsAt task_id t w.store
      → Ends
          (λ r w'. IsAt task_id (started b t) w'.store)
          (enter_after_local_ci o task_id cycle b w)
  unfolding enter_after_local_ci in_store call carry_out move_of transitions
  enter_after-started false t w at = returned _ _ at
  enter_after-started true local_ci_checking w at = fires-started local_ci_passed _ w refl refl at
  enter_after-started true pending_ci w at = fires-started ci_fixup_start _ w refl refl at
  enter_after-started true awaiting_review w at = fires-started review_fixup_start _ w refl refl at
  enter_after-started true _ w at = rw (current_state-at task_id w.store at) (returned _ _ at)

  -- The outcomes of the five stages, the task where the first failure leaves it.
  abbrev pub Parked : State → List StageOutcome → Audit W → Type 0
  Parked t (a ∷ b ∷ c ∷ d ∷ e ∷ []) w =
      IsAt task_id (parked t a.passed b.passed c.passed d.passed) w.store
  Parked t _ w = ⊥

  -- The three outcomes between, the task moved on from where it was.
  abbrev Between : StageOutcome → State → List StageOutcome → Audit W → Type 0
  Between a t (b ∷ c ∷ d ∷ []) w =
      IsAt task_id
        (moved enter_audit_behavior d.passed (
          moved enter_audit_architecture c.passed
            (moved enter_audit_standards b.passed (moved enter_audit_rubric a.passed t))))
        w.store
  Between a t _ w = ⊥
