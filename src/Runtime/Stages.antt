-- ===== src/Runtime/Stages.antt =====
-- The helpers of quikode/fsm_runtime.py that are named for an audit stage and its verdict, from
-- `audit_local_ci_passed` to `audit_behavior_failed`, and what they do.
use quikode.Prelude.{
  true, false, Option, none, some, List, Text, ok, ◌≡◌, refl, ◌⊎◌, inl, inr, arith,
}
use quikode.Fsm.Table.{
  State, Event, state_eq, audit_local_ci, audit_rubric, audit_standards, audit_architecture,
  audit_behavior, pr_opening, fixup_planning,
}
use quikode.Fsm.Rules.{transitions}
use quikode.Store.Rows.{Field, Store}
use quikode.Store.Fire.{IsAt, Arrives}
use quikode.Runtime.Helpers.{Helper, advance_audit_stage, call, move_of, fire, skip}
use quikode.Runtime.Safety.{current_state-at}
use quikode.Runtime.Merging.{return_event}

pub data StageHelper : Type 0 where
  audit_local_ci_passed audit_local_ci_failed enter_audit_rubric : StageHelper
  audit_rubric_passed audit_rubric_failed enter_audit_standards : StageHelper
  audit_standards_passed audit_standards_failed enter_audit_architecture : StageHelper
  audit_architecture_passed audit_architecture_failed enter_audit_behavior : StageHelper
  audit_behavior_passed audit_behavior_failed : StageHelper

-- Each calls `_advance_audit_stage` with the stage and the verdict of its name, or the helper that
-- passes the stage before.
abbrev pub stage_helper : StageHelper → Helper
stage_helper audit_local_ci_passed = advance_audit_stage audit_local_ci true
stage_helper audit_local_ci_failed = advance_audit_stage audit_local_ci false
stage_helper enter_audit_rubric = advance_audit_stage audit_local_ci true
stage_helper audit_rubric_passed = advance_audit_stage audit_rubric true
stage_helper audit_rubric_failed = advance_audit_stage audit_rubric false
stage_helper enter_audit_standards = advance_audit_stage audit_rubric true
stage_helper audit_standards_passed = advance_audit_stage audit_standards true
stage_helper audit_standards_failed = advance_audit_stage audit_standards false
stage_helper enter_audit_architecture = advance_audit_stage audit_standards true
stage_helper audit_architecture_passed = advance_audit_stage audit_architecture true
stage_helper audit_architecture_failed = advance_audit_stage audit_architecture false
stage_helper enter_audit_behavior = advance_audit_stage audit_architecture true
stage_helper audit_behavior_passed = advance_audit_stage audit_behavior true
stage_helper audit_behavior_failed = advance_audit_stage audit_behavior false

-- The stage at which the helper acts, and where it leads.
abbrev pub acts_at : StageHelper → State
acts_at audit_local_ci_passed = audit_local_ci
acts_at audit_local_ci_failed = audit_local_ci
acts_at enter_audit_rubric = audit_local_ci
acts_at audit_rubric_passed = audit_rubric
acts_at audit_rubric_failed = audit_rubric
acts_at enter_audit_standards = audit_rubric
acts_at audit_standards_passed = audit_standards
acts_at audit_standards_failed = audit_standards
acts_at enter_audit_architecture = audit_standards
acts_at audit_architecture_passed = audit_architecture
acts_at audit_architecture_failed = audit_architecture
acts_at enter_audit_behavior = audit_architecture
acts_at audit_behavior_passed = audit_behavior
acts_at audit_behavior_failed = audit_behavior

abbrev pub leads_to : StageHelper → State
leads_to audit_local_ci_passed = audit_rubric
leads_to enter_audit_rubric = audit_rubric
leads_to audit_rubric_passed = audit_standards
leads_to enter_audit_standards = audit_standards
leads_to audit_standards_passed = audit_architecture
leads_to enter_audit_architecture = audit_architecture
leads_to audit_architecture_passed = audit_behavior
leads_to enter_audit_behavior = audit_behavior
leads_to audit_behavior_passed = pr_opening
leads_to _ = fixup_planning

abbrev fires : StageHelper → Event
fires audit_local_ci_passed = Event.audit_local_ci_passed
fires enter_audit_rubric = Event.audit_local_ci_passed
fires audit_rubric_passed = Event.audit_rubric_passed
fires enter_audit_standards = Event.audit_rubric_passed
fires audit_standards_passed = Event.audit_standards_passed
fires enter_audit_architecture = Event.audit_standards_passed
fires audit_architecture_passed = Event.audit_architecture_passed
fires enter_audit_behavior = Event.audit_architecture_passed
fires audit_behavior_passed = Event.audit_behavior_passed
fires audit_local_ci_failed = Event.audit_local_ci_failed
fires audit_rubric_failed = Event.audit_rubric_failed
fires audit_standards_failed = Event.audit_standards_failed
fires audit_architecture_failed = Event.audit_architecture_failed
fires audit_behavior_failed = Event.audit_behavior_failed

-- The move at the helper's stage is an event that leads on, and elsewhere it is a skip.
abbrev StageMove : StageHelper → State → Type 0
StageMove h t =
    ((state_eq t (acts_at h) ≡ true)
      × ((move_of (stage_helper h) t ≡ fire (fires h))
          × (transitions t (fires h) ≡ some (leads_to h))))
    ⊎ ((state_eq t (acts_at h) ≡ false) × (move_of (stage_helper h) t ≡ skip))

stage_move : (h : StageHelper) (t : State) → StageMove h t
unfolding move_of transitions
stage_move h t = ground arith

-- A stage's helper acts on an existing task exactly at its stage: there it leaves the task in the
-- next stage (PR_OPENING after the last) or, for a failed stage, in FIXUP_PLANNING, the other tasks
-- as they were; at any other state it skips, and the store is unchanged.
pub stage_helper-settles :
    (h : StageHelper) (i : Text) (message : Option Text) (fields : List Field) (s : Store)
    (t : State)
    → IsAt i t s
    → ((state_eq t (acts_at h) ≡ true)
        × Arrives i
            (leads_to h)
            s
            (ok (some (leads_to h)))
            (call (stage_helper h) i message fields s))
      ⊎ ((state_eq t (acts_at h) ≡ false)
          × (call (stage_helper h) i message fields s ≡ (ok none, s)))
unfolding call
stage_helper-settles h i message fields s t at = elim (stage_move h t) [
  | inl (here, (moves, leads)) ↦ inl (
    here,
    rw (current_state-at i s at, moves)
        (return_event i message fields s at (fires h) (leads_to h) leads),
  )
  | inr (elsewhere, skips) ↦ inr (elsewhere, rw (current_state-at i s at, skips) refl)
]
