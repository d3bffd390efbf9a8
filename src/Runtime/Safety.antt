-- ===== src/Runtime/Safety.antt =====
-- The helpers never raise for a task that exists, and go where their names say.
use quikode.Prelude.{
  true, Option, none, some, List, Text, ok, ◌≡◌, refl, ◌⊎◌, inl, inr, arith, Option-cases, subst,
  sym,
}
use quikode.Fsm.Table.{
  State, pending, doing_subtask, checking_subtask, triaging_subtask, committing, pushing,
  local_ci_checking, audit_local_ci, audit_rubric, audit_standards, audit_architecture,
  audit_behavior, fixup_planning, pr_opening, pending_ci, awaiting_review, conflict_resolving,
}
use quikode.Fsm.Rules.{transitions, is_audit_stage}
use quikode.Store.Rows.{Field, Store}
use quikode.Store.Fire.{IsAt, Arrives, apply_event-Arrives}
use quikode.Runtime.Helpers.{
  current_state, Move, stay, skip, clash, fire, Helper, move_of, carry_out, call,
  enter_audit_local_ci, advance_audit_stage, enter_doing_subtask, enter_checking_subtask,
  enter_triaging_subtask, enter_committing, enter_pushing, enter_local_ci_checking,
  enter_fixup_planning, enter_pr_opening, enter_pending_ci, enter_awaiting_review,
  enter_audit_cycle_for_ci_fixup, enter_audit_cycle_for_review_fixup, enter_conflict_resolving,
}

pub current_state-at :
    (i : Text) (s : Store) {t : State} → IsAt i t s → current_state i s ≡ (ok t, s)
unfolding current_state
current_state-at i s a = ground arith

-- A caller of `enter_audit_local_ci` that passes an event does so neither from LOCAL_CI_CHECKING nor
-- from PENDING_CI, and from AWAITING_REVIEW one that leads to AUDIT_LOCAL_CI.
abbrev pub HasValidEvent : Helper → State → Type 0
HasValidEvent (enter_audit_local_ci (some e)) awaiting_review =
    transitions awaiting_review e ≡ some audit_local_ci
HasValidEvent (enter_audit_local_ci (some e)) local_ci_checking = ⊥
HasValidEvent (enter_audit_local_ci (some e)) pending_ci = ⊥
HasValidEvent _ _ = Unit

-- The states in which a helper may leave the task.
abbrev pub Reaches : Helper → State → Type 0
Reaches enter_doing_subtask t = t ≡ doing_subtask
Reaches enter_checking_subtask t = t ≡ checking_subtask
Reaches enter_triaging_subtask t = t ≡ triaging_subtask
Reaches enter_committing t = t ≡ committing
Reaches enter_pushing t = t ≡ pushing
Reaches enter_local_ci_checking t = t ≡ local_ci_checking
Reaches enter_fixup_planning t = t ≡ fixup_planning
Reaches enter_pr_opening t = t ≡ pr_opening
Reaches enter_pending_ci t = t ≡ pending_ci
Reaches enter_awaiting_review t = t ≡ awaiting_review
Reaches enter_audit_cycle_for_ci_fixup t = is_audit_stage t ≡ true
Reaches enter_audit_cycle_for_review_fixup t = is_audit_stage t ≡ true
Reaches enter_conflict_resolving t = t ≡ conflict_resolving
Reaches (enter_audit_local_ci event) t = t ≡ audit_local_ci
Reaches (advance_audit_stage audit_local_ci true) t = t ≡ audit_rubric
Reaches (advance_audit_stage audit_rubric true) t = t ≡ audit_standards
Reaches (advance_audit_stage audit_standards true) t = t ≡ audit_architecture
Reaches (advance_audit_stage audit_architecture true) t = t ≡ audit_behavior
Reaches (advance_audit_stage audit_behavior true) t = t ≡ pr_opening
Reaches (advance_audit_stage expected passed) t = t ≡ fixup_planning

-- A move from `t` is legal if it stays where the helper leads, skips, or fires an event that the
-- table allows at `t` and that leads there.
abbrev Leads : Helper → Option State → Type 0
Leads h (some u) = Reaches h u
Leads h none = ⊥

abbrev LegalMove : Helper → State → Move → Type 0
LegalMove h t stay = Reaches h t
LegalMove h t skip = Unit
LegalMove h t clash = ⊥
LegalMove h t (fire e) = Leads h (transitions t e)

move_of-LegalMove : (h : Helper) (t : State) → HasValidEvent h t → LegalMove h t (move_of h t)
unfolding move_of transitions
move_of-LegalMove enter_doing_subtask pending v = ground arith
move_of-LegalMove (enter_audit_local_ci (some e)) awaiting_review v =
    subst (Leads (enter_audit_local_ci (some e))) (sym v) refl
move_of-LegalMove _ _ v = ground arith

module _ (h : Helper) (i : Text) (message : Option Text) (fields : List Field) (s : Store)
    {t : State} (at : IsAt i t s) where
  carry_out-settles :
      (m : Move)
      → LegalMove h t m
      → (carry_out i message fields t m s ≡ (ok none, s))
        ⊎ ((u : State) × Reaches h u
            × Arrives i u s (ok (some u)) (carry_out i message fields t m s))
  unfolding carry_out
  carry_out-settles stay legal =
      inr (t, legal, record { after = s; returns = refl; at = at; others = λ j. inr refl })
  carry_out-settles skip legal = inl refl
  carry_out-settles clash legal = absurd legal
  carry_out-settles (fire e) legal = elim (Option-cases (transitions t e)) [
    | inl missing ↦ absurd (subst (Leads h) missing legal)
    | inr (u, m) ↦
        let a = apply_event-Arrives i message fields s e u at m in
        inr (
          u,
          subst (Leads h) m legal,
          record {
            after = a.after;
            returns = ground (arith, a.returns);
            at = a.at;
            others = a.others;
          },
        )
  ]

-- For a task that exists, a helper that fires one event never raises: it skips, and the store is
-- unchanged, or it returns a state that its name stands for, the task's row is then in that
-- state, and the other tasks' rows are unchanged. A caller that passes `event` to
-- `enter_audit_local_ci` may do so neither from LOCAL_CI_CHECKING nor from PENDING_CI, and from
-- AWAITING_REVIEW only with an event that leads to AUDIT_LOCAL_CI.
pub call-is_safe :
    (h : Helper) (i : Text) (message : Option Text) (fields : List Field) (s : Store) {t : State}
    → IsAt i t s
    → HasValidEvent h t
    → (call h i message fields s ≡ (ok none, s))
      ⊎ ((u : State) × Reaches h u × Arrives i u s (ok (some u)) (call h i message fields s))
unfolding call
call-is_safe h i message fields s {t} at valid =
    rw (current_state-at i s at)
      (carry_out-settles h i message fields s at (move_of h t) (move_of-LegalMove h t valid))
