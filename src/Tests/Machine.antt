-- ===== src/Tests/Machine.antt =====
-- Runs of the state machine of quikode/fsm.py.
use quikode.Prelude.{true, false, ◌||◌, List, [], ◌∷◌, none, ok, ◌≡◌, refl, ◌⊎◌, ◌≢◌, ◌==◌}
use quikode.Fsm.Table.{
  State, Event, pending, audit_local_ci, audit_rubric, pr_opening, pending_ci, blocked, state_value,
  state_eq, start_task, environment_ready, plan_valid, doer_done, subtask_passed, commit_created,
  all_subtasks_done, local_ci_passed, audit_behavior_passed, audit_behavior_failed,
}
use quikode.Fsm.Rules.{
  transitions, target_for_event, enum, text, is_active, is_terminal, is_post_pr,
  recover_after_crash, RecoveryUpdate,
}
use quikode.Fsm.Gauntlet.{run_history, four_stages_passed, pr_opening_needs_gauntlet}
use quikode.Fsm.Recovery.{Restarts, recover_after_crash-is_settled, merged_reachable}

-- A first cycle, from START_TASK to the last subtask's push and the local CI.
abbrev to_gauntlet : List Event
to_gauntlet =
    local_ci_passed ∷ all_subtasks_done ∷ commit_created ∷ subtask_passed ∷ doer_done ∷ plan_valid
    ∷ environment_ready ∷ start_task ∷ []

abbrev to_pr : List Event
to_pr = audit_behavior_passed ∷ four_stages_passed to_gauntlet

to_pr-runs : run_history pending to_pr ≡ ok pr_opening
unfolding run_history target_for_event transitions
to_pr-runs = refl

pr_opening_needs_gauntlet_example :
    (earlier : List Event) × (to_pr ≡ audit_behavior_passed ∷ four_stages_passed earlier)
    × (run_history pending earlier ≡ ok audit_local_ci)
pr_opening_needs_gauntlet_example = pr_opening_needs_gauntlet to_pr to_pr-runs

recover_after_crash-is_settled_example :
    (t : State) × (updates : List RecoveryUpdate) × (recover_after_crash (enum audit_rubric) true
      ≡ ok (t, updates))
    × (is_active t ≡ false)
    × (recover_after_crash (enum t) false ≡ ok (t, []))
    × ((((is_terminal audit_rubric || state_eq audit_rubric pending) ≡ true)
          × (t ≡ audit_rubric)
          × (updates ≡ []))
        ⊎ (((is_post_pr audit_rubric ≡ true) × (t ≡ pending_ci) × (updates ≡ []))
            ⊎ (((is_terminal audit_rubric
                    || is_post_pr audit_rubric
                    || state_eq audit_rubric pending)
                  ≡ false)
                × Restarts audit_rubric true t updates)))
recover_after_crash-is_settled_example = recover_after_crash-is_settled audit_rubric true false

blocked-other : blocked ≢ State.merge_node_retired
blocked-other e = cc

merged_reachable_example : (history : List Event) × (run_history blocked history ≡ ok State.merged)
merged_reachable_example = merged_reachable blocked blocked-other

-- A failed stage leads to the fixup planner, and no event skips a stage.
failed_audit :
    target_for_event (text (state_value State.audit_behavior)) (enum audit_behavior_failed)
    ≡ ok State.fixup_planning
unfolding target_for_event state_value ◌==◌ transitions
failed_audit = refl

no_skip : transitions audit_local_ci audit_behavior_passed ≡ none
unfolding transitions
no_skip = refl
