-- ===== src/Fsm/Recovery.antt =====
-- Crash recovery, the texts of states and events, and that no state but one is a dead end.
use quikode.Prelude.{
  Bool, true, false, ◌&&◌, ◌||◌, List, [], ◌∷◌, none, some, ◌≡◌, refl, ◌⊎◌, arith, ok, raise, ◌≢◌,
  ◌==◌,
}
use quikode.Fsm.Table.{
  State, Event, pending, pending_ci, awaiting_review, conflict_resolving, merge_node_ready,
  merge_node_retired, blocked, failed, aborted, block_task, unresolved, retry_task, mark_merged,
  parent_advanced, ci_passed, state_value, event_value, state_eq,
}
use quikode.Fsm.Rules.{
  transitions, target_for_event, enum, text, is_active, is_terminal, is_audit_stage, is_post_pr,
  recover_after_crash, recovery_of, RecoveryUpdate, coerce_state, coerce_event, not_valid,
  invalid_transition,
}
use quikode.Fsm.Gauntlet.{run_history}

-- `State(state.value)` is the state, and `Event(event.value)` the event.
pub coerce_state-state_value : (s : State) → coerce_state (text (state_value s)) ≡ ok s
unfolding coerce_state ◌==◌ state_value
coerce_state-state_value pending = refl
coerce_state-state_value _ = refl

pub coerce_event-event_value : (e : Event) → coerce_event (text (event_value e)) ≡ ok e
unfolding coerce_event ◌==◌ event_value
coerce_event-event_value Event.start_task = refl
coerce_event-event_value _ = refl

-- A state and an event may be given as themselves or by their texts, with the same outcome:
-- the listed target, or InvalidTransition naming the state and the event.
pub target_for_event-text :
    (s : State) (e : Event)
    → (target_for_event (text (state_value s)) (text (event_value e))
        ≡ target_for_event (enum s) (enum e))
      × (target_for_event (text (state_value s)) (enum e) ≡ target_for_event (enum s) (enum e))
      × (target_for_event (enum s) (enum e) ≡ elim (transitions s e) [
        | some t ↦ ok t
        | none ↦ raise (invalid_transition (not_valid s e))
      ])
unfolding target_for_event
target_for_event-text s e = ground (arith, coerce_state-state_value s, coerce_event-event_value e)

-- The states from which recovery looks for a pull request.
abbrev pub looks_for_pr : State → Bool
looks_for_pr State.pr_opening = true
looks_for_pr State.rebasing_to_main = true
looks_for_pr conflict_resolving = true
looks_for_pr s = is_audit_stage s

abbrev pub resumes : List RecoveryUpdate
resumes = RecoveryUpdate.resume_from_existing_subtasks ∷ []

-- What recovery gives from a state that is neither settled nor waiting on a pull request: PENDING and
-- a fresh workspace, PENDING_CI, or PENDING with the planned subtasks kept.
abbrev pub Restarts : State → Bool → State → List RecoveryUpdate → Type 0
Restarts s has_pr t updates =
    ((s ≡ State.provisioning)
      × (t ≡ pending)
      × (updates
          ≡ RecoveryUpdate.clear_branch ∷ RecoveryUpdate.clear_worktree_path
            ∷ RecoveryUpdate.clear_container_id ∷ []))
    ⊎ (((looks_for_pr s && has_pr) ≡ true) × (t ≡ pending_ci) × (updates ≡ []))
    ⊎ ((state_eq s State.provisioning ≡ false)
        × ((looks_for_pr s && has_pr) ≡ false)
        × (t ≡ pending)
        × (updates ≡ resumes))

-- Crash recovery from any state gives a state in which no worker is needed, and a second recovery
-- changes nothing. A terminal or pending task stays as it is. A task that waits on its pull request
-- goes to PENDING_CI with no update. Any other task goes to PENDING: from PROVISIONING with branch,
-- worktree and container cleared, and else with the flag to resume from its subtasks; but one that is
-- opening or rebasing a pull request, resolves a conflict or is in an audit stage goes to PENDING_CI
-- with no update if it has a pull request.
pub recover_after_crash-is_settled :
    (s : State) (has_pr again : Bool)
    → (t : State) × (updates : List RecoveryUpdate) × (recover_after_crash (enum s) has_pr
        ≡ ok (t, updates))
      × (is_active t ≡ false)
      × (recover_after_crash (enum t) again ≡ ok (t, []))
      × ((((is_terminal s || state_eq s pending) ≡ true) × (t ≡ s) × (updates ≡ []))
          ⊎ (((is_post_pr s ≡ true) × (t ≡ pending_ci) × (updates ≡ []))
              ⊎ (((is_terminal s || is_post_pr s || state_eq s pending) ≡ false)
                  × Restarts s has_pr t updates)))
unfolding recover_after_crash is_active
recover_after_crash-is_settled s has_pr again =
    let (t, updates) = recovery_of s has_pr in
    (t, updates, refl, ground arith, ground arith, ground arith)

-- The shortest way to MERGED, the latest event first.
way_to_merged : State → List Event
way_to_merged State.merged = []
way_to_merged pending = mark_merged ∷ []
way_to_merged awaiting_review = Event.merged ∷ []
way_to_merged pending_ci = Event.merged ∷ ci_passed ∷ []
way_to_merged blocked = mark_merged ∷ retry_task ∷ []
way_to_merged failed = mark_merged ∷ retry_task ∷ []
way_to_merged aborted = mark_merged ∷ retry_task ∷ []
way_to_merged merge_node_ready = mark_merged ∷ parent_advanced ∷ []
way_to_merged conflict_resolving = mark_merged ∷ retry_task ∷ unresolved ∷ []
way_to_merged _ = mark_merged ∷ retry_task ∷ block_task ∷ []

-- Every state but MERGE_NODE_RETIRED has a sequence of accepted events that ends in MERGED.
pub merged_reachable :
    (s : State)
    → s ≢ merge_node_retired
    → (history : List Event) × (run_history s history ≡ ok State.merged)
unfolding run_history target_for_event transitions way_to_merged
merged_reachable s other = (way_to_merged s, ground arith)
