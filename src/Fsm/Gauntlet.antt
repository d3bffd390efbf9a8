-- ===== src/Fsm/Gauntlet.antt =====
-- What the history of a task must hold for it to open a pull request, be merged or be integrated.
use quikode.Prelude.{
  List, [], ◌∷◌, some, ◌≡◌, refl, ap, ◌∙◌, ◌⊎◌, inl, inr, arith, Result, ok, ◌>>=◌, >>=-eq-ok, ◌≢◌,
}
use quikode.Fsm.Table.{
  State, Event, pending, audit_local_ci, audit_rubric, audit_standards, audit_architecture,
  audit_behavior, pr_opening, awaiting_review, pending_ci, merge_node_ready, audit_local_ci_passed,
  audit_rubric_passed, audit_standards_passed, audit_architecture_passed, audit_behavior_passed,
  merge_node_built, mark_merged, ci_passed,
}
use quikode.Fsm.Rules.{transitions, target_for_event, enum, Failure}

-- The state after a history of events, the newest first.
unfoldable pub run_history : State → List Event → Result Failure State
run_history s [] = ok s
run_history s (e ∷ earlier) = do t ← run_history s earlier; target_for_event (enum t) (enum e)

pub target_for_event-ok :
    (t : State) (e : Event) {u : State}
    → target_for_event (enum t) (enum e) ≡ ok u
    → transitions t e ≡ some u
unfolding target_for_event
target_for_event-ok t e h = ground arith

-- A history that is not empty ends with a step.
record LastStep (s : State) (history : List Event) (u : State) : Type 0 where
  before : State
  event : Event
  earlier : List Event
  split : history ≡ event ∷ earlier
  run : run_history s earlier ≡ ok before
  moves : transitions before event ≡ some u

last_step :
    (s : State) (history : List Event) {u : State}
    → s ≢ u
    → run_history s history ≡ ok u
    → LastStep s history u
unfolding run_history
last_step s [] other h = absurd (other (cc))
last_step s (e ∷ earlier) other h =
    let (t, ran, moves) = >>=-eq-ok (run_history s earlier) _ h in
    record {
      before = t;
      event = e;
      earlier = earlier;
      split = refl;
      run = ran;
      moves = target_for_event-ok t e moves;
    }

module _ (t : State) (e : Event) where
  into_audit_rubric :
      transitions t e ≡ some audit_rubric → (t ≡ audit_local_ci) × (e ≡ audit_local_ci_passed)
  unfolding transitions
  into_audit_rubric h = ground arith

  into_audit_standards :
      transitions t e ≡ some audit_standards → (t ≡ audit_rubric) × (e ≡ audit_rubric_passed)
  unfolding transitions
  into_audit_standards h = ground arith

  into_audit_architecture :
      transitions t e ≡ some audit_architecture
      → (t ≡ audit_standards) × (e ≡ audit_standards_passed)
  unfolding transitions
  into_audit_architecture h = ground arith

  into_audit_behavior :
      transitions t e ≡ some audit_behavior
      → (t ≡ audit_architecture) × (e ≡ audit_architecture_passed)
  unfolding transitions
  into_audit_behavior h = ground arith

  into_pr_opening :
      transitions t e ≡ some pr_opening → (t ≡ audit_behavior) × (e ≡ audit_behavior_passed)
  unfolding transitions
  into_pr_opening h = ground arith

  into_merge_node_ready :
      transitions t e ≡ some merge_node_ready → (t ≡ audit_behavior) × (e ≡ merge_node_built)
  unfolding transitions
  into_merge_node_ready h = ground arith

  into_awaiting_review : transitions t e ≡ some awaiting_review → (t ≡ pending_ci) × (e ≡ ci_passed)
  unfolding transitions
  into_awaiting_review h = ground arith

  into_merged :
      transitions t e ≡ some State.merged
      → (t ≡ awaiting_review) × (e ≡ Event.merged) ⊎ (t ≡ pending) × (e ≡ mark_merged)
  unfolding transitions
  into_merged h = ground arith

-- The four events that carry a task from the first audit stage to the last, the newest first.
abbrev pub four_stages_passed : List Event → List Event
four_stages_passed earlier =
    audit_architecture_passed ∷ audit_standards_passed ∷ audit_rubric_passed ∷ audit_local_ci_passed
    ∷ earlier

-- A state other than the start that has one way in was entered by it.
came_by :
    (s u before : State) (event : Event)
    → s ≢ u
    → ((t : State) (e : Event) → transitions t e ≡ some u → (t ≡ before) × (e ≡ event))
    → (history : List Event) → run_history s history ≡ ok u
    → (earlier : List Event) × (history ≡ event ∷ earlier) × (run_history s earlier ≡ ok before)
came_by s u before event other only history h =
    let last = last_step s history other h in
    let (at, by) = only last.before last.event last.moves in
    (last.earlier, last.split ∙ ap (λ e. e ∷ last.earlier) by, last.run ∙ ap ok at)

reaches_behavior :
    (history : List Event)
    → run_history pending history ≡ ok audit_behavior
    → (earlier : List Event) × (history ≡ four_stages_passed earlier)
      × (run_history pending earlier ≡ ok audit_local_ci)
reaches_behavior history h =
    let (d, d_split, d_run) = came_by pending _ _ _ (λ e. cc) into_audit_behavior history h in
    let (c, c_split, c_run) = came_by pending _ _ _ (λ e. cc) into_audit_architecture d d_run in
    let (b, b_split, b_run) = came_by pending _ _ _ (λ e. cc) into_audit_standards c c_run in
    let (a, a_split, a_run) = came_by pending _ _ _ (λ e. cc) into_audit_rubric b b_run in
    (
      a,
      d_split
          ∙ ap (λ l. audit_architecture_passed ∷ l)
              (c_split
                ∙ ap (λ l. audit_standards_passed ∷ l)
                    (b_split ∙ ap (λ l. audit_rubric_passed ∷ l) a_split)),
      a_run,
    )

-- A task that starts at PENDING is in PR_OPENING only if its five latest events are the five
-- audit stages' passes, in the gauntlet's order, and before them it was in AUDIT_LOCAL_CI.
pub pr_opening_needs_gauntlet :
    (history : List Event)
    → run_history pending history ≡ ok pr_opening
    → (earlier : List Event) × (history ≡ audit_behavior_passed ∷ four_stages_passed earlier)
      × (run_history pending earlier ≡ ok audit_local_ci)
pr_opening_needs_gauntlet history h =
    let (last, split, ran) = came_by pending _ _ _ (λ e. cc) into_pr_opening history h in
    let (earlier, split', ran') = reaches_behavior last ran in
    (earlier, split ∙ ap (λ l. audit_behavior_passed ∷ l) split', ran')

-- A task that starts at PENDING is in MERGE_NODE_READY only if its latest event is
-- MERGE_NODE_BUILT, right after the passes of the first four audit stages in order.
merge_node_ready_needs_gauntlet :
    (history : List Event)
    → run_history pending history ≡ ok merge_node_ready
    → (earlier : List Event) × (history ≡ merge_node_built ∷ four_stages_passed earlier)
      × (run_history pending earlier ≡ ok audit_local_ci)
merge_node_ready_needs_gauntlet history h =
    let (last, split, ran) = came_by pending _ _ _ (λ e. cc) into_merge_node_ready history h in
    let (earlier, split', ran') = reaches_behavior last ran in
    (earlier, split ∙ ap (λ l. merge_node_built ∷ l) split', ran')

-- A task that starts at PENDING is MERGED only if its two latest events are CI_PASSED at
-- PENDING_CI and then MERGED, or its latest event is MARK_MERGED at PENDING.
merged_needs_ci :
    (history : List Event)
    → run_history pending history ≡ ok State.merged
    → (earlier : List Event) × ((history ≡ Event.merged ∷ ci_passed ∷ earlier)
          × (run_history pending earlier ≡ ok pending_ci)
        ⊎ (history ≡ mark_merged ∷ earlier) × (run_history pending earlier ≡ ok pending))
merged_needs_ci history h =
    let last = last_step pending history (λ e. cc) h in
    elim (into_merged last.before last.event last.moves) [
      | inl (at, by) ↦
          let (earlier, split, ran) =
            came_by pending _ _ _ (λ e. cc) into_awaiting_review last.earlier
              (last.run ∙ ap ok at) in
          (
            earlier,
            inl (
              last.split ∙ ap (λ e. e ∷ last.earlier) by ∙ ap (λ l. Event.merged ∷ l) split,
              ran,
            ),
          )
      | inr (at, by) ↦
          (last.earlier, inr (last.split ∙ ap (λ e. e ∷ last.earlier) by, last.run ∙ ap ok at))
    ]
