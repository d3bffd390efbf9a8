-- ===== src/Audit/Stays.antt =====
-- Where the stages of an audit leave a merge node that has no integration subtasks.
use quikode.Prelude.{
  ℕ, Bool, true, false, none, Option, List, [], ◌∷◌, ◌++◌, Text, codes, ◌≡◌, arith, subst,
}
use quikode.Fsm.Table.{State, state_eq, merge_node_built, audit_architecture, audit_behavior}
use quikode.Fsm.Rules.{transitions}
use quikode.Store.Fire.{IsAt}
use quikode.Runtime.Stages.{enter_audit_behavior}
use quikode.Audit.Findings.{StageOutcome, local_ci, behavior}
use quikode.Audit.Summary.{Summary}
use quikode.Audit.Stages.{
  Auditors, Audit, work_then, middle_stages, execute_audit_stages, run_or_reuse, return,
}
use quikode.Audit.Parks.{
  Ends, returned, Ends-bind, moved, started, advance-moved, run_or_reuse-IsAt, enter_after-started,
}

-- The states before the architecture stage, and those outside the audit.
abbrev pub is_before_behavior : State → Bool
is_before_behavior audit_architecture = false
is_before_behavior audit_behavior = false
is_before_behavior _ = true

skips :
    (t : State) (b : Bool)
    → is_before_behavior t ≡ true
    → moved enter_audit_behavior b (started b t) ≡ started b t
unfolding state_eq
skips _ b before = ground arith

built-invalid :
    (t : State) (b : Bool)
    → is_before_behavior t ≡ true
    → transitions (started b t) merge_node_built ≡ none
unfolding transitions
built-invalid _ b before = ground arith

module _ {W : Type 0} (o : Auditors W) (task_id : Text) (cycle : ℕ) where
  -- No stage between, and the task where local CI left it.
  abbrev NoneBetween : State → List StageOutcome → Audit W → Type 0
  NoneBetween t [] w = IsAt task_id t w.store
  NoneBetween t (b ∷ more) w = ⊥

  middle_stages-NoneBetween :
      (resume : Option Summary) (a : StageOutcome) (t : State) (w : Audit W)
      → is_before_behavior t ≡ true
      → IsAt task_id (started a.passed t) w.store
      → Ends (NoneBetween (started a.passed t)) (middle_stages o task_id cycle false resume a w)
  unfolding middle_stages
  middle_stages-NoneBetween resume a t w before at =
      Ends-bind _ _
        (advance-moved o task_id cycle enter_audit_behavior (codes "behavior audit") a.passed _ w
          at)
        λ f w' at'.
          returned _ _ (subst (λ x. IsAt task_id x w'.store) (skips t a.passed before) at')

  -- The outcomes of the two stages of a merge node.
  abbrev pub Stays : State → List StageOutcome → Audit W → Type 0
  Stays t (a ∷ e ∷ []) w = IsAt task_id (started a.passed t) w.store
  Stays t _ w = ⊥

  behind :
      (resume : Option Summary) (a : StageOutcome) (middle : List StageOutcome) (t : State)
      (w : Audit W)
      → NoneBetween (started a.passed t) middle w
      → Ends (Stays t) (
          work_then
            (run_or_reuse o task_id cycle resume behavior w).0
            (λ last. return (a ∷ middle ++ last ∷ []))
            (run_or_reuse o task_id cycle resume behavior w).1)
  behind resume a [] t w at =
      Ends-bind _ _ (run_or_reuse-IsAt o task_id cycle resume behavior _ w at)
        λ e w' at'. returned _ _ at'
  behind resume a (b ∷ more) t w at = absurd at

  -- A merge node without integration subtasks, in any state but AUDIT_ARCHITECTURE and
  -- AUDIT_BEHAVIOR, runs local CI and behavior, unless a shutdown stops it, and never reaches
  -- AUDIT_BEHAVIOR: if local CI passed it is left in AUDIT_LOCAL_CI where `enter_audit_local_ci` leads
  -- there, and else where it began. MERGE_NODE_BUILT, which the worker fires next, is no transition of
  -- that state.
  pub execute_audit_stages-Stays :
      (resume : Option Summary) (t : State) (w : Audit W)
      → is_before_behavior t ≡ true
      → IsAt task_id t w.store
      → Ends (Stays t) (execute_audit_stages o task_id cycle false resume w)
        × ((b : Bool) → transitions (started b t) merge_node_built ≡ none)
  unfolding execute_audit_stages
  execute_audit_stages-Stays resume t w before at = (
    Ends-bind _ _ (run_or_reuse-IsAt o task_id cycle resume local_ci t w at) λ a w1 at1.
        Ends-bind _ _ (enter_after-started o task_id cycle a.passed t w1 at1) λ r w2 at2.
          Ends-bind _ _ (middle_stages-NoneBetween resume a t w2 before at2)
            λ middle w3 p. behind resume a middle t w3 p,
    λ b. built-invalid t b before,
  )
