-- ===== src/Store/Log.antt =====
-- The state log agrees with the tasks table, and each event leaves its trace in it.
use quikode.Prelude.{
  not, ◌&&◌, Option, none, some, List, [], ◌∷◌, ◌++◌, Text, ◌==◌, ==_iff, if◌then◌else◌, ◌≡◌, refl,
  ◌⊎◌, inl, inr, arith, ℕ, Option-cases, Result-cases, Bool-cases,
}
use quikode.Fsm.Table.{State, Event, blocked, pending, state_eq, state_value}
use quikode.Fsm.Rules.{text, OrText, target_for_event}
use quikode.Store.Rows.{TaskRow, Field, LogRow, Store, Phase, PrReviewTrigger}
use quikode.Store.Tasks.{
  select, update_rows, upsert_pending, transition, apply_event, or_event, seed_merged_node,
  seed_existing, enter_phase, increment_cycle_in_phase, moved_row,
}
use quikode.Store.Lookup.{
  select-id, select-update_rows, select-insert, moved_row-id, moved_row-state,
}

-- The state that the latest log entry of a task gives.
abbrev pub last_logged : Text → List LogRow → Option State
last_logged j [] = none
last_logged j (e ∷ es) = elim (last_logged j es) [
  | some t ↦ some t
  | none ↦ if e.task_id == j then some e.to_state else none
]

pub last_logged-append :
    (j : Text) (e : LogRow) (es : List LogRow)
    → last_logged j (es ++ e ∷ []) ≡ (if e.task_id == j then some e.to_state else last_logged j es)
last_logged-append j e [] = refl
last_logged-append j e (x ∷ es) = ground (arith, last_logged-append j e es)

abbrev pub state_of : Option TaskRow → Option State
state_of none = none
state_of (some r) = some r.state

-- For every task the log's latest entry gives the state of its row, and only rows are logged.
abbrev pub IsLogged : Store → Type 0
IsLogged s = (j : Text) → last_logged j s.log ≡ state_of (select j s.tasks)

update-IsLogged :
    (i : Text) (f : TaskRow → TaskRow) (e : LogRow) (c : List Text) (s : Store) {r : TaskRow}
    → select i s.tasks ≡ some r
    → ((x : TaskRow) → (f x).id ≡ x.id)
    → e.task_id ≡ i
    → (f r).state ≡ e.to_state
    → IsLogged s
    → IsLogged (record { tasks = update_rows i f s.tasks; log = s.log ++ e ∷ []; captures = c })
update-IsLogged i f e c s {r} found keeps names moves h j =
    ground
      (arith, h j, last_logged-append j e s.log, select-update_rows i j f s.tasks keeps, ==_iff i j)

pub insert-IsLogged :
    (row : TaskRow) (e : LogRow) (c : List Text) (s : Store)
    → select row.id s.tasks ≡ none
    → e.task_id ≡ row.id
    → row.state ≡ e.to_state
    → IsLogged s
    → IsLogged (record { tasks = s.tasks ++ row ∷ []; log = s.log ++ e ∷ []; captures = c })
insert-IsLogged row e c s absent names moves h j =
    ground (arith, h j, last_logged-append j e s.log, select-insert j row s.tasks absent)

pub upsert_pending-IsLogged : (i : Text) (s : Store) → IsLogged s → IsLogged (upsert_pending i s).1
unfolding upsert_pending
upsert_pending-IsLogged i s h = elim (Option-cases (select i s.tasks)) [
  | inl absent ↦ rw (absent, upsert_pending) (insert-IsLogged _ _ s.captures s absent refl refl h)
  | inr (r, found) ↦ rw (found, upsert_pending) h
]

-- The calls of `capture_block_forensics` after a transition of the row `r` to `t`.
abbrev captured : Text → State → TaskRow → Store → List Text
captured i t r s =
    if state_eq t blocked && not (state_eq r.state blocked)
    then s.captures ++ i ∷ []
    else s.captures

pub transition-IsLogged :
    (i : Text) (t : State) (message : Option Text) (fields : List Field) (s : Store)
    → IsLogged s
    → IsLogged (transition i t message fields s).1
unfolding transition
transition-IsLogged i t message fields s h = elim (Option-cases (select i s.tasks)) [
  | inl absent ↦ rw (absent, transition) h
  | inr (r, found) ↦
      rw (found, transition)
        (update-IsLogged i (moved_row t fields) _ (captured i t r s) s found (moved_row-id t fields)
          refl (moved_row-state t fields r) h)
]

-- An event of any spelling is a transition to some state, or leaves the store as it was.
apply_event-cases :
    (i : Text) (event : OrText Event) (message : Option Text) (fields : List Field) (s : Store)
    → ((apply_event i event message fields s).1 ≡ s)
      ⊎ ((t : State) × ((apply_event i event message fields s).1
            ≡ (transition i t (or_event message event) fields s).1))
unfolding apply_event
apply_event-cases i event message fields s = elim (Option-cases (select i s.tasks)) [
  | inl absent ↦ inl (ground arith)
  | inr (r, found) ↦ elim (Result-cases (target_for_event (text (state_value r.state)) event)) [
    | inl (t, moves) ↦ inr (t, ground arith)
    | inr (e, refused) ↦ inl (ground arith)
  ]
]

pub apply_event-IsLogged :
    (i : Text) (event : OrText Event) (message : Option Text) (fields : List Field) (s : Store)
    → IsLogged s
    → IsLogged (apply_event i event message fields s).1
apply_event-IsLogged i event message fields s h =
    elim (apply_event-cases i event message fields s) [
      | inl same ↦ rw same h
      | inr (t, moved) ↦ rw moved (transition-IsLogged i t (or_event message event) fields s h)
    ]

seed_existing-IsLogged :
    (i source evidence : Text) (s : Store) (r : TaskRow)
    → select i s.tasks ≡ some r
    → IsLogged s
    → IsLogged (seed_existing i source evidence r s).1
unfolding seed_existing
seed_existing-IsLogged i source evidence s r found h =
    elim (Bool-cases (state_eq r.state pending)) [
      | inl waits ↦
          rw (waits, seed_existing)
            (update-IsLogged i _ _ s.captures s found (λ x. refl) refl refl h)
      | inr other ↦ elim (Bool-cases (state_eq r.state State.merged)) [
        | inl done ↦ rw (other, done, seed_existing) h
        | inr wrong ↦ rw (other, wrong, seed_existing) h
      ]
    ]

pub seed_merged_node-IsLogged :
    (i source evidence : Text) (s : Store)
    → IsLogged s
    → IsLogged (seed_merged_node i source evidence s).1
unfolding seed_merged_node
seed_merged_node-IsLogged i source evidence s h = elim (Option-cases (select i s.tasks)) [
  | inl absent ↦ rw (absent, seed_merged_node) (insert-IsLogged _ _ s.captures s absent refl refl h)
  | inr (r, found) ↦
      rw (found, seed_merged_node) (seed_existing-IsLogged i source evidence s r found h)
]

pub enter_phase-IsLogged :
    (i : Text) (phase : Phase) (cycle : ℕ) (cause : PrReviewTrigger) (message : Option Text)
    (s : Store)
    → IsLogged s
    → IsLogged (enter_phase i phase cycle cause message s).1
unfolding enter_phase
enter_phase-IsLogged i phase cycle cause message s h = elim (Option-cases (select i s.tasks)) [
  | inl absent ↦ rw (absent, enter_phase) h
  | inr (r, found) ↦
      rw (found, enter_phase)
        (update-IsLogged i _ _ s.captures s found (λ x. refl) (select-id i s.tasks r found) refl h)
]

pub increment_cycle_in_phase-IsLogged :
    (i : Text) (cause : Option PrReviewTrigger) (message : Option Text) (s : Store)
    → IsLogged s
    → IsLogged (increment_cycle_in_phase i cause message s).1
unfolding increment_cycle_in_phase
increment_cycle_in_phase-IsLogged i cause message s h = elim (Option-cases (select i s.tasks)) [
  | inl absent ↦ rw (absent, increment_cycle_in_phase) h
  | inr (r, found) ↦
      rw (found, increment_cycle_in_phase)
        (update-IsLogged i _ _ s.captures s found (λ x. refl) (select-id i s.tasks r found) refl h)
]
