-- ===== src/Store/History.antt =====
-- Sequences of the store's operations: the log agrees with the table after each of them.
use quikode.Prelude.{
  ℕ, Option, List, [], ◌∷◌, Text, foldl, refl, arith, Bool-cases, Result-cases, inl, inr, none,
  some, ◌≡◌, elem, Option-cases,
}
use quikode.Fsm.Table.{State, Event}
use quikode.Fsm.Rules.{OrText, is_active, recover_after_crash, enum}
use quikode.Store.Rows.{TaskRow, Field, Store, Phase, PrReviewTrigger, new_row}
use quikode.Store.Tasks.{
  select, update_rows, upsert_pending, transition, apply_event, seed_merged_node, enter_phase,
  increment_cycle_in_phase, has_pr_number, recovery_note, recovery_fields, recover_row,
  recover_rows, recover_orphan_tasks,
}
use quikode.Store.Lookup.{select-update_rows}
use quikode.Merge.Parents.{
  set_parent_chain, clear_parent_branch, set_parent_merge_base, create_merge_node, merge_row,
  pruned_row, prune_row, prune_merge_node_parent,
}
use quikode.Store.Log.{
  IsLogged, insert-IsLogged, upsert_pending-IsLogged, transition-IsLogged, apply_event-IsLogged,
  seed_merged_node-IsLogged, enter_phase-IsLogged, increment_cycle_in_phase-IsLogged,
}

-- A call of one of the modelled operations that write the tasks table: those of a task's state, and
-- those of its parents.
pub data Call : Type 0 where
  create : Text → Call
  move : Text → State → Option Text → List Field → Call
  event : Text → OrText Event → Option Text → List Field → Call
  seed : Text → Text → Text → Call
  phase : Text → Phase → ℕ → PrReviewTrigger → Option Text → Call
  cycle_in_phase : Text → Option PrReviewTrigger → Option Text → Call
  recover : Call
  add_merge_node : Text → List Text → List Text → Text → Call
  set_chain : Text → List Text → List Text → List Text → Call
  clear_branch : Text → Call
  set_merge_base : Text → Option Text → Option Text → Call
  prune_parent : Text → Text → Call

-- The store after a call, whether it returned or raised.
unfoldable pub after : Store → Call → Store
after s (create i) = (upsert_pending i s).1
after s (move i t message fields) = (transition i t message fields s).1
after s (event i e message fields) = (apply_event i e message fields s).1
after s (seed i source evidence) = (seed_merged_node i source evidence s).1
after s (phase i p cycle cause message) = (enter_phase i p cycle cause message s).1
after s (cycle_in_phase i cause message) = (increment_cycle_in_phase i cause message s).1
after s recover = (recover_orphan_tasks s).1
after s (add_merge_node i ids branches branch) = (create_merge_node i ids branches branch s).1
after s (set_chain i ids branches pr_branches) = (set_parent_chain i ids branches pr_branches s).1
after s (clear_branch i) = (clear_parent_branch i s).1
after s (set_merge_base i branch sha) = (set_parent_merge_base i branch sha s).1
after s (prune_parent i p) = (prune_merge_node_parent i p s).1

unfoldable pub run_calls : List Call → Store
run_calls calls = foldl after (record { tasks = []; log = []; captures = [] }) calls

recover_row-IsLogged : (row : TaskRow) (s : Store) → IsLogged s → IsLogged (recover_row row s).1
unfolding recover_row
recover_row-IsLogged row s h =
    let found = recover_after_crash (enum row.state) (has_pr_number row.pr_number) in
    elim (Result-cases found) [
      | inr (e, runs) ↦ rw (runs, recover_row) h
      | inl ((t, updates), runs) ↦
          let moved =
            transition-IsLogged row.id t (recovery_note row) (recovery_fields updates) s h in
          elim (Result-cases
            (transition row.id t (recovery_note row) (recovery_fields updates) s).0) [
              | inl (_, e) ↦ rw (runs, recover_row) (ground (arith, moved, e))
              | inr (_, e) ↦ rw (runs, recover_row) (ground (arith, moved, e))
            ]
    ]

recover_rows-IsLogged :
    (rows : List TaskRow) (s : Store) → IsLogged s → IsLogged (recover_rows rows s).1
unfolding recover_rows
recover_rows-IsLogged [] s h = h
recover_rows-IsLogged (row ∷ rows) s h = elim (Bool-cases (is_active row.state)) [
  | inr idle ↦ rw (idle, recover_rows) (recover_rows-IsLogged rows s h)
  | inl active ↦
      let one = recover_row row s in
      let later = recover_rows-IsLogged rows one.1 (recover_row-IsLogged row s h) in
      elim (Result-cases one.0) [
        | inr (_, e) ↦ rw (active, e, recover_rows) (recover_row-IsLogged row s h)
        | inl (_, e) ↦ elim (Result-cases (recover_rows rows one.1).0) [
          | inr (_, k) ↦ rw (active, e, k, recover_rows) later
          | inl (_, k) ↦ rw (active, e, k, recover_rows) later
        ]
      ]
]

-- An update that keeps the id and the state of the rows writes no log entry.
update_rows-IsLogged :
    (i : Text) (f : TaskRow → TaskRow) (s : Store)
    → ((r : TaskRow) → ((f r).id ≡ r.id) × ((f r).state ≡ r.state))
    → IsLogged s
    → IsLogged (record s { tasks = update_rows i f s.tasks })
update_rows-IsLogged i f s keeps h j = elim (Option-cases (select j s.tasks)) [
  | inl absent ↦ ground (arith, h j, select-update_rows i j f s.tasks (λ r. (keeps r).0), absent)
  | inr (r, found) ↦
      ground (arith, h j, select-update_rows i j f s.tasks (λ r. (keeps r).0), found, (keeps r).1)
]

create_merge_node-IsLogged :
    (i : Text) (ids branches : List Text) (branch : Text) (s : Store)
    → IsLogged s
    → IsLogged (create_merge_node i ids branches branch s).1
unfolding create_merge_node merge_row new_row
create_merge_node-IsLogged i ids branches branch s h = elim (Option-cases (select i s.tasks)) [
  | inl absent ↦
      rw (absent, create_merge_node) (insert-IsLogged _ _ s.captures s absent refl refl h)
  | inr (r, found) ↦ rw (found, create_merge_node) h
]

prune_row-IsLogged :
    (i p : Text) (r : TaskRow) (ids : Option (List Text)) (s : Store)
    → IsLogged s
    → IsLogged (prune_row i p r ids s).1
unfolding prune_row
prune_row-IsLogged i p r none s h = h
prune_row-IsLogged i p r (some ids) s h = elim (Bool-cases (elem p ids)) [
  | inl e ↦ rw (e, prune_row) (update_rows-IsLogged i (pruned_row p ids) s (λ x. (refl, refl)) h)
  | inr e ↦ rw (e, prune_row) h
]

prune_merge_node_parent-IsLogged :
    (i p : Text) (s : Store) → IsLogged s → IsLogged (prune_merge_node_parent i p s).1
unfolding prune_merge_node_parent
prune_merge_node_parent-IsLogged i p s h = elim (Option-cases (select i s.tasks)) [
  | inl absent ↦ rw (absent, prune_merge_node_parent) h
  | inr (r, found) ↦
      rw (found, prune_merge_node_parent) (prune_row-IsLogged i p r r.parent_task_ids s h)
]

after-IsLogged : (s : Store) (c : Call) → IsLogged s → IsLogged (after s c)
unfolding after recover_orphan_tasks set_parent_chain clear_parent_branch set_parent_merge_base
after-IsLogged s (create i) h = upsert_pending-IsLogged i s h
after-IsLogged s (move i t message fields) h = transition-IsLogged i t message fields s h
after-IsLogged s (event i e message fields) h = apply_event-IsLogged i e message fields s h
after-IsLogged s (seed i source evidence) h = seed_merged_node-IsLogged i source evidence s h
after-IsLogged s (phase i p cycle cause message) h =
    enter_phase-IsLogged i p cycle cause message s h
after-IsLogged s (cycle_in_phase i cause message) h =
    increment_cycle_in_phase-IsLogged i cause message s h
after-IsLogged s recover h = recover_rows-IsLogged s.tasks s h
after-IsLogged s (add_merge_node i ids branches branch) h =
    create_merge_node-IsLogged i ids branches branch s h
after-IsLogged s (set_chain i ids branches pr_branches) h =
    update_rows-IsLogged i _ s (λ r. (refl, refl)) h
after-IsLogged s (clear_branch i) h = update_rows-IsLogged i _ s (λ r. (refl, refl)) h
after-IsLogged s (set_merge_base i branch sha) h = update_rows-IsLogged i _ s (λ r. (refl, refl)) h
after-IsLogged s (prune_parent i p) h = prune_merge_node_parent-IsLogged i p s h

run_from-IsLogged : (calls : List Call) (s : Store) → IsLogged s → IsLogged (foldl after s calls)
run_from-IsLogged [] s h = h
run_from-IsLogged (c ∷ calls) s h = run_from-IsLogged calls (after s c) (after-IsLogged s c h)

-- After any sequence of these calls on an empty store, calls that raise included, the latest log entry
-- of each task gives the state of its row, and a task without a row has no entry.
pub run_calls-IsLogged : (calls : List Call) → IsLogged (run_calls calls)
unfolding run_calls select
run_calls-IsLogged calls = run_from-IsLogged calls _ (λ j. refl)
