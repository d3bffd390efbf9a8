-- ===== src/Merge/Settle.antt =====
-- `propagate_parent_merged` implements one update of the whole table: each row that has the parent
-- is rewritten by itself, and no other row changes.
use quikode.Prelude.{
  true, false, Option, some, List, [], ◌∷◌, Text, ◌==◌, ==_iff, ==_refl, elem, length, IsUnique,
  All, if◌then◌else◌, ok, ◌≡◌, refl, sym, ap, ◌∙◌, arith, inl, inr, Bool-cases, Option-cases,
}
use quikode.Fsm.Table.{
  State, Event, state_eq, pending, merge_node_ready, merge_node_retired, parent_advanced,
  all_parents_merged, listed_transition,
}
use quikode.Fsm.Rules.{transitions, enum, with_block, is_active, is_audit_stage, is_post_pr}
use quikode.Store.Rows.{TaskRow, Store, write_field, set_resume_from_existing_subtasks, Field}
use quikode.Store.Tasks.{select, update_rows, moved_row, apply_event, or_event, transition}
use quikode.Store.Lookup.{map_row, select-update_rows, select-transition, apply_event-moves}
use quikode.Merge.Parents.{
  has_parent, lists, merge_nodes_with_parent, index_of, pop, pruned_row, prune_row,
  prune_merge_node_parent,
}
use quikode.Merge.Pruned.{
  settled, after_parent_merged, pop-without_first, pruned_row-without_parent,
}
use quikode.Merge.Nodes.{
  settle_node, settle_all, propagate_parent_merged, retired_note, remaining_note, drop_result,
}
use quikode.Merge.Loop.{
  row_ids, IsStored, head-IsUnique, tail-IsUnique, rows-IsUnique, elem_rows, selected,
  after-IsStored,
}

ready-state : (t : State) → state_eq t merge_node_ready ≡ true → t ≡ merge_node_ready
unfolding state_eq
ready-state merge_node_ready h = refl
ready-state _ h = cc

-- The store after a statement that gives the row of `i` the form `r`.
abbrev HasRow : Text → TaskRow → Store → Store → Type 0
HasRow i r s s' = (j : Text) → select j s'.tasks ≡ (if i == j then some r else select j s.tasks)

-- The two events of a ready node.
leaves :
    (t : State)
    → t ≡ merge_node_ready
    → (transitions t parent_advanced ≡ some pending)
      × (transitions t all_parents_merged ≡ some merge_node_retired)
unfolding transitions with_block listed_transition is_active is_audit_stage is_post_pr state_eq
leaves t e = rw e (refl, refl)

prune-HasRow :
    (p : Text) (r : TaskRow) (ids : List Text) (s : Store)
    → select r.id s.tasks ≡ some r
    → r.parent_task_ids ≡ some ids
    → elem p ids ≡ true
    → (s' : Store) × (prune_merge_node_parent r.id p s ≡ (ok (pop (index_of p ids) ids), s'))
      × HasRow r.id (pruned_row p ids r) s s'
unfolding prune_merge_node_parent prune_row
prune-HasRow p r ids s found parents member = (
  record s { tasks = update_rows r.id (pruned_row p ids) s.tasks },
  rw (found, parents, member, prune_merge_node_parent, prune_row) refl,
  λ j. ground (
    arith,
    select-update_rows r.id j (pruned_row p ids) s.tasks (λ x. refl),
    found,
    ==_iff r.id j,
  ),
)

-- An accepted event gives the row its target and the given columns.
fire-HasRow :
    (i : Text) (e : Event) (u : State) (message : Option Text) (fields : List Field) (r : TaskRow)
    (s : Store)
    → select i s.tasks ≡ some r
    → transitions r.state e ≡ some u
    → (s' : Store) × (drop_result (apply_event i (enum e) message fields) s ≡ (ok tt, s'))
      × HasRow i (moved_row u fields r) s s'
fire-HasRow i e u message fields r s found m = (
  (transition i u (or_event message (enum e)) fields s).1,
  rw (apply_event-moves i e message fields s found m) refl,
  λ j. (select-transition i j u (or_event message (enum e)) fields s found).1,
)

-- A ready node is settled, any other is left.
settle-HasRow :
    (p : Text) (r : TaskRow) (left : List Text) (r' : TaskRow) (s : Store)
    → select r.id s.tasks ≡ some r'
    → r'.state ≡ r.state
    → (s' : Store) × (settle_node p r left s ≡ (ok tt, s'))
      × HasRow r.id (if state_eq r.state merge_node_ready then settled left r' else r') s s'
unfolding settle_node moved_row write_field
settle-HasRow p r [] r' s found same = elim (Bool-cases (state_eq r.state merge_node_ready)) [
  | inr other ↦ rw other (s, refl, λ j. ground (arith, found, ==_iff r.id j))
  | inl ready ↦ rw ready (
      fire-HasRow r.id all_parents_merged merge_node_retired (some (retired_note p)) [] r' s found
        (leaves r'.state (same ∙ ready-state r.state ready)).1)
]
settle-HasRow p r (q ∷ left) r' s found same =
    elim (Bool-cases (state_eq r.state merge_node_ready)) [
      | inr other ↦ rw other (s, refl, λ j. ground (arith, found, ==_iff r.id j))
      | inl ready ↦ rw ready (
          fire-HasRow r.id parent_advanced pending (some (remaining_note p (length (q ∷ left))))
            (set_resume_from_existing_subtasks 1 ∷ []) r' s found
            (leaves r'.state (same ∙ ready-state r.state ready)).0)
    ]

unchanged : (p : Text) (r : TaskRow) → has_parent p r ≡ false → after_parent_merged p r ≡ r
unfolding after_parent_merged
unchanged p r h = rw h refl

merged-form :
    (p : Text) (r : TaskRow) (ids : List Text)
    → r.parent_task_ids ≡ some ids
    → has_parent p r ≡ true
    → elem p ids ≡ true
    → after_parent_merged p r ≡ (
        if state_eq r.state merge_node_ready
        then settled (pop (index_of p ids) ids) (pruned_row p ids r)
        else pruned_row p ids r)
unfolding after_parent_merged
merged-form p r ids parents h member =
    rw (h, parents)
      (ground (arith, pop-without_first p ids member, pruned_row-without_parent p ids r member))

parent-listed :
    (p : Text) (r : TaskRow)
    → has_parent p r ≡ true
    → (ids : List Text) × (r.parent_task_ids ≡ some ids) × (elem p ids ≡ true)
unfolding has_parent
parent-listed p r h = elim (Option-cases r.parent_task_ids) [
  | inl e ↦ absurd (ground (arith, h, ap (lists p) e))
  | inr (ids, e) ↦ (ids, e, ground (arith, h, ap (lists p) e))
]

-- What one row's two statements do together.
abbrev Visited : Text → TaskRow → Store → Type 0
Visited p r s =
    (ids : List Text) × (s' : Store) × (s'' : Store) × (prune_merge_node_parent r.id p s
      ≡ (ok (pop (index_of p ids) ids), s'))
    × (settle_node p r (pop (index_of p ids) ids) s' ≡ (ok tt, s''))
    × HasRow r.id (after_parent_merged p r) s s''

visit-row :
    (p : Text) (r : TaskRow) (s : Store)
    → select r.id s.tasks ≡ some r
    → has_parent p r ≡ true
    → Visited p r s
visit-row p r s found h =
    let (ids, parents, member) = parent-listed p r h in
    let (s', e, pruned) = prune-HasRow p r ids s found parents member in
    let (s'', f, done) =
      settle-HasRow p r (pop (index_of p ids) ids) (pruned_row p ids r) s'
        (ground (arith, pruned r.id, ==_refl r.id)) refl in
    (
      ids,
      s',
      s'',
      e,
      f,
      λ j. ground (arith, pruned j, done j, merged-form p r ids parents h member),
    )

settle_all-rows :
    (p : Text) (rows : List TaskRow) (s : Store)
    → IsUnique (row_ids rows)
    → All (λ r. IsStored s r × (has_parent p r ≡ true)) rows
    → (s' : Store) × (settle_all p rows s ≡ (ok (row_ids rows), s'))
      × ((j : Text)
          → select j s'.tasks ≡ (
              if elem j (row_ids rows)
              then map_row (after_parent_merged p) (select j s.tasks)
              else select j s.tasks))
unfolding settle_all
settle_all-rows p [] s unique h = (s, refl, λ j. refl)
settle_all-rows p (r ∷ rows) s unique ((found, parent), h) =
    let (ids, s', s'', e, f, visited) = visit-row p r s found parent in
    let alone = head-IsUnique r.id (row_ids rows) unique in
    let (last, g, later) = settle_all-rows p rows s'' (tail-IsUnique r.id (row_ids rows) unique) (
      after-IsStored (has_parent p) r.id s s'' rows alone
        (λ j. ground (arith, visited j, ==_iff r.id j)) h) in
    (
      last,
      rw (e, f, g) refl,
      λ j. elim (Bool-cases (r.id == j)) [
        | inl same ↦
            rw (sym ((==_iff r.id j).0 same))
              (ground (arith, later r.id, visited r.id, alone, found, ==_refl r.id))
        | inr other ↦ ground (arith, later j, visited j, other)
      ],
    )

-- In a store with one row for each id, `propagate_parent_merged` returns, with the ids of the merge
-- nodes that list the parent, RETIRED, BLOCKED, FAILED and ABORTED ones left out, sorted. Each of
-- those rows loses the first occurrence of the parent and the branches in its place; if it is in
-- MERGE_NODE_READY it is moved to MERGE_NODE_RETIRED when no parent is left, and otherwise to
-- PENDING with the marker that keeps its subtasks. Every other row is as before.
pub propagate_parent_merged-settles :
    (p : Text) (s : Store)
    → IsUnique (row_ids s.tasks)
    → (s' : Store) × (propagate_parent_merged p s
        ≡ (ok (row_ids (merge_nodes_with_parent s p)), s'))
      × ((j : Text) → select j s'.tasks ≡ map_row (after_parent_merged p) (select j s.tasks))
unfolding propagate_parent_merged merge_nodes_with_parent
propagate_parent_merged-settles p s unique =
    let (s', e, rows) =
      settle_all-rows p (merge_nodes_with_parent s p) s
        (rows-IsUnique (has_parent p) s.tasks unique) (selected (has_parent p) s.tasks unique) in
    (
      s',
      e,
      λ j. elim (Option-cases (select j s.tasks)) [
        | inl none_there ↦ ground (arith, rows j, none_there)
        | inr (r, found) ↦
            ground (arith, rows j, found, elem_rows (has_parent p) j s.tasks unique, unchanged p r)
      ],
    )
