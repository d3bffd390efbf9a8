-- ===== src/Picker/Acyclic.antt =====
-- Stacking a task that passed the limits never closes a cycle of parents.
use quikode.Prelude.{
  Bool, true, false, Option, none, some, List, [], ◌∷◌, Text, ==_iff, ==_refl, elem, length, ◌≤◌,
  map, sort, ok, ◌≡◌, refl, sym, subst, arith, ◌⊎◌, inl, inr, Bool-cases, Option-cases, List-cases,
}
use quikode.Store.Rows.{TaskRow, Store}
use quikode.Store.Tasks.{select, update_rows}
use quikode.Store.Lookup.{select-update_rows}
use quikode.Dag.Graph.{Node}
use quikode.Walk.Closure.{Reach}
use quikode.Stacking.Walks.{parents_of, is_nonempty}
use quikode.Stacking.Climb.{elem-keep}
use quikode.Merge.Parents.{set_parent_chain, clear_parent_branch, set_parent_merge_base}
use quikode.Sched.Pick.{Candidate, stacking_eligible, within_limits}
use quikode.Sched.View.{stack_fns}
use quikode.Sched.Eligible.{elem_of_sort, within}
use quikode.Picker.Ways.{IsAcyclic, step-IsAcyclic, Reach-mono}
use quikode.Picker.Candidates.{Setup, view, branch_of, candidate_for_node, single_parent_candidate}
use quikode.Picker.Next.{
  is_merge_kind, or_row, unmet_with_branch, stamp_parents, clear_stale, apply_pick_side_effects,
}

-- The parents of a task after an UPDATE of one row.
abbrev SameBut : Text → Store → Store → Type 0
SameBut i s s' = (n : Text) → (i ≡ n) ⊎ (parents_of s' n ≡ parents_of s n)

pub stamp-parents :
    (i : Text) (p : Text × Text) (pairs : List (Text × Text)) (s : Store)
    → (s' : Store) × (stamp_parents i (p ∷ pairs) s ≡ (ok tt, s'))
      × SameBut i s s'
      × ((u : Text) → elem u (parents_of s' i) ≡ true → elem u (map (λ x. x.0) (p ∷ pairs)) ≡ true)
unfolding stamp_parents set_parent_chain set_parent_merge_base parents_of
stamp-parents i p pairs s =
    let chain : TaskRow → TaskRow = λ r. record r {
      parent_task_ids = some (map (λ x. x.0) (p ∷ pairs));
      parent_branches = some (map (λ x. x.1) (p ∷ pairs));
      parent_pr_branches = some (map (λ x. x.1) (p ∷ pairs));
    } in
    let base : TaskRow → TaskRow =
      λ r. record r { parent_merge_base_branch = none; parent_merge_base_sha = none } in
    let first = λ (j : Text). select-update_rows i j chain s.tasks (λ r. refl) in
    let second =
      λ (j : Text). select-update_rows i j base (update_rows i chain s.tasks) (λ r. refl) in
    (
      record s { tasks = update_rows i base (update_rows i chain s.tasks) },
      refl,
      λ n. ground (arith, first n, second n, ==_iff i n),
      λ u h. elim (Option-cases (select i s.tasks)) [
        | inl absent ↦ ground (arith, h, first i, second i, ==_refl i, absent)
        | inr (r, found) ↦ ground (
          arith,
          h,
          first i,
          second i,
          ==_refl i,
          found,
          elem-keep is_nonempty u (map (λ (x : Text × Text). x.0) (p ∷ pairs)),
        )
      ],
    )

pub clear-parents :
    (i : Text) (is_merge_node : Bool) (ids : List Text) (s : Store)
    → (s' : Store) × (clear_stale i is_merge_node ids s ≡ (ok tt, s'))
      × SameBut i s s'
      × ((parents_of s' i ≡ parents_of s i) ⊎ (parents_of s' i ≡ []))
unfolding clear_stale clear_parent_branch set_parent_merge_base parents_of
clear-parents i is_merge_node [] s = (s, refl, λ n. inr refl, inl refl)
clear-parents i true (p ∷ ids) s = (s, refl, λ n. inr refl, inl refl)
clear-parents i false (p ∷ ids) s =
    let clear : TaskRow → TaskRow = λ r. record r {
      parent_task_ids = none;
      parent_branches = none;
      parent_pr_branches = none;
      parent_merge_base_sha = none;
      parent_merge_base_branch = none;
      needs_parent_rebase = 0;
    } in
    let base : TaskRow → TaskRow =
      λ r. record r { parent_merge_base_branch = none; parent_merge_base_sha = none } in
    let first = λ (j : Text). select-update_rows i j clear s.tasks (λ r. refl) in
    let second =
      λ (j : Text). select-update_rows i j base (update_rows i clear s.tasks) (λ r. refl) in
    (
      record s { tasks = update_rows i base (update_rows i clear s.tasks) },
      refl,
      λ n. ground (arith, first n, second n, ==_iff i n),
      inr (ground (arith, first i, second i, ==_refl i)),
    )

with_branch-elem :
    (s : Store) (u : Text) (ids : List Text)
    → elem u (map (λ x. x.0) (unmet_with_branch s ids)) ≡ true
    → elem u ids ≡ true
with_branch-elem s u [] h = cc
with_branch-elem s u (d ∷ ids) h = elim (Option-cases (branch_of (select d s.tasks))) [
  | inl e ↦ ground (arith, with_branch-elem s u ids, rw e at h)
  | inr (b, e) ↦ ground (arith, with_branch-elem s u ids, rw e at h)
]

-- A candidate that is not above any of its unmet parents can be stacked on them.
stacked-IsAcyclic :
    (c : Candidate) (s : Store)
    → IsAcyclic (parents_of s)
    → ((u : Text) → elem u c.unmet ≡ true → ¬ (Reach (parents_of s) (u ∷ []) c.task_id))
    → (s' : Store) × (stamp_parents c.task_id (unmet_with_branch s (sort c.unmet)) s ≡ (ok tt, s'))
      × IsAcyclic (parents_of s')
unfolding stamp_parents
stacked-IsAcyclic c s acyclic fresh = elim (List-cases (unmet_with_branch s (sort c.unmet))) [
  | inl e ↦ (s, rw (e, stamp_parents) refl, acyclic)
  | inr (p, pairs, e) ↦
      let (s', stamped, same, listed) = stamp-parents c.task_id p pairs s in
      (
        s',
        rw e stamped,
        step-IsAcyclic (parents_of s) (parents_of s') c.task_id acyclic same (λ u h. fresh u (
            elem_of_sort u c.unmet (
              with_branch-elem s u (sort c.unmet)
                (subst (λ l. elem u (map (λ x. x.0) l) ≡ true) (sym e) (listed u h))))),
      )
]

primary-IsAcyclic :
    (i : Text) (is_merge_node : Bool) (ids : List Text) (s : Store)
    → IsAcyclic (parents_of s)
    → (s' : Store) × (clear_stale i is_merge_node ids s ≡ (ok tt, s')) × IsAcyclic (parents_of s')
primary-IsAcyclic i is_merge_node ids s acyclic =
    let (s', cleared, same, left) = clear-parents i is_merge_node ids s in
    (
      s',
      cleared,
      step-IsAcyclic (parents_of s) (parents_of s') i acyclic same (λ u h up. elim left [
        | inl e ↦ acyclic i (Reach-mono (parents_of s) u (parents_of s i) i (rw e at h) up)
        | inr e ↦ cc (rw e at h)
      ]),
    )

-- Let the store have no cycle of parents, and let a node with at most one unmet dependency give a
-- candidate. Then picking the candidate returns, and the store has no cycle of parents after the
-- stamping or clearing of its parent columns.
pub candidate_for_node-IsAcyclic :
    (e : Setup) (nid : Text) (n : Node) (row : Option TaskRow) (unmet : List Text) (c : Candidate)
    (s after : Store)
    → length unmet ≤ 1
    → IsAcyclic (parents_of s)
    → candidate_for_node e nid n row unmet s ≡ (ok (some c), after)
    → (s' : Store) × (apply_pick_side_effects c after ≡ (ok tt, s')) × IsAcyclic (parents_of s')
unfolding candidate_for_node single_parent_candidate apply_pick_side_effects
candidate_for_node-IsAcyclic e nid n row [] c s after short acyclic h =
    let primary : c.is_stacked ≡ false = cc h in
    let same : s ≡ after = cc h in
    rw primary (
      primary-IsAcyclic c.task_id (is_merge_kind (or_row c.row (select c.task_id after.tasks)))
        (parents_of after c.task_id) after (rw same at acyclic))
candidate_for_node-IsAcyclic e nid n row (d ∷ []) c s after short acyclic h =
    elim (Bool-cases (stacking_eligible e.cfg e.dag (view e s) e.now n (d ∷ []))) [
      | inr no_base ↦ cc (rw no_base at h)
      | inl base ↦ elim (Bool-cases (within_limits e.cfg (stack_fns e.cfg s) nid d)) [
        | inr refused ↦ cc (rw (base, refused) at h)
        | inl allowed ↦
            let made = rw (base, allowed) at h in
            let stacked : c.is_stacked ≡ true = cc made in
            let same : s ≡ after = cc made in
            let task : c.task_id ≡ nid = cc made in
            let parents : c.unmet ≡ d ∷ [] = cc made in
            rw stacked (
              stacked-IsAcyclic c after (rw same at acyclic) (λ u member up.
                let only : u ≡ d = ground (arith, rw parents at member, ==_iff d u) in
                (within e.cfg e.dag s e.now e.entered e.progress nid d allowed).0
                  (rw (sym same, task, only) at up)))
      ]
    ]
candidate_for_node-IsAcyclic e nid n row (d ∷ d' ∷ unmet) c s after short acyclic h =
    absurd (omega arith)
