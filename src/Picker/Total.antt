-- ===== src/Picker/Total.antt =====
-- `_pick_next` never raises, and picks a candidate that is ahead of all.
use quikode.Prelude.{
  ◌≤◌, Bool, true, false, Option, none, some, List, [], ◌∷◌, ◌++◌, Text, elem, keep, map, length,
  sort, length-sort, all, ok, ◌≡◌, refl, arith, ◌⊎◌, inl, inr, Bool-cases, Option-cases, List-cases,
}
use quikode.Store.Rows.{TaskRow, Store, Action, return, ◌>>=◌}
use quikode.Store.Tasks.{select, get}
use quikode.Dag.Graph.{Node, get_node}
use quikode.Stacking.Walks.{parents_of}
use quikode.Merge.Nodes.{lookup_or_create_merge_node}
use quikode.Merge.Lookup.{lookup_or_create_merge_node-is_stable}
use quikode.Sched.Rank.{sort_ranked}
use quikode.Sched.Pick.{
  Candidate, can_start, unmet_of, is_taken, stacking_eligible, candidate_of, resume_signals,
  prefer_primary_candidates, score_of,
}
use quikode.Sched.Best.{StandsIn, is_ahead, preferred-first}
use quikode.Picker.Candidates.{
  Setup, view, if_ready, parent_branches, stacked_on, with_candidate, single_parent_candidate,
  merge_candidate, pending_merge_node_rows, resolve_multi_parent_merge_node, candidate_for_node,
  consider_node, consider_all, collect_candidates,
}
use quikode.Picker.Next.{
  is_merge_kind, or_row, unmet_with_branch, stamp_parents, apply_pick_side_effects, pick_next,
}
use quikode.Picker.Acyclic.{stamp-parents, clear-parents}

-- The action does not raise.
abbrev Returns : {A : Type 0} → Action A → Store → Type 0
Returns {A = A} action s = (a : A) × (s' : Store) × (action s ≡ (ok a, s'))

lookup-Returns :
    (hexdigest : Text → Text) (ids branches : List Text) (s : Store)
    → 1 ≤ length ids
    → Returns (lookup_or_create_merge_node hexdigest ids branches) s
lookup-Returns hexdigest [] branches s h = absurd (omega arith)
lookup-Returns hexdigest (p ∷ ids) branches s h =
    let (id, s', e, again, kept) =
      lookup_or_create_merge_node-is_stable hexdigest p ids (p ∷ ids) branches branches s
        (λ k. refl) in
    (id, s', e)

resolve-Returns :
    (e : Setup) (d : Text) (unmet : List Text) (s : Store)
    → Returns (resolve_multi_parent_merge_node e (d ∷ unmet)) s
unfolding resolve_multi_parent_merge_node get
resolve-Returns e d unmet s = elim (Option-cases (parent_branches s (sort (d ∷ unmet)))) [
  | inl absent ↦ (none, s, rw (absent, resolve_multi_parent_merge_node) refl)
  | inr (branches, found) ↦
      let (id, s', made) =
        lookup-Returns e.hexdigest (sort (d ∷ unmet)) branches s
          (omega (arith, length-sort (d ∷ unmet))) in
      (if_ready id (select id s'.tasks), s', rw (found, made, resolve_multi_parent_merge_node) refl)
]

Returns-bind :
    {A B : Type 0} (action : Action A) (rest : A → Action B) (s : Store)
    → Returns action s
    → ((a : A) (s' : Store) → Returns (rest a) s')
    → Returns (action >>= rest) s
Returns-bind action rest s (a, s', e) then_returns =
    let (b, s'', f) = then_returns a s' in (b, s'', rw e f)

candidate_for_node-Returns :
    (e : Setup) (nid : Text) (n : Node) (row : Option TaskRow) (unmet : List Text) (s : Store)
    → Returns (candidate_for_node e nid n row unmet) s
unfolding candidate_for_node
candidate_for_node-Returns e nid n row [] s =
    (some (candidate_of nid false [] row (resume_signals row (view e s))), s, refl)
candidate_for_node-Returns e nid n row (d ∷ []) s =
    elim (Bool-cases (stacking_eligible e.cfg e.dag (view e s) e.now n (d ∷ []))) [
      | inr refused ↦ (none, s, rw (refused, candidate_for_node) refl)
      | inl allowed ↦ (
        single_parent_candidate e nid d row (resume_signals row (view e s)) s,
        s,
        rw (allowed, candidate_for_node) refl,
      )
    ]
candidate_for_node-Returns e nid n row (d ∷ d' ∷ unmet) s =
    elim (Bool-cases (stacking_eligible e.cfg e.dag (view e s) e.now n (d ∷ d' ∷ unmet))) [
      | inr refused ↦ (none, s, rw (refused, candidate_for_node) refl)
      | inl allowed ↦
          let (parents, s', made) = resolve-Returns e d (d' ∷ unmet) s in
          (
            stacked_on nid row (resume_signals row (view e s)) parents,
            s',
            rw (allowed, made, candidate_for_node) refl,
          )
    ]

consider_node-Returns :
    (e : Setup) (completed : List Text) (taken : Text → Bool) (nid : Text) (s : Store)
    → Returns (consider_node e completed taken nid) s
unfolding consider_node
consider_node-Returns e completed taken nid s = elim (Bool-cases (taken nid)) [
  | inl busy ↦ (none, s, rw (busy, consider_node) refl)
  | inr free ↦ elim (Option-cases (get_node e.dag nid)) [
    | inl absent ↦ (none, s, rw (free, absent, consider_node) refl)
    | inr (n, found) ↦ elim (Bool-cases (can_start (select nid s.tasks))) [
      | inr running ↦ (none, s, rw (free, found, running, consider_node) refl)
      | inl fresh ↦
          let (c, s', made) =
            candidate_for_node-Returns e nid n (select nid s.tasks) (unmet_of e.dag completed n)
              s in
          (c, s', rw (free, found, fresh, consider_node) made)
    ]
  ]
]

consider_all-Returns :
    (e : Setup) (completed : List Text) (taken : Text → Bool) (ids : List Text) (s : Store)
    → Returns (consider_all e completed taken ids) s
unfolding consider_all
consider_all-Returns e completed taken [] s = ([], s, refl)
consider_all-Returns e completed taken (nid ∷ ids) s =
    Returns-bind (consider_node e completed taken nid)
      (λ c. consider_all e completed taken ids >>= λ rest. return (with_candidate c rest)) s
      (consider_node-Returns e completed taken nid s)
      (λ c s'.
        Returns-bind (consider_all e completed taken ids) (λ rest. return (with_candidate c rest))
          s' (consider_all-Returns e completed taken ids s')
          (λ rest s''. (with_candidate c rest, s'', refl)))

collect-Returns :
    (e : Setup) (scope in_flight : List Text) (s : Store)
    → Returns (collect_candidates e scope in_flight) s
unfolding collect_candidates
collect-Returns e scope in_flight s =
    Returns-bind
      (consider_all e (keep (λ i. elem i scope) (view e s).completed_ids)
        (is_taken (view e s) scope in_flight) (sort scope))
      (λ candidates.
        λ s'. (ok (candidates ++ map merge_candidate (pending_merge_node_rows s' in_flight)), s'))
      s
      (consider_all-Returns e (keep (λ i. elem i scope) (view e s).completed_ids)
        (is_taken (view e s) scope in_flight) (sort scope) s)
      (λ candidates s'.
        (candidates ++ map merge_candidate (pending_merge_node_rows s' in_flight), s', refl))

apply-Returns : (c : Candidate) (s : Store) → Returns (apply_pick_side_effects c) s
unfolding apply_pick_side_effects stamp_parents
apply-Returns c s = elim (Bool-cases c.is_stacked) [
  | inl stacked ↦ elim (List-cases (unmet_with_branch s (sort c.unmet))) [
    | inl bare ↦ (tt, s, rw (stacked, bare, apply_pick_side_effects, stamp_parents) refl)
    | inr (p, pairs, e) ↦
        let (s', stamped, same, listed) = stamp-parents c.task_id p pairs s in
        (tt, s', rw (stacked, e, apply_pick_side_effects) stamped)
  ]
  | inr fresh ↦
      let (s', cleared, same, left) =
        clear-parents c.task_id (is_merge_kind (or_row c.row (select c.task_id s.tasks)))
          (parents_of s c.task_id) s in
      (tt, s', rw (fresh, apply_pick_side_effects) cleared)
]

pick-empty :
    (e : Setup) (scope in_flight : List Text) (s s' : Store)
    → collect_candidates e scope in_flight s ≡ (ok [], s')
    → pick_next e scope in_flight s ≡ (ok none, s')
unfolding pick_next prefer_primary_candidates sort_ranked
pick-empty e scope in_flight s s' h = rw h refl

pick-best :
    (e : Setup) (scope in_flight : List Text) (s s' s'' : Store) (cs others : List Candidate)
    (best : Candidate)
    → collect_candidates e scope in_flight s ≡ (ok cs, s')
    → sort_ranked (score_of e.dag scope) (λ c. c.task_id) (prefer_primary_candidates cs)
      ≡ best ∷ others
    → apply_pick_side_effects best s' ≡ (ok tt, s'')
    → pick_next e scope in_flight s ≡ (ok (some best.task_id), s'')
unfolding pick_next
pick-best e scope in_flight s s' s'' cs others best h sorted applied = rw (h, sorted, applied) refl

-- On every store `_pick_next` returns. It collects candidates, which does not raise; without a
-- candidate it gives none, and otherwise it applies the side effects of a candidate that is ahead of
-- all, where one that is not stacked is ahead of a stacked one, then a higher score, and then a lower
-- id, and gives its id.
pub pick_next-is_ahead :
    (e : Setup) (scope in_flight : List Text) (s : Store)
    → (cs : List Candidate) × (s' : Store) × (collect_candidates e scope in_flight s ≡ (ok cs, s'))
      × (((cs ≡ []) × (pick_next e scope in_flight s ≡ (ok none, s')))
          ⊎ ((best : Candidate) × (s'' : Store) × StandsIn best cs
              × (all (is_ahead e.dag scope best) cs ≡ true)
              × (apply_pick_side_effects best s' ≡ (ok tt, s''))
              × (pick_next e scope in_flight s ≡ (ok (some best.task_id), s''))))
pick_next-is_ahead e scope in_flight s =
    let (cs, s', made) = collect-Returns e scope in_flight s in
    (
      cs,
      s',
      made,
      elim (List-cases cs) [
        | inl empty ↦ inl (empty, pick-empty e scope in_flight s s' (rw empty at made))
        | inr (c, rest, full) ↦
            let (best, others, sorted, there, ahead) = preferred-first e.dag scope c rest in
            let (done, s'', applied) = apply-Returns best s' in
            inr (
              best,
              s'',
              rw full there,
              rw full ahead,
              applied,
              pick-best e scope in_flight s s' s'' (c ∷ rest) others best (rw full at made) sorted
                  applied,
            )
      ],
    )
