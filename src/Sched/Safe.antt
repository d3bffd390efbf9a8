-- ===== src/Sched/Safe.antt =====
-- `collect_pick_candidates` over the store and its walks lists only tasks that can safely start.
use quikode.Prelude.{
  ℕ, true, false, not, ◌&&◌, Option, some, List, [], ◌∷◌, Text, elem, keep, All, sort, ◌≡◌, refl,
  subst, arith, ◌⊎◌, inl, inr, Bool-cases, Option-cases,
}
use quikode.Store.Rows.{Store}
use quikode.Store.Tasks.{select, completed_ids}
use quikode.Dag.Graph.{Node, Dag, node_ids, get_node}
use quikode.Stacking.Climb.{elem-keep}
use quikode.Sched.Settings.{Config}
use quikode.Sched.Pick.{
  Candidate, can_start, unmet_of, is_taken, stacking_eligible, within_limits, candidate_for,
  consider, collect_pick_candidates,
}
use quikode.Sched.View.{store_view, stack_fns}
use quikode.Sched.Eligible.{
  IsMerged, IsStackBase, SafeStart, completed_ids-IsMerged, elem-All, elem_of_sort, collect-All,
  stack_base, within,
}

module _ (cfg : Config) (dag : Dag) (s : Store) (now : ℕ) (entered : Text → Option ℕ)
    (progress : Text → ℕ × ℕ) (scope in_flight : List Text) where
  abbrev merged : List Text
  merged = keep (λ i. elem i scope) (completed_ids s)

  -- A dependency inside the graph is merged, or it is unmet and has what the unmet ones have.
  deps-All :
      (n : Node) (unmet : List Text)
      → unmet_of dag merged n ≡ unmet
      → ((d : Text) → elem d unmet ≡ true → IsStackBase cfg s d)
      → All
          (λ d. IsMerged s d ⊎ ((elem d unmet ≡ true) × IsStackBase cfg s d))
          (keep (λ d. elem d (node_ids dag)) n.depends_on)
  deps-All n unmet e base =
      elem-All (λ d. IsMerged s d ⊎ ((elem d unmet ≡ true) × IsStackBase cfg s d))
        (keep (λ d. elem d (node_ids dag)) n.depends_on)
        (λ d h. elim (Bool-cases (elem d merged)) [
          | inl done ↦ inl (completed_ids-IsMerged s scope d done)
          | inr waits ↦
              let left : elem d unmet ≡ true =
                subst (λ l. elem d l ≡ true) e
                  (ground (
                    arith,
                    h,
                    waits,
                    elem-keep (λ d. not (elem d merged)) d
                        (keep (λ d. elem d (node_ids dag)) n.depends_on),
                  )) in
              inr (left, base d left)
        ])

  candidate-safe :
      (n : Node) (nid : Text) (unmet : List Text) (c : Candidate)
      → get_node dag nid ≡ some n
      → elem nid scope ≡ true
      → elem nid in_flight ≡ false
      → can_start (select nid s.tasks) ≡ true
      → unmet_of dag merged n ≡ unmet
      → candidate_for cfg dag
          (store_view s entered progress)
          (stack_fns cfg s)
          now
          n
          nid
          (select nid s.tasks)
          unmet
        ≡ some c
      → SafeStart cfg dag s scope in_flight c
  unfolding candidate_for
  candidate-safe n nid [] c found inside idle fresh e h =
      let task : c.task_id ≡ nid = cc h in
      let primary : c.unmet ≡ [] = cc h in
      record {
        node = n;
        found = cc (task, found);
        in_scope = cc (task, inside);
        idle = cc (task, idle);
        pending = cc (task, fresh);
        deps = rw primary (deps-All n [] e (λ d k. cc));
        base = inl (cc h, primary);
      }
  candidate-safe n nid (p ∷ unmet) c found inside idle fresh e h =
      elim (Bool-cases (
        stacking_eligible cfg dag (store_view s entered progress) now n (p ∷ unmet)
        && within_limits cfg (stack_fns cfg s) nid p)) [
          | inr refused ↦ cc (rw refused at h)
          | inl allowed ↦
              let made = rw allowed at h in
              let task : c.task_id ≡ nid = cc made in
              let listed : c.unmet ≡ p ∷ unmet = cc made in
              record {
                node = n;
                found = cc (task, found);
                in_scope = cc (task, inside);
                idle = cc (task, idle);
                pending = cc (task, fresh);
                deps = rw listed (
                    deps-All n (p ∷ unmet) e (λ d k.
                      stack_base cfg dag s now entered progress n (p ∷ unmet) d
                        (ground (arith, allowed)) k));
                base = inr (
                  p,
                  unmet,
                  listed,
                  rw task (within cfg dag s now entered progress nid p (ground (arith, allowed))),
                );
              }
        ]

  consider-safe :
      (nid : Text) (c : Candidate)
      → elem nid scope ≡ true
      → consider dag
          (store_view s entered progress)
          scope
          in_flight
          (candidate_for cfg dag (store_view s entered progress) (stack_fns cfg s) now)
          nid
        ≡ some c
      → SafeStart cfg dag s scope in_flight c
  unfolding consider store_view
  consider-safe nid c inside h =
      elim (Bool-cases (is_taken (store_view s entered progress) scope in_flight nid)) [
        | inl taken ↦ cc (rw taken at h)
        | inr free ↦ elim (Option-cases (get_node dag nid)) [
          | inl absent ↦ cc (rw (free, absent) at h)
          | inr (n, found) ↦ elim (Bool-cases (can_start (select nid s.tasks))) [
            | inr busy ↦ cc (rw (free, found, busy) at h)
            | inl fresh ↦
                candidate-safe n nid (unmet_of dag merged n) c found inside (ground (arith, free))
                  fresh refl (rw (free, found, fresh) at h)
          ]
        ]
      ]

  -- Over the store and its walks, each listed candidate is a node of the graph in scope, not in
  -- flight, without a row or with one in PENDING. Each of its dependencies inside the graph is
  -- MERGED, or it is listed as unmet, stacking is on, and its row is in a state to stack on. A
  -- candidate that is stacked is not above its first unmet dependency, and every chain of tasks from
  -- that dependency up to its parents is shorter than stacking_max_depth.
  pub collect_pick_candidates-is_safe : All (SafeStart cfg dag s scope in_flight) (
      collect_pick_candidates cfg dag
        (store_view s entered progress)
        scope
        in_flight
        (stack_fns cfg s)
        now)
  unfolding collect_pick_candidates
  collect_pick_candidates-is_safe =
      collect-All (SafeStart cfg dag s scope in_flight)
        (consider dag (store_view s entered progress) scope in_flight
          (candidate_for cfg dag (store_view s entered progress) (stack_fns cfg s) now))
        (sort scope) (λ i c h e. consider-safe i c (elem_of_sort i scope h) e)
