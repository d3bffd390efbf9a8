-- ===== src/Sched/Eligible.antt =====
-- What the scheduler lets start over the store: no dependency is left out of account, and a stacked
-- task has a base to stand on.
use quikode.Prelude.{
  ℕ, ◌≤◌, ◌<◌, Bool, true, false, ◌&&◌, Option, some, List, [], ◌∷◌, Text, ◌==◌, ==_iff, ==_refl,
  elem, keep, all, any, All, map, sort, count-sort, elem_iff_count, ◌≡◌, refl, arith, ◌≢◌, ◌↔◌, ◌⊎◌,
  inl, inr, Option-cases,
}
use quikode.Fsm.Table.{State, state_eq, awaiting_review}
use quikode.Store.Rows.{TaskRow, Store}
use quikode.Store.Tasks.{select, completed_ids}
use quikode.Dag.Graph.{Node, Dag, node_ids, get_node}
use quikode.Walk.Closure.{Reach}
use quikode.Stacking.Walks.{parents_of}
use quikode.Stacking.Cycle.{would_form_cycle_iff_above}
use quikode.Stacking.Depth.{Chain, stack_depth-is_longest}
use quikode.Sched.Settings.{
  Config, SchedulerStore, off, in_stack_ready_states, is_parent_stack_ready,
}
use quikode.Stacking.Climb.{elem-keep}
use quikode.Sched.Pick.{
  Candidate, can_start, parent_ready, stacking_eligible, within_limits, collect,
}
use quikode.Sched.View.{store_view, stack_fns}

-- A row of the task is in MERGED.
abbrev pub IsMerged : Store → Text → Type 0
IsMerged s d = any (λ r. r.id == d && state_eq r.state State.merged) s.tasks ≡ true

-- The task's row is in one of the states that children may stack on, and stacking is on.
abbrev pub IsStackBase : Config → Store → Text → Type 0
IsStackBase cfg s d =
    (r : TaskRow) × (select d s.tasks ≡ some r)
    × (in_stack_ready_states r.state ≡ true)
    × (cfg.stacking_strategy ≢ off)

-- The child is not above the parent, and every chain of tasks from the parent up is shorter than the
-- limit.
abbrev pub IsWithinLimits : Config → Store → Text → Text → Type 0
IsWithinLimits cfg s child parent =
    ¬ (Reach (parents_of s) (parent ∷ []) child)
    × ((d : ℕ) × (d < cfg.stacking_max_depth)
        × ((k : ℕ) → Chain (parents_of s) k parent ↔ ((0 < k) × (k ≤ d))))

pub record SafeStart (cfg : Config) (dag : Dag) (s : Store) (scope in_flight : List Text)
    (c : Candidate) : Type 0 where
  pub node : Node
  pub found : get_node dag c.task_id ≡ some node
  pub in_scope : elem c.task_id scope ≡ true
  pub idle : elem c.task_id in_flight ≡ false
  pub pending : can_start (select c.task_id s.tasks) ≡ true
  pub deps :
      All
        (λ d. IsMerged s d ⊎ ((elem d c.unmet ≡ true) × IsStackBase cfg s d))
        (keep (λ d. elem d (node_ids dag)) node.depends_on)
  pub base :
      ((c.is_stacked ≡ false) × (c.unmet ≡ []))
      ⊎ ((parent : Text) × (others : List Text) × (c.unmet ≡ parent ∷ others)
          × IsWithinLimits cfg s c.task_id parent)

completed-IsMerged :
    (d : Text) (rows : List TaskRow)
    → elem d (map (λ r. r.id) (keep (λ r. state_eq r.state State.merged) rows)) ≡ true
    → any (λ r. r.id == d && state_eq r.state State.merged) rows ≡ true
completed-IsMerged d [] h = cc
completed-IsMerged d (r ∷ rows) h = ground (arith, completed-IsMerged d rows)

pub completed_ids-IsMerged :
    (s : Store) (scope : List Text) (d : Text)
    → elem d (keep (λ i. elem i scope) (completed_ids s)) ≡ true
    → IsMerged s d
unfolding completed_ids
completed_ids-IsMerged s scope d h = completed-IsMerged d s.tasks (
    ground (
      arith,
      h,
      elem-keep (λ i. elem i scope) d
          (map (λ r. r.id) (keep (λ r. state_eq r.state State.merged) s.tasks)),
    ))

-- An awaited review is ready in both modes.
awaiting-ready : (t : State) → state_eq t awaiting_review ≡ true → in_stack_ready_states t ≡ true
unfolding in_stack_ready_states state_eq
awaiting-ready awaiting_review h = refl
awaiting-ready _ h = cc

ready_state :
    (cfg : Config) (store : SchedulerStore) (now : ℕ) (d : Text) (t : State)
    → is_parent_stack_ready cfg store now d (some t) ≡ true
    → in_stack_ready_states t ≡ true
unfolding is_parent_stack_ready
ready_state cfg store now d t h = ground (arith, h, awaiting-ready t)

all-elem :
    (p : Text → Bool) (d : Text) (xs : List Text) → all p xs ≡ true → elem d xs ≡ true → p d ≡ true
all-elem p d [] h e = cc
all-elem p d (x ∷ xs) h e = ground (arith, ==_iff x d, all-elem p d xs)

pub elem-All :
    (P : Text → Type 0) (xs : List Text) → ((d : Text) → elem d xs ≡ true → P d) → All P xs
elem-All P [] each = tt
elem-All P (x ∷ xs) each =
    (each x (ground (arith, ==_refl x)), elem-All P xs (λ d h. each d (ground (arith, h))))

pub elem_of_sort : (n : Text) (xs : List Text) → elem n (sort xs) ≡ true → elem n xs ≡ true
elem_of_sort n xs h =
    (elem_iff_count n xs).1 (omega (arith, count-sort n xs, (elem_iff_count n (sort xs)).0 h))

pub collect-All :
    (P : Candidate → Type 0) (visit : Text → Option Candidate) (ids : List Text)
    → ((i : Text) (c : Candidate) → elem i ids ≡ true → visit i ≡ some c → P c)
    → All P (collect visit ids)
collect-All P visit [] each = tt
collect-All P visit (i ∷ ids) each =
    let rest = collect-All P visit ids (λ j c h. each j c (ground (arith, h))) in
    elim (Option-cases (visit i)) [
      | inl e ↦ rw e rest
      | inr (c, e) ↦ rw e (each i c (ground (arith, ==_refl i)) e, rest)
    ]

module _ (cfg : Config) (dag : Dag) (s : Store) (now : ℕ) (entered : Text → Option ℕ)
    (progress : Text → ℕ × ℕ) where
  pub stack_base :
      (n : Node) (unmet : List Text) (d : Text)
      → stacking_eligible cfg dag (store_view s entered progress) now n unmet ≡ true
      → elem d unmet ≡ true
      → IsStackBase cfg s d
  unfolding stacking_eligible store_view is_parent_stack_ready
  stack_base n unmet d h e =
      let ready : parent_ready cfg (store_view s entered progress) now d ≡ true =
        all-elem (parent_ready cfg (store_view s entered progress) now) d unmet (ground (arith, h))
          e in
      elim (Option-cases (select d s.tasks)) [
        | inl missing ↦ absurd (ground (arith, rw missing at ready))
        | inr (r, found) ↦ (
          r,
          found,
          ready_state cfg (store_view s entered progress) now d r.state (rw found at ready),
          λ e. cc (rw e at h),
        )
      ]

  pub within :
      (nid parent : Text)
      → within_limits cfg (stack_fns cfg s) nid parent ≡ true
      → IsWithinLimits cfg s nid parent
  unfolding within_limits stack_fns
  within nid parent h =
      let (b, asked, above) = would_form_cycle_iff_above s nid parent in
      let (d, measured, chains) = stack_depth-is_longest s parent cfg.stacking_max_depth in
      let limits = rw (asked, measured) at h in
      (
        λ up. ground (arith, limits, above.1 up),
        elim chains [
          | inl (past, loop) ↦ absurd (ground (arith, limits, past))
          | inr longest ↦ (d, ground (arith, limits), longest)
        ],
      )
