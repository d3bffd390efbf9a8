-- ===== src/Plan/Valid.antt =====
-- What a validated plan promises, and that valid plans are accepted.
use quikode.Prelude.{
  ◌>>◌, ◌↔◌, ℕ, ◌+◌, ◌≤◌, ◌<◌, Bool, true, false, ◌||◌, List, [], ◌∷◌, ◌++◌, map, Text, ◌==◌,
  ==_iff, elem, count, IsUnique, if◌then◌else◌, all, Result, ok, raise, >>=-eq-ok, Result-cases,
  ◌≡◌, ◌≢◌, refl, arith, Bool-cases, inl, inr, sym, ◌∙◌, ap,
}
use quikode.Topo.Kahn.{Edge, Order, ordered, cycle, out_of_fuel, topo_order}
use quikode.Topo.Edges.{open_edges, has_edge}
use quikode.Topo.Invariant.{IsGraph, IsOrderedFrom}
use quikode.Topo.Correct.{topo_order-ne-out_of_fuel, topo_order-is_sound, topo_order-is_complete}
use quikode.Plan.Schema.{
  Subtask, PlanError, no_fuel, subtask_ids, dict_keys, dependency_edges, or_cycle,
  topo_order_raise_on_cycle, check_unique, check_dependencies, check_known, check_plan,
  check_fixup_plan,
}

-- No id of the list stands twice, or in `seen`.
abbrev Fresh : List Text → List Text → Type 0
Fresh seen ids = (k : Text) → count k ids + (if elem k seen then 1 else 0) ≤ 1

check_unique-Fresh :
    (seen : List Text) (subtasks : List Subtask)
    → check_unique seen subtasks ≡ ok tt
    → Fresh seen (subtask_ids subtasks)
unfolding check_unique
check_unique-Fresh seen [] h k = ground arith
check_unique-Fresh seen (s ∷ subtasks) h k = elim (Bool-cases (elem s.id seen)) [
  | inl old ↦ ground (arith, h, old)
  | inr new ↦
      let rest = check_unique-Fresh (s.id ∷ seen) subtasks (rw (new, check_unique) at h) k in
      ground (arith, rest, new, ==_iff s.id k)
]

check_unique-eq-ok :
    (seen : List Text) (subtasks : List Subtask)
    → Fresh seen (subtask_ids subtasks)
    → check_unique seen subtasks ≡ ok tt
unfolding check_unique
check_unique-eq-ok seen [] h = refl
check_unique-eq-ok seen (s ∷ subtasks) h =
    let rest =
      check_unique-eq-ok (s.id ∷ seen) subtasks (λ k. ground (arith, h k, ==_iff s.id k)) in
    ground (arith, rest, h s.id, ==_iff s.id s.id)

dict_keys-eq : (seen ids : List Text) → Fresh seen ids → dict_keys seen ids ≡ ids
dict_keys-eq seen [] h = refl
dict_keys-eq seen (i ∷ ids) h =
    let rest = dict_keys-eq (i ∷ seen) ids (λ k. ground (arith, h k, ==_iff i k)) in
    ground (arith, rest, h i, ==_iff i i)

-- Every dependency is the id of a subtask.
abbrev pub is_known : List Text → List Subtask → Bool
is_known ids subtasks = all (λ s. all (λ d. elem d ids) s.depends_on) subtasks

dependencies-known :
    (sid : Text) (ids deps : List Text)
    → check_dependencies sid ids deps ≡ ok tt
    → all (λ d. elem d ids) deps ≡ true
dependencies-known sid ids [] h = refl
dependencies-known sid ids (d ∷ deps) h = ground (arith, h, dependencies-known sid ids deps)

check_dependencies-eq-ok :
    (sid : Text) (ids deps : List Text)
    → all (λ d. elem d ids) deps ≡ true
    → check_dependencies sid ids deps ≡ ok tt
check_dependencies-eq-ok sid ids [] h = refl
check_dependencies-eq-ok sid ids (d ∷ deps) h =
    ground (arith, h, check_dependencies-eq-ok sid ids deps)

check_known-is_known :
    (ids : List Text) (subtasks : List Subtask)
    → check_known ids subtasks ≡ ok tt
    → is_known ids subtasks ≡ true
unfolding check_known
check_known-is_known ids [] h = refl
check_known-is_known ids (s ∷ subtasks) h =
    let (u, one, rest) = >>=-eq-ok (check_dependencies s.id ids s.depends_on) _ h in
    ground
      (arith, dependencies-known s.id ids s.depends_on one, check_known-is_known ids subtasks rest)

check_known-eq-ok :
    (ids : List Text) (subtasks : List Subtask)
    → is_known ids subtasks ≡ true
    → check_known ids subtasks ≡ ok tt
unfolding check_known
check_known-eq-ok ids [] h = refl
check_known-eq-ok ids (s ∷ subtasks) h =
    let one = check_dependencies-eq-ok s.id ids s.depends_on (ground (arith, h)) in
    let rest = check_known-eq-ok ids subtasks (ground (arith, h)) in rw one rest

-- The pairs (subtask, dependency) start at ids of subtasks, and end there when all are known.
edges-other :
    (id n : Text) (deps : List Text) (edges : List Edge)
    → id == n ≡ false
    → open_edges n [] (map (λ d. (id, d)) deps ++ edges) ≡ open_edges n [] edges
edges-other id n [] edges h = refl
edges-other id n (d ∷ deps) edges h = ground (arith, h, edges-other id n deps edges h)

sourced :
    (subtasks : List Subtask) (n : Text)
    → elem n (subtask_ids subtasks) ≡ false
    → open_edges n [] (dependency_edges subtasks) ≡ 0
sourced [] n h = refl
sourced (s ∷ subtasks) n h =
    ground
      (arith, h, edges-other s.id n s.depends_on (dependency_edges subtasks), sourced subtasks n)

edge-inside :
    (ids : List Text) (id n d : Text) (deps : List Text) (edges : List Edge)
    → all (λ x. elem x ids) deps ≡ true
    → has_edge n d (map (λ x. (id, x)) deps ++ edges) ≡ true
    → (elem d ids || has_edge n d edges) ≡ true
edge-inside ids id n d [] edges known h = ground (arith, h)
edge-inside ids id n d (x ∷ deps) edges known h =
    ground (arith, known, h, ==_iff x d, edge-inside ids id n d deps edges)

pub has_edge-inside :
    (ids : List Text) (subtasks : List Subtask) (n d : Text)
    → is_known ids subtasks ≡ true
    → has_edge n d (dependency_edges subtasks) ≡ true
    → elem d ids ≡ true
has_edge-inside ids [] n d known h = cc
has_edge-inside ids (s ∷ subtasks) n d known h = ground (
  arith,
  known,
  edge-inside ids s.id n d s.depends_on (dependency_edges subtasks),
  h,
  has_edge-inside ids subtasks n d,
)

plan-IsGraph :
    (subtasks : List Subtask)
    → IsUnique (subtask_ids subtasks)
    → IsGraph (subtask_ids subtasks) (dependency_edges subtasks)
plan-IsGraph subtasks unique = record { unique = unique; sourced = sourced subtasks }

-- On distinct ids the loop runs over the ids themselves.
topo-eq :
    (subtasks : List Subtask)
    → Fresh [] (subtask_ids subtasks)
    → topo_order_raise_on_cycle subtasks
      ≡ or_cycle (topo_order (subtask_ids subtasks) (dependency_edges subtasks))
unfolding topo_order_raise_on_cycle topo_order
topo-eq subtasks h = rw (dict_keys-eq [] (subtask_ids subtasks) h) refl

IsUnique-of : (ids : List Text) → Fresh [] ids → IsUnique ids
IsUnique-of ids h k = omega (arith, h k)

-- The order that a validated plan is run in: the ids are distinct, every dependency is a subtask,
-- and the order has each subtask once, after all that it depends on.
pub record IsPlanOrder (subtasks : List Subtask) (out : List Text) : Type 0 where
  pub distinct_ids : IsUnique (subtask_ids subtasks)
  pub known : is_known (subtask_ids subtasks) subtasks ≡ true
  pub same : (n : Text) → count n out ≡ count n (subtask_ids subtasks)
  pub after : IsOrderedFrom [] (dependency_edges subtasks) out

or_cycle-ok : (o : Order) (out : List Text) → or_cycle o ≡ ok out → o ≡ ordered out
or_cycle-ok (ordered x) out h = ground (arith, h)
or_cycle-ok cycle out h = cc
or_cycle-ok out_of_fuel out h = cc

-- If validation accepts the subtasks, the order it computes is a plan order.
pub check_plan-IsPlanOrder :
    (subtasks : List Subtask) (out : List Text)
    → check_plan subtasks ≡ ok out
    → IsPlanOrder subtasks out
unfolding check_plan
check_plan-IsPlanOrder subtasks out h =
    let (_, h', topo) =
      >>=-eq-ok (check_unique [] subtasks >> check_known (subtask_ids subtasks) subtasks) _ h in
    let (_, unique, known) = >>=-eq-ok (check_unique [] subtasks) _ h' in
    let fresh = check_unique-Fresh [] subtasks unique in
    let ids_unique = IsUnique-of (subtask_ids subtasks) fresh in
    let (same, after) =
      topo_order-is_sound (subtask_ids subtasks) (dependency_edges subtasks)
        (plan-IsGraph subtasks ids_unique) out
        (or_cycle-ok _ out (sym (topo-eq subtasks fresh) ∙ topo)) in
    record {
      distinct_ids = ids_unique;
      known = check_known-is_known (subtask_ids subtasks) subtasks known;
      same = same;
      after = after;
    }

-- A rank that falls from each subtask to its dependencies.
abbrev pub PlanRank : List Subtask → (Text → ℕ) → Type 0
PlanRank subtasks rank =
    (n d : Text) → has_edge n d (dependency_edges subtasks) ≡ true → rank d < rank n

-- Distinct ids, known dependencies and a rank that falls along them are enough to be accepted.
pub check_plan-is_complete :
    (subtasks : List Subtask) (rank : Text → ℕ)
    → IsUnique (subtask_ids subtasks)
    → is_known (subtask_ids subtasks) subtasks ≡ true
    → PlanRank subtasks rank
    → (out : List Text) × (check_plan subtasks ≡ ok out)
unfolding check_plan
check_plan-is_complete subtasks rank unique known falls =
    let fresh : Fresh [] (subtask_ids subtasks) = λ k. omega (arith, unique k) in
    let (out, e) =
      topo_order-is_complete (subtask_ids subtasks) (dependency_edges subtasks)
        (plan-IsGraph subtasks unique) rank
        (record {
          falls = falls;
          inside = λ n d. has_edge-inside (subtask_ids subtasks) subtasks n d known;
        }) in
    (
      out,
      rw
          (
            check_unique-eq-ok [] subtasks fresh,
            check_known-eq-ok (subtask_ids subtasks) subtasks known,
          )
          (topo-eq subtasks fresh ∙ ap or_cycle e),
    )

or_cycle-fuel : (o : Order) → or_cycle o ≡ raise no_fuel → o ≡ out_of_fuel
or_cycle-fuel (ordered x) h = cc
or_cycle-fuel cycle h = cc
or_cycle-fuel out_of_fuel h = refl

check_unique-fuel :
    (seen : List Text) (subtasks : List Subtask) → check_unique seen subtasks ≢ raise no_fuel
unfolding check_unique
check_unique-fuel seen [] h = cc
check_unique-fuel seen (s ∷ subtasks) h =
    ground (arith, h, check_unique-fuel (s.id ∷ seen) subtasks)

dependencies-fuel :
    (sid : Text) (ids deps : List Text) → check_dependencies sid ids deps ≢ raise no_fuel
dependencies-fuel sid ids [] h = cc
dependencies-fuel sid ids (d ∷ deps) h = ground (arith, h, dependencies-fuel sid ids deps)

check_known-fuel :
    (ids : List Text) (subtasks : List Subtask) → check_known ids subtasks ≢ raise no_fuel
unfolding check_known
check_known-fuel ids [] h = cc
check_known-fuel ids (s ∷ subtasks) h =
    elim (Result-cases (check_dependencies s.id ids s.depends_on)) [
      | inl (_, e) ↦ check_known-fuel ids subtasks (rw e at h)
      | inr (x, e) ↦ dependencies-fuel s.id ids s.depends_on (e ∙ rw e at h)
    ]

raise_inj : (x y : PlanError) → ◌≡◌ {A = Result PlanError (List Text)} (raise x) (raise y) → x ≡ y
raise_inj x y h = ground (arith, h)

-- Validation ends on every list of subtasks: the rounds of the loop are as many as the ids.
pub check_plan-ends : (subtasks : List Subtask) → check_plan subtasks ≢ raise no_fuel
unfolding check_plan
check_plan-ends subtasks h = elim (Result-cases (check_unique [] subtasks)) [
  | inr (x, e) ↦ check_unique-fuel [] subtasks (e ∙ ap raise (raise_inj x no_fuel (rw e at h)))
  | inl (_, e) ↦ elim (Result-cases (check_known (subtask_ids subtasks) subtasks)) [
    | inr (x, k) ↦
        check_known-fuel (subtask_ids subtasks) subtasks
          (k ∙ ap raise (raise_inj x no_fuel (rw (e, k) at h)))
    | inl (_, k) ↦
        let fresh = check_unique-Fresh [] subtasks e in
        topo_order-ne-out_of_fuel (subtask_ids subtasks) (dependency_edges subtasks)
          (plan-IsGraph subtasks (IsUnique-of (subtask_ids subtasks) fresh))
          (or_cycle-fuel _ (sym (topo-eq subtasks fresh) ∙ rw (e, k) at h))
  ]
]

-- The check of a fixup plan accepts exactly distinct ids with known dependencies: no order is
-- computed, so a cycle is accepted too.
pub check_fixup_plan_iff :
    (subtasks : List Subtask)
    → (check_fixup_plan subtasks ≡ ok tt)
      ↔ (IsUnique (subtask_ids subtasks) × (is_known (subtask_ids subtasks) subtasks ≡ true))
unfolding check_fixup_plan
check_fixup_plan_iff subtasks = (
  λ h.
      let (_, unique, known) = >>=-eq-ok (check_unique [] subtasks) _ h in
      (
        IsUnique-of (subtask_ids subtasks) (check_unique-Fresh [] subtasks unique),
        check_known-is_known (subtask_ids subtasks) subtasks known,
      ),
  λ (unique, known).
      rw (check_unique-eq-ok [] subtasks (λ k. omega (arith, unique k)))
        (check_known-eq-ok (subtask_ids subtasks) subtasks known),
)
