-- ===== src/Plan/Stabilize.antt =====
-- The stabilization subtask: injected once, the plan stays valid, and every category is covered.
use quikode.Prelude.{
  ℕ, Bool, true, false, not, ◌||◌, Option, none, some, List, [], ◌∷◌, ◌++◌, Text, ◌==◌, ==_iff,
  elem, any, all, keep, ok, ◌≡◌, ◌≢◌, refl, arith, Bool-cases, inl, inr,
}
use quikode.Plan.Schema.{
  Subtask, subtask_ids, check_plan, stabilization_subtask_id, stabilization_targets,
  build_stabilization_subtask, is_empty, inject, maybe_inject_stabilization,
}
use quikode.Plan.Valid.{check_plan-IsPlanOrder}
use quikode.Plan.Extend.{any-append, elem-ids-snoc, snoc-is_accepted}
use quikode.Plan.Evidence.{targets}

abbrev pub has_stabilization : List Subtask → Bool
has_stabilization subtasks = any (λ s. s.id == stabilization_subtask_id) subtasks

injected-has :
    (subtasks : List Subtask) (command : Text) (categories : List Text) (score : Option ℕ)
    → has_stabilization (inject subtasks command categories score) ≡ true
unfolding build_stabilization_subtask
injected-has subtasks command categories score = elim (Bool-cases (has_stabilization subtasks)) [
  | inl has ↦ rw has has
  | inr hasnt ↦
      let last =
        build_stabilization_subtask (keep (λ i. not (is_empty i)) (subtask_ids subtasks)) command
          categories score in
      rw hasnt (
        ground (
          arith,
          any-append (λ s. s.id == stabilization_subtask_id) subtasks (last ∷ []),
          ==_iff stabilization_subtask_id stabilization_subtask_id,
        ))
]

-- After an injection with a command that is not empty, injecting again, with the same or another
-- command, categories and score, changes nothing.
pub maybe_inject_stabilization_idem :
    (subtasks : List Subtask) (gate gate' : Option Text) (categories categories' : List Text)
    (score score' : Option ℕ)
    → gate ≢ none
    → gate ≢ some []
    → maybe_inject_stabilization
        (maybe_inject_stabilization subtasks gate categories score)
        gate'
        categories'
        score'
      ≡ maybe_inject_stabilization subtasks gate categories score
unfolding maybe_inject_stabilization
maybe_inject_stabilization_idem subtasks none gate' categories categories' score score' h k =
    absurd (h refl)
maybe_inject_stabilization_idem subtasks (some []) gate' categories categories' score score' h k =
    absurd (k refl)
maybe_inject_stabilization_idem subtasks (some (c ∷ g)) none categories categories' score score' h
      k =
    refl
maybe_inject_stabilization_idem subtasks (some (c ∷ g)) (some []) categories categories' score
      score' h k =
    refl
maybe_inject_stabilization_idem subtasks (some (c ∷ g)) (some (d ∷ g')) categories categories' score
      score' h k =
    ground (arith, injected-has subtasks (c ∷ g) categories score)

targets-append :
    (c : Text) (xs ys : List Subtask) → targets c (xs ++ ys) ≡ (targets c xs || targets c ys)
targets-append c xs ys = any-append (λ s. any (λ t. t.category == c) s.rubric_targets) xs ys

targets-all :
    (c : Text) (score : ℕ) (categories : List Text)
    → any (λ t. t.category == c) (stabilization_targets categories (some score)) ≡ elem c categories
targets-all c score [] = refl
targets-all c score (x ∷ categories) = ground (arith, targets-all c score categories)

-- With a command and a minimum score, a plan that lacks the stabilization subtask has every rubric
-- category targeted after the injection, whatever the planner targeted.
injection-covers :
    (subtasks : List Subtask) (command : Text) (categories : List Text) (score : ℕ) (c : Text)
    → command ≢ []
    → has_stabilization subtasks ≡ false
    → elem c categories ≡ true
    → targets c (maybe_inject_stabilization subtasks (some command) categories (some score)) ≡ true
unfolding maybe_inject_stabilization build_stabilization_subtask
injection-covers subtasks [] categories score c h hasnt e = absurd (h refl)
injection-covers subtasks (x ∷ g) categories score c h hasnt e =
    let last =
      build_stabilization_subtask (keep (λ i. not (is_empty i)) (subtask_ids subtasks)) (x ∷ g)
        categories (some score) in
    rw hasnt
      (ground (arith, targets-append c subtasks (last ∷ []), targets-all c score categories, e))

elem-prior :
    (d : Text) (ids : List Text)
    → elem d (keep (λ i. not (is_empty i)) ids) ≡ true
    → elem d ids ≡ true
elem-prior d [] h = cc
elem-prior d (i ∷ ids) h = ground (arith, h, elem-prior d ids)

all-prior :
    (wider ids : List Text)
    → ((d : Text) → elem d ids ≡ true → elem d wider ≡ true)
    → all (λ d. elem d wider) (keep (λ i. not (is_empty i)) ids) ≡ true
all-prior wider [] h = refl
all-prior wider (i ∷ ids) h =
    let rest = all-prior wider ids (λ d e. h d (ground (arith, e))) in
    ground (arith, rest, h i, ==_iff i i)

no_stabilization :
    (subtasks : List Subtask)
    → has_stabilization subtasks ≡ false
    → elem stabilization_subtask_id (subtask_ids subtasks) ≡ false
no_stabilization [] h = refl
no_stabilization (s ∷ subtasks) h = ground (arith, h, no_stabilization subtasks)

-- If validation accepts a plan, it also accepts the plan after the injection.
pub injection-is_accepted :
    (subtasks : List Subtask) (gate : Option Text) (categories : List Text) (score : Option ℕ)
    (out : List Text)
    → check_plan subtasks ≡ ok out
    → (r : List Text) × (check_plan (maybe_inject_stabilization subtasks gate categories score)
        ≡ ok r)
unfolding maybe_inject_stabilization build_stabilization_subtask
injection-is_accepted subtasks none categories score out h = (out, h)
injection-is_accepted subtasks (some []) categories score out h = (out, h)
injection-is_accepted subtasks (some (x ∷ g)) categories score out h =
    elim (Bool-cases (has_stabilization subtasks)) [
      | inl has ↦ rw has (out, h)
      | inr hasnt ↦
          let ids = subtask_ids subtasks in
          let last =
            build_stabilization_subtask (keep (λ i. not (is_empty i)) ids) (x ∷ g) categories
              score in
          rw hasnt (
            snoc-is_accepted subtasks last out (check_plan-IsPlanOrder subtasks out h)
              (no_stabilization subtasks hasnt) (λ d. elem-prior d ids)
              (all-prior (subtask_ids (subtasks ++ last ∷ [])) ids
                (λ d e. ground (arith, e, elem-ids-snoc d subtasks last))))
    ]
