-- ===== src/Plan/Extend.antt =====
-- A valid plan stays valid with one more subtask at its end that depends on the others.
use quikode.Prelude.{
  ℕ, suc, ◌+◌, ◌<◌, Bool, true, false, ◌&&◌, ◌||◌, List, [], ◌∷◌, ◌++◌, map, Text, ◌==◌, ==_iff,
  elem, elem-append, count, elem_iff_count, if◌then◌else◌, length, any, all, ok, ◌≡◌, refl, arith,
  Bool-cases, inl, inr, ◌⊎◌,
}
use quikode.Topo.Kahn.{Edge}
use quikode.Topo.Edges.{has_edge, elem_of_open_edges}
use quikode.Topo.Invariant.{IsOrderedFrom}
use quikode.Plan.Schema.{Subtask, subtask_ids, dependency_edges, check_plan}
use quikode.Plan.Valid.{is_known, has_edge-inside, IsPlanOrder, check_plan-is_complete}

pub any-append {ℓ} :
    {A : Type ℓ} (p : A → Bool) (xs ys : List A) → any p (xs ++ ys) ≡ (any p xs || any p ys)
any-append p [] ys = refl
any-append p (x ∷ xs) ys = ground (arith, any-append p xs ys)

-- The place of a text in a list, counted from its start; the length when it is not there.
abbrev place : Text → List Text → ℕ
place n [] = 0
place n (x ∷ xs) = if x == n then 0 else suc (place n xs)

place-lt : (n : Text) (xs : List Text) → elem n xs ≡ true → place n xs < length xs
place-lt n [] h = cc
place-lt n (x ∷ xs) h = ground (arith, h, place-lt n xs)

-- In an order, a dependency stands before what depends on it.
before-or-earlier :
    (n d : Text) (before : List Text) (edges : List Edge) (out : List Text)
    → IsOrderedFrom before edges out
    → elem n out ≡ true
    → has_edge n d edges ≡ true
    → (elem d before ≡ true) ⊎ (place d out < place n out)
before-or-earlier n d before edges [] h known e = cc
before-or-earlier n d before edges (x ∷ out) (none_open, rest) known e =
    elim (Bool-cases (x == n)) [
      | inl same ↦
          let x_is_n = (==_iff x n).0 same in
          inl (elem_of_open_edges n d before edges (rw x_is_n at none_open) e)
      | inr other ↦
          elim (before-or-earlier n d (before ++ x ∷ []) edges out rest
            (ground (arith, known, other)) e) [
              | inl old ↦ elim (Bool-cases (x == d)) [
                | inl now ↦ inr (ground (arith, now, other))
                | inr past ↦ inl (ground (arith, old, past, elem-append d before (x ∷ [])))
              ]
              | inr earlier ↦ inr (ground (arith, earlier, other))
            ]
    ]

-- The edges of the plan with one more subtask at its end.
has_edge-append :
    (n d : Text) (xs ys : List Edge)
    → has_edge n d (xs ++ ys) ≡ (has_edge n d xs || has_edge n d ys)
has_edge-append n d xs ys = any-append (λ e. e.0 == n && e.1 == d) xs ys

has_edge-tag :
    (n d id : Text) (deps : List Text)
    → has_edge n d (map (λ x. (id, x)) deps) ≡ (id == n && elem d deps)
has_edge-tag n d id [] = ground arith
has_edge-tag n d id (x ∷ deps) = ground (arith, has_edge-tag n d id deps)

has_edge-snoc :
    (n d : Text) (subtasks : List Subtask) (last : Subtask)
    → has_edge n d (dependency_edges (subtasks ++ last ∷ []))
      ≡ (has_edge n d (dependency_edges subtasks) || (last.id == n && elem d last.depends_on))
has_edge-snoc n d [] last = ground (
  arith,
  has_edge-append n d (map (λ x. (last.id, x)) last.depends_on) [],
  has_edge-tag n d last.id last.depends_on,
)
has_edge-snoc n d (s ∷ subtasks) last =
    let own : List Edge = map (λ x. (s.id, x)) s.depends_on in
    ground (
      arith,
      has_edge-append n d own (dependency_edges (subtasks ++ last ∷ [])),
      has_edge-append n d own (dependency_edges subtasks),
      has_edge-snoc n d subtasks last,
    )

has_edge-source :
    (n d : Text) (subtasks : List Subtask)
    → has_edge n d (dependency_edges subtasks) ≡ true
    → elem n (subtask_ids subtasks) ≡ true
has_edge-source n d [] h = cc
has_edge-source n d (s ∷ subtasks) h = ground (
  arith,
  h,
  has_edge-append n d (map (λ x. (s.id, x)) s.depends_on) (dependency_edges subtasks),
  has_edge-tag n d s.id s.depends_on,
  has_edge-source n d subtasks,
)

pub elem-ids-snoc :
    (n : Text) (subtasks : List Subtask) (last : Subtask)
    → elem n (subtask_ids (subtasks ++ last ∷ [])) ≡ (elem n (subtask_ids subtasks) || last.id == n)
elem-ids-snoc n [] last = ground arith
elem-ids-snoc n (s ∷ subtasks) last = ground (arith, elem-ids-snoc n subtasks last)

count-ids-snoc :
    (n : Text) (subtasks : List Subtask) (last : Subtask)
    → count n (subtask_ids (subtasks ++ last ∷ []))
      ≡ count n (subtask_ids subtasks) + count n (last.id ∷ [])
count-ids-snoc n [] last = omega arith
count-ids-snoc n (s ∷ subtasks) last = ground (arith, count-ids-snoc n subtasks last)

all-wider :
    (ids wider deps : List Text)
    → ((d : Text) → elem d ids ≡ true → elem d wider ≡ true)
    → all (λ d. elem d ids) deps ≡ true
    → all (λ d. elem d wider) deps ≡ true
all-wider ids wider [] h e = refl
all-wider ids wider (d ∷ deps) h e = ground (arith, e, h d, all-wider ids wider deps h)

is_known-snoc :
    (ids wider : List Text) (subtasks : List Subtask) (last : Subtask)
    → ((d : Text) → elem d ids ≡ true → elem d wider ≡ true)
    → is_known ids subtasks ≡ true
    → all (λ d. elem d wider) last.depends_on ≡ true
    → is_known wider (subtasks ++ last ∷ []) ≡ true
is_known-snoc ids wider [] last h e k = ground (arith, k)
is_known-snoc ids wider (s ∷ subtasks) last h e k =
    ground
      (arith, e, k, all-wider ids wider s.depends_on h, is_known-snoc ids wider subtasks last h)

-- A valid plan with a last subtask under a new id that depends on subtasks of the plan is valid.
pub snoc-is_accepted :
    (subtasks : List Subtask) (last : Subtask) (out : List Text)
    → IsPlanOrder subtasks out
    → elem last.id (subtask_ids subtasks) ≡ false
    → ((d : Text) → elem d last.depends_on ≡ true → elem d (subtask_ids subtasks) ≡ true)
    → all (λ d. elem d (subtask_ids (subtasks ++ last ∷ []))) last.depends_on ≡ true
    → (r : List Text) × (check_plan (subtasks ++ last ∷ []) ≡ ok r)
snoc-is_accepted subtasks last out order fresh inside known =
    let ids = subtask_ids subtasks in
    let rank : Text → ℕ = λ n. if last.id == n then length out else place n out in
    let placed : (n : Text) → elem n ids ≡ true → elem n out ≡ true =
      λ n h. ground (arith, h, order.same n, elem_iff_count n ids, elem_iff_count n out) in
    let falls_old : (n d : Text)
        → has_edge n d (dependency_edges subtasks) ≡ true
        → rank d < rank n =
      λ n d h.
        let n_in = has_edge-source n d subtasks h in
        let d_in = has_edge-inside ids subtasks n d order.known h in
        let earlier =
          before-or-earlier n d [] (dependency_edges subtasks) out order.after (placed n n_in) h in
        ground (arith, earlier, fresh, n_in, d_in, ==_iff last.id n, ==_iff last.id d) in
    let falls_new : (n d : Text)
        → last.id == n ≡ true
        → elem d last.depends_on ≡ true
        → rank d < rank n =
      λ n d e h.
        let d_in = inside d h in
        ground (arith, e, fresh, d_in, place-lt d out (placed d d_in), ==_iff last.id d) in
    check_plan-is_complete (subtasks ++ last ∷ []) rank
      (λ k. ground (
        arith,
        count-ids-snoc k subtasks last,
        order.distinct_ids k,
        fresh,
        ==_iff last.id k,
        elem_iff_count k ids,
      ))
      (is_known-snoc ids (subtask_ids (subtasks ++ last ∷ [])) subtasks last
        (λ d h. ground (arith, h, elem-ids-snoc d subtasks last)) order.known known)
      (λ n d h. elim (Bool-cases (has_edge n d (dependency_edges subtasks))) [
        | inl old ↦ falls_old n d old
        | inr new ↦
            let is_last : (last.id == n ≡ true) × (elem d last.depends_on ≡ true) =
              ground (arith, h, new, has_edge-snoc n d subtasks last) in
            falls_new n d is_last.0 is_last.1
      ])
