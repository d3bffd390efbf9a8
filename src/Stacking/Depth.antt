-- ===== src/Stacking/Depth.antt =====
-- `stack_depth` answers on every store: past the limit when it met a cycle, and otherwise with the
-- length of the longest chain of parents.
use quikode.Prelude.{
  ℕ, zero, suc, ◌≤◌, ◌<◌, true, false, ◌||◌, Option, some, List, [], ◌∷◌, Text, ◌==◌, ==_iff,
  ==_comm, ==_refl, elem, ltb, length, ◌≡◌, refl, sym, arith, Bool-cases, inl, inr, ◌↔◌, ◌⊎◌,
}
use quikode.Store.Rows.{Store}
use quikode.Topo.Edges.{remaining, remaining-nil}
use quikode.Walk.Closure.{Reach, here, step}
use quikode.Stacking.Walks.{parents_of, task_ids, Depth, depth_of, deepest, max_ℕ, stack_depth}
use quikode.Stacking.Climb.{parents_of-unknown}

remaining-le : (cur : Text) (seen ids : List Text) → remaining (cur ∷ seen) ids ≤ remaining seen ids
remaining-le cur seen [] = omega arith
remaining-le cur seen (n ∷ ids) = ground (arith, remaining-le cur seen ids)

remaining-new :
    (cur : Text) (seen ids : List Text)
    → elem cur seen ≡ false
    → elem cur ids ≡ true
    → remaining (cur ∷ seen) ids < remaining seen ids
remaining-new cur seen [] new known = cc
remaining-new cur seen (n ∷ ids) new known =
    ground
      (arith, ==_iff n cur, ==_comm n cur, remaining-le cur seen ids, remaining-new cur seen ids)

-- A chain of so many tasks, from a task up, each the child of the next.
pub data Chain (parents : Text → List Text) : ℕ → Text → Type 0 where
  one : (n : Text) → Chain parents 1 n
  more :
      (n p : Text) (k : ℕ) → elem p (parents n) ≡ true → Chain parents k p → Chain parents (suc k) n

module _ (parents : Text → List Text) where
  -- A task that the walk from `start` can meet and that is among its own ancestors.
  abbrev pub HasLoop : Text → Type 0
  HasLoop start = (m : Text) × Reach parents (start ∷ []) m × Reach parents (parents m) m

  -- What a visit of a task returns.
  abbrev Right : Text → Text → Depth → Type 0
  Right start n d =
      ((d.cyclic ≡ true) × HasLoop start)
      ⊎ ((d.cyclic ≡ false) × ((k : ℕ) → Chain parents k n ↔ ((0 < k) × (k ≤ d.depth))))

  -- What the maximum over a list of tasks returns.
  abbrev RightOf : Text → List Text → Depth → Type 0
  RightOf start ps d =
      ((d.cyclic ≡ true) × HasLoop start)
      ⊎ ((d.cyclic ≡ false)
          × ((k : ℕ)
              → ((p : Text) × (elem p ps ≡ true) × Chain parents k p) ↔ ((0 < k) × (k ≤ d.depth))))

  RightOf-join :
      (start p : Text) (ps : List Text) (a b : Depth)
      → Right start p a
      → RightOf start ps b
      → RightOf start
          (p ∷ ps)
          (record { depth = max_ℕ a.depth b.depth; cyclic = a.cyclic || b.cyclic })
  RightOf-join start p ps a b (inl (e, loop)) rest = inl (ground arith, loop)
  RightOf-join start p ps a b (inr (e, f)) (inl (g, loop)) = inl (ground arith, loop)
  RightOf-join start p ps a b (inr (e, f)) (inr (g, h)) = inr (
    ground arith,
    λ k. (
      λ (q, member, c). elim (Bool-cases (p == q)) [
        | inl same ↦ ground (arith, (f k).0 (rw ((==_iff p q).0 same) c))
        | inr other ↦ ground (arith, (h k).0 (q, ground (arith, member), c))
      ],
      λ (positive, bound). elim (Bool-cases (ltb a.depth b.depth)) [
        | inl lt ↦
            let (q, member, c) = (h k).1 (positive, ground (arith, bound)) in
            (q, ground (arith, member), c)
        | inr ge ↦ (p, ground (arith, ==_refl p), (f k).1 (positive, ground (arith, bound)))
      ],
    ),
  )

  deepest-returns :
      (start : Text) (visit : Text → Option Depth) (ps : List Text)
      → ((p : Text) → elem p ps ≡ true → (a : Depth) × (visit p ≡ some a) × Right start p a)
      → (d : Depth) × (deepest visit ps ≡ some d) × RightOf start ps d
  unfolding deepest
  deepest-returns start visit [] each = (
    record { depth = 0; cyclic = false },
    refl,
    inr (refl, λ k. (λ (p, member, c). cc, λ (positive, bound). absurd (omega arith))),
  )
  deepest-returns start visit (p ∷ ps) each =
      let (a, e, right) = each p (ground (arith, ==_refl p)) in
      let (b, f, rest) = deepest-returns start visit ps (λ q h. each q (ground (arith, h))) in
      (
        record { depth = max_ℕ a.depth b.depth; cyclic = a.cyclic || b.cyclic },
        rw (e, f, deepest) refl,
        RightOf-join start p ps a b right rest,
      )

  -- The task itself on top of its parents' chains.
  Right-one_more :
      (start n : Text) (d : Depth)
      → RightOf start (parents n) d
      → Right start n (record { depth = suc d.depth; cyclic = d.cyclic })
  Right-one_more start n d (inl (e, loop)) = inl (e, loop)
  Right-one_more start n d (inr (e, f)) = inr (e, λ k. (up k, down k))
    where
      up : (k : ℕ) → Chain parents k n → (0 < k) × (k ≤ suc d.depth)
      up k (one _) = omega arith
      up k (more _ p j member c) = omega (arith, (f j).0 (p, member, c))

      down : (k : ℕ) → (0 < k) × (k ≤ suc d.depth) → Chain parents k n
      down zero h = absurd (omega (arith, h))
      down (suc zero) h = one n
      down (suc (suc j)) h =
          let (p, member, c) = (f (suc j)).1 (omega (arith, h)) in more n p (suc j) member c

  depth_of-returns :
      (start : Text) (ids : List Text)
      → ((n : Text) → elem n ids ≡ false → parents n ≡ [])
      → (fuel : ℕ) (on_stack : List Text) (node : Text) → Reach parents (start ∷ []) node
      → ((m : Text) → elem m on_stack ≡ true → Reach parents (parents m) node)
      → remaining on_stack ids < fuel
      → (d : Depth) × (depth_of parents fuel on_stack node ≡ some d) × Right start node d
  unfolding depth_of
  depth_of-returns start ids known zero on_stack node met below h = absurd (omega arith)
  depth_of-returns start ids known (suc fuel) on_stack node met below h =
      elim (Bool-cases (elem node on_stack)) [
        | inl old ↦
            rw old
              (record { depth = 0; cyclic = true }, refl, inl (refl, (node, met, below node old)))
        | inr new ↦
            let (d, e, right) =
              deepest-returns start (depth_of parents fuel (node ∷ on_stack)) (parents node)
                (λ p member.
                  depth_of-returns start ids known fuel (node ∷ on_stack) p (step node p met member)
                    (λ m k. elim (Bool-cases (node == m)) [
                      | inl same ↦ rw (sym ((==_iff node m).0 same)) (here p member)
                      | inr other ↦ step node p (below m (ground (arith, k))) member
                    ])
                    (ground (arith, known node, remaining-new node on_stack ids new, h, member))) in
            rw (new, e)
              (
                record { depth = suc d.depth; cyclic = d.cyclic },
                refl,
                Right-one_more start node d right,
              )
      ]

-- On every store `stack_depth` answers. Either it is above the given limit, and some task that is
-- reached by going up from the task is among its own ancestors; or chains of tasks from the task up,
-- each the child of the next, have exactly the lengths from 1 to the answer.
pub stack_depth-is_longest :
    (s : Store) (task_id : Text) (sentinel : ℕ)
    → (d : ℕ) × (stack_depth s task_id sentinel ≡ some d)
      × (((sentinel < d) × HasLoop (parents_of s) task_id)
          ⊎ ((k : ℕ) → Chain (parents_of s) k task_id ↔ ((0 < k) × (k ≤ d))))
unfolding stack_depth
stack_depth-is_longest s task_id sentinel =
    let (d, e, right) =
      depth_of-returns (parents_of s) task_id (task_ids s) (parents_of-unknown s)
        (suc (suc (length (task_ids s)))) [] task_id
        (here task_id (ground (arith, ==_refl task_id))) (λ m h. cc)
        (omega (arith, remaining-nil (task_ids s))) in
    elim right [
      | inl (f, loop) ↦ rw (e, f) (max_ℕ d.depth (suc sentinel), refl, inl (ground arith, loop))
      | inr (f, chains) ↦ rw (e, f) (d.depth, refl, inr chains)
    ]
