-- ===== src/Dag/Ready.antt =====
-- `DAG.ready_nodes`: which nodes it returns, and in which order.
use quikode.Prelude.{
  Bool, not, ◌&&◌, Option, List, [], ◌∷◌, map, Text, elem, all, any, keep, ◌≡◌, refl, arith,
  any-sort_by, IsSorted, sort_by-IsSorted, ◌∙◌,
}
use quikode.Dag.Graph.{Node, Dag, kinds_or_empty, is_ready, ready_nodes}

any-keep {ℓ} :
    {A : Type ℓ} (p q : A → Bool) (xs : List A) → any p (keep q xs) ≡ any (λ x. q x && p x) xs
any-keep p q [] = refl
any-keep p q (x ∷ xs) = ground (arith, any-keep p q xs)

any-cong {ℓ} :
    {A : Type ℓ} (p q : A → Bool) → ((x : A) → p x ≡ q x) → (xs : List A) → any p xs ≡ any q xs
any-cong p q e [] = refl
any-cong p q e (x ∷ xs) = ground (arith, e x, any-cong p q e xs)

-- A node that can start: not completed, not in progress, its kind not skipped, and every
-- dependency completed.
abbrev pub can_start : List Text → List Text → List Text → Node → Bool
can_start completed in_progress skip n =
    not (elem n.id completed)
    && (not (elem n.id in_progress)
        && (not (elem n.kind skip) && all (λ d. elem d completed) n.depends_on))

is_ready-eq :
    (completed in_progress skip : List Text) (n : Node)
    → is_ready completed in_progress skip n ≡ can_start completed in_progress skip n
is_ready-eq completed in_progress skip n = ground arith

-- For every test of nodes: some node of the result passes it exactly when some node of the graph
-- that can start passes it. The result is sorted by id.
ready_nodes-is_exact :
    (nodes : Dag) (completed in_progress : List Text) (skip : Option (List Text))
    (test : Node → Bool)
    → (any test (ready_nodes nodes completed in_progress skip)
        ≡ any (λ n. can_start completed in_progress (kinds_or_empty skip) n && test n) nodes)
      × IsSorted (map (λ n. n.id) (ready_nodes nodes completed in_progress skip))
unfolding ready_nodes
ready_nodes-is_exact nodes completed in_progress skip test =
    let ready = is_ready completed in_progress (kinds_or_empty skip) in
    (
      any-sort_by (λ n. n.id) test (keep ready nodes)
          ∙ any-keep test ready nodes
          ∙ any-cong (λ n. ready n && test n)
              (λ n. can_start completed in_progress (kinds_or_empty skip) n && test n)
              (λ n. ground (arith, is_ready-eq completed in_progress (kinds_or_empty skip) n))
              nodes,
      sort_by-IsSorted (λ n. n.id) (keep ready nodes),
    )
