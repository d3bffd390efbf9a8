-- ===== src/Stacking/Root.antt =====
-- `stack_root` answers on every store, with the least id among the tasks above that have no parents.
use quikode.Prelude.{
  ℕ, zero, suc, ◌+◌, ◌≤◌, true, false, ◌||◌, some, List, [], ◌∷◌, ◌++◌, Text, ◌==◌, ==_iff, ==_refl,
  all, elem, elem-append, length, ◌≡◌, refl, sym, arith, Bool-cases, List-cases, inl, inr, ◌↔◌, ◌⊎◌,
  text_le, if◌then◌else◌, text_le_total, text_le_trans,
}
use quikode.Store.Rows.{Store}
use quikode.Walk.Loop.{pushes}
use quikode.Walk.Closure.{Reach, here, step, Reach-closed}
use quikode.Stacking.Walks.{
  parents_of, task_ids, push_unseen, collect_roots, rounds, min_text, lowest_root, stack_root,
}
use quikode.Stacking.Climb.{elem-push_unseen, climb-fuel, parents_of-unknown}

module _ (parents : Text → List Text) where
  collect-returns :
      (ids : List Text)
      → ((n : Text) → elem n ids ≡ false → parents n ≡ [])
      → (fuel : ℕ) (frontier seen roots : List Text)
      → length frontier + pushes parents seen ids ≤ fuel
      → (r : List Text) × (collect_roots parents fuel frontier seen roots ≡ some r)
  unfolding collect_roots
  collect-returns ids known fuel [] seen roots h = (roots, refl)
  collect-returns ids known zero (cur ∷ frontier) seen roots h = absurd (omega arith)
  collect-returns ids known (suc fuel) (cur ∷ frontier) seen roots h =
      elim (Bool-cases (elem cur seen)) [
        | inl old ↦ rw old (collect-returns ids known fuel frontier seen roots (omega arith))
        | inr new ↦
            let (skip, climb) = climb-fuel parents ids cur seen frontier fuel known new h in
            elim (List-cases (parents cur)) [
              | inl root ↦
                  rw (new, root)
                    (collect-returns ids known fuel frontier (cur ∷ seen) (roots ++ cur ∷ []) skip)
              | inr (p, ps, up) ↦
                  rw (new, up)
                    (collect-returns ids known fuel
                      (push_unseen (parents cur) (cur ∷ seen) frontier) (cur ∷ seen) roots climb)
            ]
      ]

  -- An ancestor without parents.
  abbrev pub RootOver : List Text → Text → Type 0
  RootOver seed n = Reach parents seed n × (parents n ≡ [])

  collect-is_sound :
      (seed : List Text) (fuel : ℕ) (frontier seen roots r : List Text)
      → ((n : Text) → elem n frontier ≡ true → Reach parents seed n)
      → ((n : Text) → elem n roots ≡ true → RootOver seed n)
      → collect_roots parents fuel frontier seen roots ≡ some r
      → (n : Text) → elem n r ≡ true
      → RootOver seed n
  unfolding collect_roots
  collect-is_sound seed fuel [] seen roots r inv rooted e n h = rooted n (ground (arith, e, h))
  collect-is_sound seed zero (cur ∷ frontier) seen roots r inv rooted e n h = cc
  collect-is_sound seed (suc fuel) (cur ∷ frontier) seen roots r inv rooted e n h =
      let met : Reach parents seed cur = inv cur (ground (arith, ==_refl cur)) in
      let rest : (m : Text) → elem m frontier ≡ true → Reach parents seed m =
        λ m k. inv m (ground (arith, k)) in
      elim (Bool-cases (elem cur seen)) [
        | inl old ↦ collect-is_sound seed fuel frontier seen roots r rest rooted (rw old at e) n h
        | inr new ↦ elim (List-cases (parents cur)) [
          | inl root ↦
              collect-is_sound seed fuel frontier (cur ∷ seen) (roots ++ cur ∷ []) r rest
                (λ m k. elim (Bool-cases (cur == m)) [
                  | inl same ↦ rw (sym ((==_iff cur m).0 same)) (met, root)
                  | inr other ↦ rooted m (ground (arith, k, elem-append m roots (cur ∷ [])))
                ])
                (rw (new, root) at e) n h
          | inr (p, ps, up) ↦
              collect-is_sound seed fuel (push_unseen (parents cur) (cur ∷ seen) frontier)
                (cur ∷ seen) roots r
                (λ m k. elim (Bool-cases (elem m (parents cur))) [
                  | inl above ↦ step cur m met above
                  | inr other ↦
                      rest m
                        (ground (arith, k, elem-push_unseen m (parents cur) (cur ∷ seen) frontier))
                ])
                rooted (rw (new, up) at e) n h
        ]
      ]

  -- Some set holds the frontier, is closed under the parents and has its roots in the result.
  collect-is_complete :
      (fuel : ℕ) (frontier seen roots r : List Text)
      → ((m n : Text)
          → elem m seen ≡ true
          → elem n (parents m) ≡ true
          → (elem n seen || elem n frontier) ≡ true)
      → ((m : Text) → elem m seen ≡ true → parents m ≡ [] → elem m roots ≡ true)
      → collect_roots parents fuel frontier seen roots ≡ some r
      → (z : List Text) × ((n : Text) → (elem n seen || elem n frontier) ≡ true → elem n z ≡ true)
        × ((m n : Text) → elem m z ≡ true → elem n (parents m) ≡ true → elem n z ≡ true)
        × ((m : Text) → elem m z ≡ true → parents m ≡ [] → elem m r ≡ true)
  unfolding collect_roots
  collect-is_complete fuel [] seen roots r inv top e = (
    seen,
    λ n h. ground (arith, h),
    λ m n h k. ground (arith, inv m n h k),
    λ m h k. ground (arith, e, top m h k),
  )
  collect-is_complete zero (cur ∷ frontier) seen roots r inv top e = cc
  collect-is_complete (suc fuel) (cur ∷ frontier) seen roots r inv top e =
      elim (Bool-cases (elem cur seen)) [
        | inl old ↦
            let (z, a, b, c) =
              collect-is_complete fuel frontier seen roots r
                (λ m n h k. ground (arith, inv m n h k, ==_iff cur n, old)) top (rw old at e) in
            (z, λ n h. a n (ground (arith, ==_iff cur n, old, h)), b, c)
        | inr new ↦ elim (List-cases (parents cur)) [
          | inl root ↦
              let (z, a, b, c) =
                collect-is_complete fuel frontier (cur ∷ seen) (roots ++ cur ∷ []) r
                  (λ m n h k. ground (arith, h, k, inv m n, ==_iff cur m, root))
                  (λ m h k. ground (arith, h, top m, ==_iff cur m, elem-append m roots (cur ∷ [])))
                  (rw (new, root) at e) in
              (z, λ n h. a n (ground (arith, h)), b, c)
          | inr (p, ps, up) ↦
              let (z, a, b, c) =
                collect-is_complete fuel (push_unseen (parents cur) (cur ∷ seen) frontier)
                  (cur ∷ seen) roots r
                  (λ m n h k. ground (
                    arith,
                    h,
                    k,
                    up,
                    inv m n,
                    ==_iff cur m,
                    elem-push_unseen n (parents cur) (cur ∷ seen) frontier,
                  ))
                  (λ m h k. ground (arith, h, k, up, top m, ==_iff cur m)) (rw (new, up) at e) in
              (
                z,
                λ n h.
                    a n (ground (arith, h, elem-push_unseen n (parents cur) (cur ∷ seen) frontier)),
                b,
                c,
              )
        ]
      ]

-- What the test leaves out is not below the least of the rest.
least-step :
    (m best r : Text) (roots : List Text)
    → elem m ((if text_le best r then best else r) ∷ roots) ≡ true
    → all (text_le m) ((if text_le best r then best else r) ∷ roots) ≡ true
    → (elem m (best ∷ r ∷ roots) ≡ true) × (all (text_le m) (best ∷ r ∷ roots) ≡ true)
least-step m best r roots member least =
    ground
      (arith, member, least, text_le_total best r, text_le_trans m best r, text_le_trans m r best)

-- `min` gives a member that is below all.
min_text-is_least :
    (best : Text) (roots : List Text)
    → (elem (min_text best roots) (best ∷ roots) ≡ true)
      × (all (text_le (min_text best roots)) (best ∷ roots) ≡ true)
unfolding min_text
min_text-is_least best [] = ground (arith, ==_refl best, text_le_total best best)
min_text-is_least best (r ∷ roots) =
    let (a, b) = min_text-is_least (if text_le best r then best else r) roots in
    least-step (min_text (if text_le best r then best else r) roots) best r roots a b

lowest_root-is_least :
    (task_id : Text) (roots : List Text)
    → ((elem (lowest_root task_id roots) roots ≡ true)
        ⊎ ((roots ≡ []) × (lowest_root task_id roots ≡ task_id)))
      × (all (text_le (lowest_root task_id roots)) roots ≡ true)
lowest_root-is_least task_id [] = (inr (refl, refl), refl)
lowest_root-is_least task_id (r ∷ roots) = let (a, b) = min_text-is_least r roots in (inl a, b)

-- On every store, with cycles of parents or without, `stack_root` answers. The tasks above the task,
-- itself included, that have no parents are exactly the ids of a list; the answer is below each of
-- them in the order of texts, and it is one of them, or the task itself when there is none.
pub stack_root-is_lowest :
    (s : Store) (task_id : Text)
    → (r : Text) × (roots : List Text) × (stack_root s task_id ≡ some r)
      × ((n : Text) → (elem n roots ≡ true) ↔ RootOver (parents_of s) (task_id ∷ []) n)
      × ((elem r roots ≡ true) ⊎ ((roots ≡ []) × (r ≡ task_id)))
      × (all (text_le r) roots ≡ true)
unfolding stack_root
stack_root-is_lowest s task_id =
    let (roots, e) =
      collect-returns (parents_of s) (task_ids s) (parents_of-unknown s) (rounds s) (task_id ∷ [])
        [] [] (omega arith) in
    let (z, a, b, c) =
      collect-is_complete (parents_of s) (rounds s) (task_id ∷ []) [] [] roots (λ m n h k. cc)
        (λ m h k. cc) e in
    let (member, least) = lowest_root-is_least task_id roots in
    (
      lowest_root task_id roots,
      roots,
      cc e,
      λ n. (
        collect-is_sound (parents_of s) (task_id ∷ []) (rounds s) (task_id ∷ []) [] [] roots
            (λ m h. here m h) (λ m h. cc) e n,
        λ (up, top).
            c n
              (Reach-closed (parents_of s) (task_id ∷ []) z (λ m h. a m (ground (arith, h))) b n up)
              top,
      ),
      member,
      least,
    )
