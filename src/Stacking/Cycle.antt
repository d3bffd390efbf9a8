-- ===== src/Stacking/Cycle.antt =====
-- `would_form_cycle` answers on every store, and says whether the child is an ancestor of the parent.
use quikode.Prelude.{
  ℕ, zero, suc, ◌+◌, ◌≤◌, Bool, true, false, ◌||◌, some, List, [], ◌∷◌, Text, ◌==◌, ==_iff, ==_comm,
  elem, length, ◌≡◌, refl, sym, arith, Bool-cases, inl, inr, ◌↔◌,
}
use quikode.Store.Rows.{Store}
use quikode.Walk.Loop.{pushes}
use quikode.Walk.Closure.{Reach, here, step, Reach-closed}
use quikode.Stacking.Walks.{parents_of, task_ids, push_unseen, meets, rounds, would_form_cycle}
use quikode.Stacking.Climb.{elem-push_unseen, climb-fuel, parents_of-unknown}

module _ (parents : Text → List Text) (child : Text) where
  meets-returns :
      (ids : List Text)
      → ((n : Text) → elem n ids ≡ false → parents n ≡ [])
      → (fuel : ℕ) (frontier seen : List Text) → length frontier + pushes parents seen ids ≤ fuel
      → (b : Bool) × (meets parents child fuel frontier seen ≡ some b)
  unfolding meets
  meets-returns ids known fuel [] seen h = (false, refl)
  meets-returns ids known zero (cur ∷ frontier) seen h = absurd (omega arith)
  meets-returns ids known (suc fuel) (cur ∷ frontier) seen h = elim (Bool-cases (elem cur seen)) [
    | inl old ↦ rw old (meets-returns ids known fuel frontier seen (omega arith))
    | inr new ↦ elim (Bool-cases (cur == child)) [
      | inl same ↦ rw (new, same) (true, refl)
      | inr other ↦
          rw (new, other)
            (meets-returns ids known fuel (push_unseen (parents cur) (cur ∷ seen) frontier)
              (cur ∷ seen) (climb-fuel parents ids cur seen frontier fuel known new h).1)
    ]
  ]

  -- A meeting is with an id that the seed reaches.
  meets-is_sound :
      (seed : List Text) (fuel : ℕ) (frontier seen : List Text)
      → ((n : Text) → elem n frontier ≡ true → Reach parents seed n)
      → meets parents child fuel frontier seen ≡ some true
      → Reach parents seed child
  unfolding meets
  meets-is_sound seed fuel [] seen inv e = cc
  meets-is_sound seed zero (cur ∷ frontier) seen inv e = cc
  meets-is_sound seed (suc fuel) (cur ∷ frontier) seen inv e = elim (Bool-cases (elem cur seen)) [
    | inl old ↦
        meets-is_sound seed fuel frontier seen (λ n h. inv n (ground (arith, h))) (rw old at e)
    | inr new ↦ elim (Bool-cases (cur == child)) [
      | inl same ↦ rw (sym ((==_iff cur child).0 same)) (inv cur (ground (arith, ==_iff cur cur)))
      | inr other ↦
          meets-is_sound seed fuel (push_unseen (parents cur) (cur ∷ seen) frontier) (cur ∷ seen)
            (λ n h. elim (Bool-cases (elem n (parents cur))) [
              | inl up ↦ step cur n (inv cur (ground (arith, ==_iff cur cur))) up
              | inr no_parent ↦
                  inv n (ground (arith, h, elem-push_unseen n (parents cur) (cur ∷ seen) frontier))
            ])
            (rw (new, other) at e)
    ]
  ]

  -- Without a meeting, some set holds the frontier, is closed under the parents and lacks the child.
  meets-is_complete :
      (fuel : ℕ) (frontier seen : List Text)
      → ((m n : Text)
          → elem m seen ≡ true
          → elem n (parents m) ≡ true
          → (elem n seen || elem n frontier) ≡ true)
      → elem child seen ≡ false
      → meets parents child fuel frontier seen ≡ some false
      → (r : List Text) × ((n : Text) → (elem n seen || elem n frontier) ≡ true → elem n r ≡ true)
        × ((m n : Text) → elem m r ≡ true → elem n (parents m) ≡ true → elem n r ≡ true)
        × (elem child r ≡ false)
  unfolding meets
  meets-is_complete fuel [] seen inv out e =
      (seen, λ n h. ground (arith, h), λ m n h k. ground (arith, inv m n h k), out)
  meets-is_complete zero (cur ∷ frontier) seen inv out e = cc
  meets-is_complete (suc fuel) (cur ∷ frontier) seen inv out e = elim (Bool-cases (elem cur seen)) [
    | inl old ↦
        let (r, a, b, c) =
          meets-is_complete fuel frontier seen
            (λ m n h k. ground (arith, inv m n h k, ==_iff cur n, old)) out (rw old at e) in
        (r, λ n h. a n (ground (arith, ==_iff cur n, old, h)), b, c)
    | inr new ↦ elim (Bool-cases (cur == child)) [
      | inl same ↦ cc (rw (new, same) at e)
      | inr other ↦
          let (r, a, b, c) =
            meets-is_complete fuel (push_unseen (parents cur) (cur ∷ seen) frontier) (cur ∷ seen)
              (λ m n h k. ground (
                arith,
                h,
                k,
                inv m n,
                ==_iff cur m,
                elem-push_unseen n (parents cur) (cur ∷ seen) frontier,
              ))
              (ground (arith, out, other)) (rw (new, other) at e) in
          (
            r,
            λ n h. a n (ground (arith, h, elem-push_unseen n (parents cur) (cur ∷ seen) frontier)),
            b,
            c,
          )
    ]
  ]

-- The walk from the parent answers, and true exactly when the child is the parent or above it.
meets-answers :
    (s : Store) (child parent : Text)
    → (b : Bool) × (meets (parents_of s) child (rounds s) (parent ∷ []) [] ≡ some b)
      × ((b ≡ true) ↔ Reach (parents_of s) (parent ∷ []) child)
meets-answers s child parent =
    let (b, e) =
      meets-returns (parents_of s) child (task_ids s) (parents_of-unknown s) (rounds s)
        (parent ∷ []) [] (omega arith) in
    (
      b,
      e,
      (
        λ t.
            meets-is_sound (parents_of s) child (parent ∷ []) (rounds s) (parent ∷ []) []
              (λ n h. here n h) (rw t at e),
        λ up. elim (Bool-cases b) [
          | inl t ↦ t
          | inr f ↦
              let (r, a, c, out) =
                meets-is_complete (parents_of s) child (rounds s) (parent ∷ []) [] (λ m n h k. cc)
                  refl (rw f at e) in
              cc (
                Reach-closed (parents_of s) (parent ∷ []) r (λ n h. a n (ground (arith, h))) c child
                    up,
                out,
              )
        ],
      ),
    )

-- On every store, with cycles of parents or without, `would_form_cycle` answers, and it answers true
-- exactly when the child is the prospective parent or is reached from it by going up from tasks to
-- their parents.
pub would_form_cycle_iff_above :
    (s : Store) (child_id parent_id : Text)
    → (b : Bool) × (would_form_cycle s child_id parent_id ≡ some b)
      × ((b ≡ true) ↔ Reach (parents_of s) (parent_id ∷ []) child_id)
unfolding would_form_cycle
would_form_cycle_iff_above s child_id parent_id = elim (Bool-cases (child_id == parent_id)) [
  | inl e ↦
      rw e (
        true,
        refl,
        (λ t. here child_id (ground (arith, e, ==_comm child_id parent_id)), λ up. refl),
      )
  | inr e ↦ rw e (meets-answers s child_id parent_id)
]
