-- ===== src/Stacking/Climb.antt =====
-- What the walks up the parents share: what they push, and fuel for it.
use quikode.Prelude.{
  ℕ, suc, ◌+◌, ◌≤◌, Bool, true, false, not, ◌&&◌, ◌||◌, none, List, [], ◌∷◌, map, reverse, Text,
  ==_iff, elem, elem-append, keep, length, length-append, ◌≡◌, refl, arith,
}
use quikode.Store.Rows.{TaskRow, Store}
use quikode.Store.Tasks.{select}
use quikode.Walk.Loop.{pushes}
use quikode.Walk.Closure.{elem-reverse, length-reverse}
use quikode.Stacking.Walks.{parents_of, task_ids, push_unseen}

pub elem-keep :
    (p : Text → Bool) (n : Text) (xs : List Text) → elem n (keep p xs) ≡ (elem n xs && p n)
elem-keep p n [] = refl
elem-keep p n (x ∷ xs) = ground (arith, ==_iff x n, elem-keep p n xs)

length-keep : (p : Text → Bool) (xs : List Text) → length (keep p xs) ≤ length xs
length-keep p [] = omega arith
length-keep p (x ∷ xs) = ground (arith, length-keep p xs)

pub elem-push_unseen :
    (n : Text) (ps seen frontier : List Text)
    → elem n (push_unseen ps seen frontier) ≡ ((elem n ps && not (elem n seen)) || elem n frontier)
elem-push_unseen n ps seen frontier = ground (
  arith,
  elem-append n (reverse (keep (λ p. not (elem p seen)) ps)) frontier,
  elem-reverse n (keep (λ p. not (elem p seen)) ps),
  elem-keep (λ p. not (elem p seen)) n ps,
)

length-push_unseen :
    (ps seen frontier : List Text)
    → length (push_unseen ps seen frontier) ≤ length ps + length frontier
length-push_unseen ps seen frontier = ground (
  arith,
  length-append (reverse (keep (λ p. not (elem p seen)) ps)) frontier,
  length-reverse (keep (λ p. not (elem p seen)) ps),
  length-keep (λ p. not (elem p seen)) ps,
)

select-unknown :
    (n : Text) (rows : List TaskRow) → elem n (map (λ r. r.id) rows) ≡ false → select n rows ≡ none
unfolding select
select-unknown n [] h = refl
select-unknown n (r ∷ rows) h = ground (arith, select-unknown n rows)

-- An id without a row has no parents.
pub parents_of-unknown : (s : Store) (n : Text) → elem n (task_ids s) ≡ false → parents_of s n ≡ []
unfolding parents_of
parents_of-unknown s n h = cc (select-unknown n s.tasks h)

module _ (next : Text → List Text) where
  pushes-seen-le :
      (cur : Text) (seen ids : List Text) → pushes next (cur ∷ seen) ids ≤ pushes next seen ids
  pushes-seen-le cur seen [] = omega arith
  pushes-seen-le cur seen (n ∷ ids) = ground (arith, pushes-seen-le cur seen ids)

  pushes-seen :
      (cur : Text) (seen ids : List Text)
      → elem cur seen ≡ false
      → elem cur ids ≡ true
      → length (next cur) + pushes next (cur ∷ seen) ids ≤ pushes next seen ids
  pushes-seen cur seen [] new known = cc
  pushes-seen cur seen (n ∷ ids) new known =
      ground
        (arith, ==_iff n cur, ==_iff cur n, pushes-seen cur seen ids, pushes-seen-le cur seen ids)

  -- A climb costs one unit of fuel and leaves enough for all that it pushed.
  pub climb-fuel :
      (ids : List Text) (cur : Text) (seen frontier : List Text) (fuel : ℕ)
      → ((n : Text) → elem n ids ≡ false → next n ≡ [])
      → elem cur seen ≡ false
      → suc (length frontier) + pushes next seen ids ≤ suc fuel
      → (length frontier + pushes next (cur ∷ seen) ids ≤ fuel)
        × (length (push_unseen (next cur) (cur ∷ seen) frontier) + pushes next (cur ∷ seen) ids
            ≤ fuel)
  climb-fuel ids cur seen frontier fuel known new h = ground (
    arith,
    pushes-seen cur seen ids new,
    pushes-seen-le cur seen ids,
    known cur,
    length-push_unseen (next cur) (cur ∷ seen) frontier,
  )
