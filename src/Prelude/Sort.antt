-- ===== src/Prelude/Sort.antt =====
-- Python's order of texts, and `sorted`.
use Prim.Native.Nat.{suc}
use mathlib.Core.Path.{◌≡◌, refl}
use mathlib.Core.Bool.{Bool, true, false, ◌&&◌, ◌||◌}
use mathlib.Core.List.{List, [], ◌∷◌, map}
use mathlib.Core.Logic.{inl, inr}
use native.Mathlib.Omega.{arith}
use quikode.Prelude.Tests.{ltb, nat_eq, if◌then◌else◌, Bool-cases}
use quikode.Prelude.Lists.{length, any, All}
use quikode.Prelude.Texts.{Text, count}

-- Texts are compared code point by code point, and a proper prefix comes first.
unfoldable pub text_le : Text → Text → Bool
text_le [] t = true
text_le (x ∷ s) [] = false
text_le (x ∷ s) (y ∷ t) = ltb x y || nat_eq x y && text_le s t

pub text_le_total : (s t : Text) → text_le s t ≡ false → text_le t s ≡ true
unfolding text_le
text_le_total [] t h = cc
text_le_total (x ∷ s) [] h = refl
text_le_total (x ∷ s) (y ∷ t) h = ground (arith, text_le_total s t)

pub text_le_antisymm : (s t : Text) → text_le s t ≡ true → text_le t s ≡ true → s ≡ t
unfolding text_le
text_le_antisymm [] [] h k = refl
text_le_antisymm [] (y ∷ t) h k = cc
text_le_antisymm (x ∷ s) [] h k = cc
text_le_antisymm (x ∷ s) (y ∷ t) h k = ground (arith, text_le_antisymm s t)

pub text_le_trans : (s t u : Text) → text_le s t ≡ true → text_le t u ≡ true → text_le s u ≡ true
unfolding text_le
text_le_trans [] t u h k = refl
text_le_trans (x ∷ s) [] u h k = cc
text_le_trans (x ∷ s) (y ∷ t) [] h k = cc
text_le_trans (x ∷ s) (y ∷ t) (z ∷ u) h k = ground (arith, text_le_trans s t u)

unfoldable pub insert_sorted : Text → List Text → List Text
insert_sorted s [] = s ∷ []
insert_sorted s (x ∷ xs) = if text_le s x then s ∷ x ∷ xs else x ∷ insert_sorted s xs

unfoldable pub sort : List Text → List Text
unfolding insert_sorted
sort [] = []
sort (x ∷ xs) = insert_sorted x (sort xs)

count-insert_sorted :
    (k s : Text) (xs : List Text) → count k (insert_sorted s xs) ≡ count k (s ∷ xs)
unfolding insert_sorted
count-insert_sorted k s [] = refl
count-insert_sorted k s (x ∷ xs) = ground (arith, count-insert_sorted k s xs)

-- Sorting keeps every text, as often as it stood there.
pub count-sort : (k : Text) (xs : List Text) → count k (sort xs) ≡ count k xs
unfolding sort
count-sort k [] = refl
count-sort k (x ∷ xs) = ground (arith, count-insert_sorted k x (sort xs), count-sort k xs)

length-insert_sorted : (s : Text) (xs : List Text) → length (insert_sorted s xs) ≡ suc (length xs)
unfolding insert_sorted
length-insert_sorted s [] = refl
length-insert_sorted s (x ∷ xs) = ground (arith, length-insert_sorted s xs)

pub length-sort : (xs : List Text) → length (sort xs) ≡ length xs
unfolding sort
length-sort [] = refl
length-sort (x ∷ xs) = ground (arith, length-insert_sorted x (sort xs), length-sort xs)

-- `xs.sort(key=key)`: an insertion sort that keeps the order of equal keys.
module _ {ℓ} {A : Type ℓ} (key : A → Text) where
  insert_by : A → List A → List A
  insert_by a [] = a ∷ []
  insert_by a (x ∷ xs) = if text_le (key a) (key x) then a ∷ x ∷ xs else x ∷ insert_by a xs

  unfoldable pub sort_by : List A → List A
  unfolding insert_by
  sort_by [] = []
  sort_by (x ∷ xs) = insert_by x (sort_by xs)

  any-insert_by : (p : A → Bool) (a : A) (xs : List A) → any p (insert_by a xs) ≡ (p a || any p xs)
  unfolding insert_by
  any-insert_by p a [] = refl
  any-insert_by p a (x ∷ xs) = ground (arith, any-insert_by p a xs)

  -- Sorting keeps which elements there are.
  pub any-sort_by : (p : A → Bool) (xs : List A) → any p (sort_by xs) ≡ any p xs
  unfolding sort_by
  any-sort_by p [] = refl
  any-sort_by p (x ∷ xs) = ground (arith, any-insert_by p x (sort_by xs), any-sort_by p xs)

-- Every text is at most the next.
abbrev pub IsSorted : List Text → Type 0
IsSorted [] = Unit
IsSorted (x ∷ []) = Unit
IsSorted (x ∷ y ∷ xs) = (text_le x y ≡ true) × IsSorted (y ∷ xs)

module _ {ℓ} {A : Type ℓ} (key : A → Text) where
  insert_by-IsSorted :
      (a : A) (xs : List A) → IsSorted (map key xs) → IsSorted (map key (insert_by key a xs))
  unfolding insert_by
  insert_by-IsSorted a [] h = tt
  insert_by-IsSorted a (x ∷ []) h = elim (Bool-cases (text_le (key a) (key x))) [
    | inl le ↦ rw le (le, tt)
    | inr gt ↦ rw gt (text_le_total (key a) (key x) gt, tt)
  ]
  insert_by-IsSorted a (x ∷ y ∷ xs) (xy, h) = elim (Bool-cases (text_le (key a) (key x))) [
    | inl le ↦ rw le (le, (xy, h))
    | inr gt ↦
        let rest = insert_by-IsSorted a (y ∷ xs) h in
        elim (Bool-cases (text_le (key a) (key y))) [
          | inl le ↦ rw (gt, le) (text_le_total (key a) (key x) gt, (le, h))
          | inr gt' ↦ rw (gt, gt') (xy, rw gt' at rest)
        ]
  ]

  pub sort_by-IsSorted : (xs : List A) → IsSorted (map key (sort_by key xs))
  unfolding sort_by
  sort_by-IsSorted [] = tt
  sort_by-IsSorted (x ∷ xs) = insert_by-IsSorted x (sort_by key xs) (sort_by-IsSorted xs)

module _ {ℓ} {A : Type ℓ} (key : A → Text) where
  count-insert_by :
      (k : Text) (a : A) (xs : List A)
      → count k (map key (insert_by key a xs)) ≡ count k (key a ∷ map key xs)
  unfolding insert_by
  count-insert_by k a [] = refl
  count-insert_by k a (x ∷ xs) = ground (arith, count-insert_by k a xs)

  -- Sorting keeps every key, as often as it stood there.
  pub count-sort_by :
      (k : Text) (xs : List A) → count k (map key (sort_by key xs)) ≡ count k (map key xs)
  unfolding sort_by
  count-sort_by k [] = refl
  count-sort_by k (x ∷ xs) =
      ground (arith, count-insert_by k x (sort_by key xs), count-sort_by k xs)

  All-insert_by :
      (P : A → Type 0) (a : A) (xs : List A) → P a → All P xs → All P (insert_by key a xs)
  unfolding insert_by
  All-insert_by P a [] p h = (p, tt)
  All-insert_by P a (x ∷ xs) p (q, h) = elim (Bool-cases (text_le (key a) (key x))) [
    | inl e ↦ rw e (p, (q, h))
    | inr e ↦ rw e (q, All-insert_by P a xs p h)
  ]

  -- What all elements have, all elements of the sorted list have.
  pub All-sort_by : (P : A → Type 0) (xs : List A) → All P xs → All P (sort_by key xs)
  unfolding sort_by
  All-sort_by P [] h = tt
  All-sort_by P (x ∷ xs) (p, h) = All-insert_by P x (sort_by key xs) p (All-sort_by P xs h)
