-- ===== src/Merge/Sorted.antt =====
-- `sorted` depends only on which texts a list has, and how often.
use quikode.Prelude.{
  true, List, [], ◌∷◌, Text, ◌==◌, ==_iff, ==_refl, elem, count, elem_iff_count, all, sort,
  insert_sorted, count-sort, text_le, text_le_total, text_le_antisymm, text_le_trans, ◌≡◌, refl,
  sym, arith, Bool-cases, inl, inr,
}

-- Every text is at most all that follow.
abbrev Ascends : List Text → Type 0
Ascends [] = Unit
Ascends (x ∷ xs) = (all (text_le x) xs ≡ true) × Ascends xs

all-le :
    (x y : Text) (xs : List Text)
    → text_le x y ≡ true
    → all (text_le y) xs ≡ true
    → all (text_le x) xs ≡ true
all-le x y [] h k = refl
all-le x y (z ∷ xs) h k = ground (arith, text_le_trans x y z, all-le x y xs)

all-insert_sorted :
    (x s : Text) (xs : List Text)
    → text_le x s ≡ true
    → all (text_le x) xs ≡ true
    → all (text_le x) (insert_sorted s xs) ≡ true
unfolding insert_sorted
all-insert_sorted x s [] h k = ground (arith, h)
all-insert_sorted x s (y ∷ xs) h k = ground (arith, h, all-insert_sorted x s xs)

Ascends-insert_sorted : (s : Text) (xs : List Text) → Ascends xs → Ascends (insert_sorted s xs)
unfolding insert_sorted
Ascends-insert_sorted s [] h = (refl, tt)
Ascends-insert_sorted s (x ∷ xs) (le, h) = elim (Bool-cases (text_le s x)) [
  | inl e ↦ rw e (ground (arith, e, all-le s x xs e le), (le, h))
  | inr e ↦ rw e (all-insert_sorted x s xs (text_le_total s x e) le, Ascends-insert_sorted s xs h)
]

Ascends-sort : (xs : List Text) → Ascends (sort xs)
unfolding sort
Ascends-sort [] = tt
Ascends-sort (x ∷ xs) = Ascends-insert_sorted x (sort xs) (Ascends-sort xs)

le_of_elem :
    (x y : Text) (xs : List Text)
    → all (text_le x) xs ≡ true
    → elem y xs ≡ true
    → text_le x y ≡ true
le_of_elem x y [] h e = cc
le_of_elem x y (z ∷ xs) h e = ground (arith, ==_iff z y, le_of_elem x y xs)

-- Of two ascending lists with the same texts, the first is at most every text of the second.
head-le :
    (x y : Text) (xs ys : List Text)
    → all (text_le x) xs ≡ true
    → ((k : Text) → count k (x ∷ xs) ≡ count k (y ∷ ys))
    → text_le x y ≡ true
head-le x y xs ys h same = elim (Bool-cases (x == y)) [
  | inl e ↦ ground (arith, (==_iff x y).0 e, text_le_total x x)
  | inr e ↦ le_of_elem x y xs h ((elem_iff_count y xs).1 (ground (arith, same y, e, ==_refl y)))
]

ascending-eq :
    (xs ys : List Text) → Ascends xs → Ascends ys → ((k : Text) → count k xs ≡ count k ys) → xs ≡ ys
ascending-eq [] [] h k same = refl
ascending-eq [] (y ∷ ys) h k same = absurd (ground (arith, same y, ==_refl y))
ascending-eq (x ∷ xs) [] h k same = absurd (ground (arith, same x, ==_refl x))
ascending-eq (x ∷ xs) (y ∷ ys) (h, hs) (k, ks) same =
    let e : x ≡ y =
      text_le_antisymm x y (head-le x y xs ys h same) (head-le y x ys xs k (λ t. sym (same t))) in
    let rest : xs ≡ ys = ascending-eq xs ys hs ks (λ t. ground (arith, same t, e)) in cc (e, rest)

pub sort_of_counts :
    (xs ys : List Text) → ((k : Text) → count k xs ≡ count k ys) → sort xs ≡ sort ys
sort_of_counts xs ys same =
    ascending-eq (sort xs) (sort ys) (Ascends-sort xs) (Ascends-sort ys)
      (λ k. omega (arith, same k, count-sort k xs, count-sort k ys))
