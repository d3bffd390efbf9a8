-- ===== src/Sched/Rank.antt =====
-- `xs.sort(key=lambda c: (-score(c), id(c)))`: the highest score first, and the lowest id among
-- equal scores.
use quikode.Prelude.{
  ℕ, Bool, true, false, ◌&&◌, ◌||◌, List, [], ◌∷◌, ◌++◌, Text, text_le, text_le_total,
  text_le_trans, ltb, nat_eq, all, if◌then◌else◌, ◌≡◌, refl, arith, Bool-cases, inl, inr,
}

module _ {A : Type 0} (score : A → ℕ) (id : A → Text) where
  abbrev pub before : A → A → Bool
  before a b = ltb (score b) (score a) || nat_eq (score a) (score b) && text_le (id a) (id b)

  insert_ranked : A → List A → List A
  insert_ranked a [] = a ∷ []
  insert_ranked a (x ∷ xs) = if before a x then a ∷ x ∷ xs else x ∷ insert_ranked a xs

  unfoldable pub sort_ranked : List A → List A
  unfolding insert_ranked
  sort_ranked [] = []
  sort_ranked (x ∷ xs) = insert_ranked x (sort_ranked xs)

  before_total : (a b : A) → before a b ≡ false → before b a ≡ true
  before_total a b h = ground (arith, text_le_total (id a) (id b))

  before_trans : (a b c : A) → before a b ≡ true → before b c ≡ true → before a c ≡ true
  before_trans a b c h k = ground (arith, text_le_trans (id a) (id b) (id c))

  before_refl : (a : A) → before a a ≡ true
  before_refl a = elim (Bool-cases (before a a)) [ inl e ↦ e | inr e ↦ before_total a a e ]

  all_before :
      (a b : A) (xs : List A)
      → before a b ≡ true
      → all (before b) xs ≡ true
      → all (before a) xs ≡ true
  all_before a b [] h k = refl
  all_before a b (x ∷ xs) h k = ground (arith, before_trans a b x, all_before a b xs)

  -- The first of the sorted list is an element that no element comes before.
  pub sort_ranked-first :
      (x : A) (xs : List A)
      → (best : A) × (rest : List A) × (sort_ranked (x ∷ xs) ≡ best ∷ rest)
        × ((front : List A) × (back : List A) × (x ∷ xs ≡ front ++ best ∷ back))
        × (all (before best) (x ∷ xs) ≡ true)
  unfolding sort_ranked insert_ranked
  sort_ranked-first x [] = (x, [], refl, ([], [], refl), ground (arith, before_refl x))
  sort_ranked-first x (y ∷ ys) =
      let (best, rest, e, (front, back, split), least) = sort_ranked-first y ys in
      elim (Bool-cases (before x best)) [
        | inl lt ↦ (
          x,
          best ∷ rest,
          cc (e, lt),
          ([], y ∷ ys, refl),
          ground (arith, before_refl x, all_before x best (y ∷ ys) lt least),
        )
        | inr ge ↦ (
          best,
          insert_ranked x rest,
          cc (e, ge),
          (x ∷ front, back, cc split),
          ground (arith, before_total x best ge, least),
        )
      ]
