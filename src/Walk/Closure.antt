-- ===== src/Walk/Closure.antt =====
-- The walk ends, and what it returns is exactly what can be reached from the stack.
use quikode.Prelude.{
  ℕ, zero, suc, ◌+◌, ◌≤◌, true, false, ◌||◌, some, List, [], ◌∷◌, ◌++◌, Text, ◌==◌, ==_iff, elem,
  elem-append, length, length-append, reverse, reverse_aux, ◌≡◌, refl, arith, Bool-cases, inl, inr,
  ◌↔◌,
}
use quikode.Walk.Loop.{walk, pushes}

length-reverse_aux : (xs ys : List Text) → length (reverse_aux xs ys) ≡ length xs + length ys
length-reverse_aux [] ys = omega arith
length-reverse_aux (x ∷ xs) ys = omega (arith, length-reverse_aux xs (x ∷ ys))

pub length-reverse : (xs : List Text) → length (reverse xs) ≡ length xs
length-reverse xs = omega (arith, length-reverse_aux xs [])

elem-reverse_aux :
    (n : Text) (xs ys : List Text) → elem n (reverse_aux xs ys) ≡ (elem n xs || elem n ys)
elem-reverse_aux n [] ys = refl
elem-reverse_aux n (x ∷ xs) ys = ground (arith, elem-reverse_aux n xs (x ∷ ys))

pub elem-reverse : (n : Text) (xs : List Text) → elem n (reverse xs) ≡ elem n xs
elem-reverse n xs = ground (arith, elem-reverse_aux n xs [])

-- The ids that the successor lists lead to from the ids of a list.
pub data Reach (next : Text → List Text) (seed : List Text) : Text → Type 0 where
  here : (n : Text) → elem n seed ≡ true → Reach next seed n
  step : (m n : Text) → Reach next seed m → elem n (next m) ≡ true → Reach next seed n

module _ (next : Text → List Text) where
  pushes-visit-le :
      (cur : Text) (out ids : List Text) → pushes next (out ++ cur ∷ []) ids ≤ pushes next out ids
  pushes-visit-le cur out [] = omega arith
  pushes-visit-le cur out (n ∷ ids) =
      ground (arith, elem-append n out (cur ∷ []), pushes-visit-le cur out ids)

  pushes-visit :
      (cur : Text) (out ids : List Text)
      → elem cur out ≡ false
      → elem cur ids ≡ true
      → length (next cur) + pushes next (out ++ cur ∷ []) ids ≤ pushes next out ids
  pushes-visit cur out [] new known = cc
  pushes-visit cur out (n ∷ ids) new known = elim (Bool-cases (n == cur)) [
    | inl e ↦
        let same = (==_iff n cur).0 e in
        rw same (
          ground
            (arith, elem-append cur out (cur ∷ []), ==_iff cur cur, pushes-visit-le cur out ids))
    | inr e ↦ ground (arith, elem-append n out (cur ∷ []), pushes-visit cur out ids)
  ]

  -- Fuel for the stack and for all that can still be pushed is enough.
  pub walk-returns :
      (ids : List Text)
      → ((n : Text) → elem n ids ≡ false → next n ≡ [])
      → (fuel : ℕ) (stack out : List Text) → length stack + pushes next out ids ≤ fuel
      → (r : List Text) × (walk next fuel stack out ≡ some r)
  unfolding walk
  walk-returns ids known fuel [] out h = (out, refl)
  walk-returns ids known zero (cur ∷ stack) out h = absurd (omega arith)
  walk-returns ids known (suc fuel) (cur ∷ stack) out h = elim (Bool-cases (elem cur out)) [
    | inl e ↦ rw e (walk-returns ids known fuel stack out (omega arith))
    | inr e ↦ rw e (
        walk-returns ids known fuel (reverse (next cur) ++ stack) (out ++ cur ∷ []) (
          ground (
            arith,
            pushes-visit cur out ids e,
            pushes-visit-le cur out ids,
            known cur,
            length-append (reverse (next cur)) stack,
            length-reverse (next cur),
          )))
  ]

  walk-is_sound :
      (seed : List Text) (fuel : ℕ) (stack out r : List Text)
      → ((n : Text) → (elem n out || elem n stack) ≡ true → Reach next seed n)
      → walk next fuel stack out ≡ some r
      → (n : Text) → elem n r ≡ true
      → Reach next seed n
  unfolding walk
  walk-is_sound seed fuel [] out r inv e n h = inv n (ground (arith, e))
  walk-is_sound seed zero (cur ∷ stack) out r inv e n h = cc
  walk-is_sound seed (suc fuel) (cur ∷ stack) out r inv e n h = elim (Bool-cases (elem cur out)) [
    | inl old ↦
        walk-is_sound seed fuel stack out r (λ m k. inv m (ground (arith, k))) (rw old at e) n h
    | inr new ↦
        walk-is_sound seed fuel (reverse (next cur) ++ stack) (out ++ cur ∷ []) r
          (λ m k. elim (Bool-cases (elem m (next cur))) [
            | inl kid ↦ step cur m (inv cur (ground (arith, ==_iff cur cur))) kid
            | inr other ↦ inv m (
                ground (
                  arith,
                  k,
                  elem-append m out (cur ∷ []),
                  elem-append m (reverse (next cur)) stack,
                  elem-reverse m (next cur),
                ))
          ])
          (rw new at e) n h
  ]

  -- What the walk returns holds the stack and is closed under the successors.
  walk-is_closed :
      (fuel : ℕ) (stack out r : List Text)
      → ((m n : Text)
          → elem m out ≡ true
          → elem n (next m) ≡ true
          → (elem n out || elem n stack) ≡ true)
      → walk next fuel stack out ≡ some r
      → ((n : Text) → (elem n out || elem n stack) ≡ true → elem n r ≡ true)
        × ((m n : Text) → elem m r ≡ true → elem n (next m) ≡ true → elem n r ≡ true)
  unfolding walk
  walk-is_closed fuel [] out r inv e =
      (λ n h. ground (arith, e), λ m n h k. ground (arith, e, inv m n))
  walk-is_closed zero (cur ∷ stack) out r inv e = cc
  walk-is_closed (suc fuel) (cur ∷ stack) out r inv e = elim (Bool-cases (elem cur out)) [
    | inl old ↦
        let (a, b) =
          walk-is_closed fuel stack out r
            (λ m n h k. ground (arith, inv m n h k, ==_iff cur n, old)) (rw old at e) in
        (λ n h. a n (ground (arith, ==_iff cur n, old)), b)
    | inr new ↦
        let (a, b) =
          walk-is_closed fuel (reverse (next cur) ++ stack) (out ++ cur ∷ []) r
            (λ m n h k. ground (
              arith,
              inv m n,
              ==_iff cur m,
              elem-append m out (cur ∷ []),
              elem-append n out (cur ∷ []),
              elem-append n (reverse (next cur)) stack,
              elem-reverse n (next cur),
            ))
            (rw new at e) in
        (
          λ n h. a n (
              ground
                (arith, elem-append n out (cur ∷ []), elem-append n (reverse (next cur)) stack)),
          b,
        )
  ]

  pub Reach-closed :
      (seed r : List Text)
      → ((n : Text) → elem n seed ≡ true → elem n r ≡ true)
      → ((m n : Text) → elem m r ≡ true → elem n (next m) ≡ true → elem n r ≡ true)
      → (n : Text) → Reach next seed n
      → elem n r ≡ true
  Reach-closed seed r a b n (here _ h) = a n h
  Reach-closed seed r a b n (step m _ h k) = b m n (Reach-closed seed r a b m h) k

  -- With fuel enough the walk from a seed returns exactly what the seed reaches.
  pub walk-is_closure :
      (ids seed : List Text)
      → ((n : Text) → elem n ids ≡ false → next n ≡ [])
      → (fuel : ℕ) → length seed + pushes next [] ids ≤ fuel
      → (r : List Text) × (walk next fuel (reverse seed) [] ≡ some r)
        × ((n : Text) → (elem n r ≡ true) ↔ Reach next seed n)
  walk-is_closure ids seed known fuel h =
      let (r, e) =
        walk-returns ids known fuel (reverse seed) [] (omega (arith, length-reverse seed)) in
      let (a, b) = walk-is_closed fuel (reverse seed) [] r (λ m n x y. cc) e in
      (
        r,
        e,
        λ n. (
          walk-is_sound seed fuel (reverse seed) [] r
              (λ m k. here m (ground (arith, elem-reverse m seed, k))) e n,
          Reach-closed seed r (λ m k. a m (ground (arith, elem-reverse m seed))) b n,
        ),
      )
