-- ===== src/Walk/Loop.antt =====
-- The loop that `DAG.filter` and `DAG.ancestors_of` share: a stack, and a set of visited ids.
use quikode.Prelude.{
  ℕ, zero, suc, ◌+◌, Option, none, some, List, [], ◌∷◌, ◌++◌, Text, elem, if◌then◌else◌, length,
  reverse,
}

-- `while stack: cur = stack.pop(); if cur in out: continue; out.add(cur); stack.extend(next)`,
-- with fuel. The stack's top is the head of the list; the set keeps the order of insertion.
unfoldable pub walk : (Text → List Text) → ℕ → List Text → List Text → Option (List Text)
walk next fuel [] out = some out
walk next zero (cur ∷ stack) out = none
walk next (suc fuel) (cur ∷ stack) out =
    let skip = walk next fuel stack out in
    let visit = walk next fuel (reverse (next cur) ++ stack) (out ++ cur ∷ []) in
    if elem cur out then skip else visit

-- The pushes that the ids not yet visited can make.
abbrev pub pushes : (Text → List Text) → List Text → List Text → ℕ
pushes next out [] = 0
pushes next out (n ∷ ids) = (if elem n out then 0 else length (next n)) + pushes next out ids
