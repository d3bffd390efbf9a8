-- ===== src/Merge/Loop.antt =====
-- The rows that `merge_nodes_with_parent` selects, and what a loop over them may rely on.
use quikode.Prelude.{
  Bool, true, false, Option, none, some, List, [], ◌∷◌, map, Text, ◌==◌, ==_iff, ==_refl, ==_comm,
  elem, count, elem_iff_count, IsUnique, keep, sort_by, count-sort_by, All-sort_by, All, ◌≡◌, refl,
  arith, ◌≤◌, Bool-cases, inl, inr, ◌⊎◌,
}
use quikode.Store.Rows.{TaskRow, Store}
use quikode.Store.Tasks.{select}

abbrev pub row_ids : List TaskRow → List Text
row_ids rows = map (λ r. r.id) rows

-- The row stands in the store under its own id.
abbrev pub IsStored : Store → TaskRow → Type 0
IsStored s r = select r.id s.tasks ≡ some r

pub head-IsUnique : (i : Text) (ids : List Text) → IsUnique (i ∷ ids) → elem i ids ≡ false
head-IsUnique i ids u = ground (arith, u i, elem_iff_count i ids, ==_refl i)

pub tail-IsUnique : (i : Text) (ids : List Text) → IsUnique (i ∷ ids) → IsUnique ids
tail-IsUnique i ids u j = ground (arith, u j)

count-keep :
    (q : TaskRow → Bool) (j : Text) (rows : List TaskRow)
    → count j (row_ids (keep q rows)) ≤ count j (row_ids rows)
count-keep q j [] = omega arith
count-keep q j (r ∷ rows) = ground (arith, count-keep q j rows)

pub rows-IsUnique :
    (q : TaskRow → Bool) (rows : List TaskRow)
    → IsUnique (row_ids rows)
    → IsUnique (row_ids (sort_by (λ r. r.id) (keep q rows)))
rows-IsUnique q rows u j =
    omega (arith, u j, count-keep q j rows, count-sort_by (λ (r : TaskRow). r.id) j (keep q rows))

abbrev pub holds : (TaskRow → Bool) → Option TaskRow → Bool
holds q none = false
holds q (some r) = q r

absent-keep :
    (q : TaskRow → Bool) (j : Text) (rows : List TaskRow)
    → elem j (row_ids rows) ≡ false
    → elem j (row_ids (keep q rows)) ≡ false
absent-keep q j [] h = refl
absent-keep q j (r ∷ rows) h = ground (arith, absent-keep q j rows)

-- An id is among the rows that pass exactly when its own row passes.
elem-keep_iff :
    (q : TaskRow → Bool) (j : Text) (rows : List TaskRow)
    → IsUnique (row_ids rows)
    → elem j (row_ids (keep q rows)) ≡ holds q (select j rows)
unfolding select
elem-keep_iff q j [] u = refl
elem-keep_iff q j (r ∷ rows) u = elim (Bool-cases (r.id == j)) [
  | inl same ↦
      let alone : elem j (row_ids rows) ≡ false =
        ground (arith, (==_iff r.id j).0 same, head-IsUnique r.id (row_ids rows) u) in
      ground (arith, same, absent-keep q j rows alone)
  | inr other ↦ ground (arith, other, elem-keep_iff q j rows (tail-IsUnique r.id (row_ids rows) u))
]

pub elem_rows :
    (q : TaskRow → Bool) (j : Text) (rows : List TaskRow)
    → IsUnique (row_ids rows)
    → elem j (row_ids (sort_by (λ r. r.id) (keep q rows))) ≡ holds q (select j rows)
elem_rows q j rows u = ground (
  arith,
  elem-keep_iff q j rows u,
  elem_iff_count j (row_ids (sort_by (λ r. r.id) (keep q rows))),
  elem_iff_count j (row_ids (keep q rows)),
  count-sort_by (λ (r : TaskRow). r.id) j (keep q rows),
)

-- Rows under ids of their own are found there.
later-IsStored :
    (r : TaskRow) (rows later : List TaskRow)
    → elem r.id (row_ids later) ≡ false
    → All (λ x. select x.id rows ≡ some x) later
    → All (λ x. select x.id (r ∷ rows) ≡ some x) later
unfolding select
later-IsStored r rows [] alone h = tt
later-IsStored r rows (x ∷ later) alone (e, h) = (
  ground (arith, e, alone, ==_comm r.id x.id),
  later-IsStored r rows later (ground (arith, alone)) h,
)

rows-IsStored :
    (rows : List TaskRow) → IsUnique (row_ids rows) → All (λ x. select x.id rows ≡ some x) rows
unfolding select
rows-IsStored [] u = tt
rows-IsStored (r ∷ rows) u = (
  ground (arith, ==_refl r.id),
  later-IsStored r rows rows (head-IsUnique r.id (row_ids rows) u)
      (rows-IsStored rows (tail-IsUnique r.id (row_ids rows) u)),
)

All-keep :
    (P : TaskRow → Type 0) (q : TaskRow → Bool) (rows : List TaskRow)
    → All P rows
    → All (λ r. P r × (q r ≡ true)) (keep q rows)
All-keep P q [] h = tt
All-keep P q (r ∷ rows) (p, h) = elim (Bool-cases (q r)) [
  | inl e ↦ rw e ((p, e), All-keep P q rows h)
  | inr e ↦ rw e (All-keep P q rows h)
]

-- The selected rows are stored and pass the test.
pub selected :
    (q : TaskRow → Bool) (rows : List TaskRow)
    → IsUnique (row_ids rows)
    → All (λ r. (select r.id rows ≡ some r) × (q r ≡ true)) (sort_by (λ r. r.id) (keep q rows))
selected q rows u =
    All-sort_by (λ r. r.id) (λ r. (select r.id rows ≡ some r) × (q r ≡ true)) (keep q rows)
      (All-keep (λ r. select r.id rows ≡ some r) q rows (rows-IsStored rows u))

-- A statement on another row leaves the later rows as they are.
pub after-IsStored :
    (q : TaskRow → Bool) (i : Text) (s s' : Store) (rows : List TaskRow)
    → elem i (row_ids rows) ≡ false
    → ((j : Text) → (i ≡ j) ⊎ (select j s'.tasks ≡ select j s.tasks))
    → All (λ r. IsStored s r × (q r ≡ true)) rows
    → All (λ r. IsStored s' r × (q r ≡ true)) rows
after-IsStored q i s s' [] alone same h = tt
after-IsStored q i s s' (r ∷ rows) alone same ((e, p), h) = (
  (ground (arith, e, alone, same r.id, ==_comm i r.id, ==_iff r.id i), p),
  after-IsStored q i s s' rows (ground (arith, alone)) same h,
)
