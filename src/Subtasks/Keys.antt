-- ===== src/Subtasks/Keys.antt =====
-- How often a key of the subtasks table stands in it.
use quikode.Prelude.{
  ℕ, suc, ◌+◌, ◌≤◌, false, [], ◌∷◌, ◌++◌, Text, map, any, if◌then◌else◌, ◌≡◌, refl, arith, ◌↔◌,
}
use quikode.Subtasks.Table.{SubtaskRow, Table, has_key}

abbrev pub count_key : Text → Text → Table → ℕ
count_key k i [] = 0
count_key k i (r ∷ t) = if has_key k i r then suc (count_key k i t) else count_key k i t

-- UNIQUE(task_id, subtask_id)
abbrev pub IsKeyed : Table → Type 0
IsKeyed t = (k i : Text) → count_key k i t ≤ 1

pub count_key-append :
    (k i : Text) (t u : Table) → count_key k i (t ++ u) ≡ count_key k i t + count_key k i u
count_key-append k i [] u = omega arith
count_key-append k i (r ∷ t) u = ground (arith, count_key-append k i t u)

pub any-key : (k i : Text) (t : Table) → (any (has_key k i) t ≡ false) ↔ (count_key k i t ≡ 0)
any-key k i [] = ground arith
any-key k i (r ∷ t) = ground (arith, any-key k i t)

count_key-map :
    (k i : Text) (f : SubtaskRow → SubtaskRow) (t : Table)
    → ((r : SubtaskRow) → ((f r).task_id ≡ r.task_id) × ((f r).subtask_id ≡ r.subtask_id))
    → count_key k i (map f t) ≡ count_key k i t
count_key-map k i f [] keeps = refl
count_key-map k i f (r ∷ t) keeps = ground (arith, keeps r, count_key-map k i f t keeps)

pub map-IsKeyed :
    (f : SubtaskRow → SubtaskRow) (t : Table)
    → ((r : SubtaskRow) → ((f r).task_id ≡ r.task_id) × ((f r).subtask_id ≡ r.subtask_id))
    → IsKeyed t
    → IsKeyed (map f t)
map-IsKeyed f t keeps keyed k i = omega (arith, keyed k i, count_key-map k i f t keeps)
