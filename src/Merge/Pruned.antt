-- ===== src/Merge/Pruned.antt =====
-- What a merge node's row is to hold after a parent merged, by itself and against the code's `pop`s.
use quikode.Prelude.{true, some, List, [], ◌∷◌, Text, ◌==◌, elem, if◌then◌else◌, ◌≡◌, refl, arith}
use quikode.Fsm.Table.{state_eq, pending, merge_node_ready, merge_node_retired}
use quikode.Store.Rows.{TaskRow}
use quikode.Merge.Parents.{has_parent, index_of, pop, pop_within, or_empty, pruned_row}

-- A list without the first occurrence of a text, and an aligned list without what stands in its place.
abbrev pub without_first : Text → List Text → List Text
without_first p [] = []
without_first p (i ∷ ids) = if i == p then ids else i ∷ without_first p ids

abbrev pub without_aligned : Text → List Text → List Text → List Text
without_aligned p [] xs = xs
without_aligned p (i ∷ ids) [] = []
without_aligned p (i ∷ ids) (x ∷ xs) = if i == p then xs else x ∷ without_aligned p ids xs

pub pop-without_first :
    (p : Text) (ids : List Text)
    → elem p ids ≡ true
    → pop (index_of p ids) ids ≡ without_first p ids
pop-without_first p [] h = refl
pop-without_first p (i ∷ ids) h = ground (arith, h, pop-without_first p ids)

pop_within-without_aligned :
    (p : Text) (ids xs : List Text)
    → elem p ids ≡ true
    → pop_within (index_of p ids) xs ≡ without_aligned p ids xs
pop_within-without_aligned p [] xs h = cc
pop_within-without_aligned p (i ∷ ids) [] h = ground arith
pop_within-without_aligned p (i ∷ ids) (x ∷ xs) h =
    ground (arith, h, pop_within-without_aligned p ids xs)

-- A merge node without a parent, and without the parent's branches.
abbrev pub without_parent : Text → List Text → TaskRow → TaskRow
without_parent p ids r = record r {
  parent_task_ids = some (without_first p ids);
  parent_branches = some (without_aligned p ids (or_empty r.parent_branches));
  parent_pr_branches = some (without_aligned p ids (or_empty r.parent_pr_branches));
}

pub pruned_row-without_parent :
    (p : Text) (ids : List Text) (r : TaskRow)
    → elem p ids ≡ true
    → pruned_row p ids r ≡ without_parent p ids r
pruned_row-without_parent p ids r h = cc (
  pop-without_first p ids h,
  pop_within-without_aligned p ids (or_empty r.parent_branches) h,
  pop_within-without_aligned p ids (or_empty r.parent_pr_branches) h,
)

-- A ready node is retired when no parent is left, and otherwise starts a new merge cycle.
abbrev pub settled : List Text → TaskRow → TaskRow
settled [] r = record r { state = merge_node_retired }
settled (q ∷ ids) r = record r { state = pending; resume_from_existing_subtasks = 1 }

-- The row after the parent merged.
unfoldable pub after_parent_merged : Text → TaskRow → TaskRow
after_parent_merged p r =
    if has_parent p r
    then (if state_eq r.state merge_node_ready
        then settled (without_first p (or_empty r.parent_task_ids))
            (without_parent p (or_empty r.parent_task_ids) r)
        else without_parent p (or_empty r.parent_task_ids) r)
    else r
