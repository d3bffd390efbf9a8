-- ===== src/Merge/Parents.antt =====
-- The statements on the parent columns of a task: quikode/store_subtasks.py, and
-- `clear_parent_branch` of quikode/store_review.py and `set_parent_merge_base` of
-- quikode/store_forensics.py. A JSON array of texts is the list that it encodes.
use quikode.Prelude.{
  ℕ, zero, suc, ltb, Bool, true, false, not, ◌&&◌, Option, none, some, List, [], ◌∷◌, ◌++◌, Text,
  codes, ◌==◌, elem, keep, all, length, map, nat_eq, if◌then◌else◌, sort_by, ok, raise,
}
use quikode.Fsm.Table.{State, pending, state_eq, merge_node_retired, blocked, failed, aborted}
use quikode.Fsm.Rules.{integrity_error}
use quikode.Store.Rows.{TaskRow, Store, Action, new_row}
use quikode.Store.Tasks.{select, update_rows}
use quikode.Stacking.Walks.{ids_of, parents_of}

-- An UPDATE of one task by its key; an absent task is no error.
abbrev pub update_task : Text → (TaskRow → TaskRow) → Action (Unit {0})
update_task task_id f s = (ok tt, record s { tasks = update_rows task_id f s.tasks })

unfoldable pub set_parent_chain : Text → List Text → List Text → List Text → Action (Unit {0})
set_parent_chain task_id ids branches pr_branches = update_task task_id (λ r. record r {
  parent_task_ids = some ids;
  parent_branches = some branches;
  parent_pr_branches = some pr_branches;
})

unfoldable pub clear_parent_branch : Text → Action (Unit {0})
clear_parent_branch task_id = update_task task_id (λ r. record r {
  parent_task_ids = none;
  parent_branches = none;
  parent_pr_branches = none;
  parent_merge_base_sha = none;
  parent_merge_base_branch = none;
  needs_parent_rebase = 0;
})

unfoldable pub set_parent_merge_base : Text → Option Text → Option Text → Action (Unit {0})
set_parent_merge_base task_id branch sha =
    update_task task_id
      (λ r. record r { parent_merge_base_branch = branch; parent_merge_base_sha = sha })

abbrev pub branches_of : Option TaskRow → List Text
branches_of none = []
branches_of (some r) = ids_of r.parent_branches

unfoldable pub get_parent_branches : Store → Text → List Text
get_parent_branches s task_id = branches_of (select task_id s.tasks)

-- `SELECT state FROM tasks WHERE id IN (...)` gives a row for each task that is listed.
abbrev pub listed_rows : Store → List Text → List TaskRow
listed_rows s ids = keep (λ r. elem r.id ids) s.tasks

unfoldable pub all_parents_merged : Store → Text → Bool
all_parents_merged s task_id = elim (parents_of s task_id) [
  | [] ↦ false
  | p ∷ ids ↦
      if nat_eq (length (listed_rows s (p ∷ ids))) (length (p ∷ ids))
      then all (λ r. state_eq r.state State.merged) (listed_rows s (p ∷ ids))
      else false
]

-- `f"{ids}"` of a list of ids, which need no escapes.
abbrev pub quoted : Text → Text
quoted t = codes "'" ++ t ++ codes "'"

abbrev pub join : Text → List Text → Text
join sep [] = []
join sep (t ∷ []) = t
join sep (t ∷ u ∷ ts) = t ++ sep ++ join sep (u ∷ ts)

abbrev pub list_text : List Text → Text
list_text ts = codes "[" ++ join (codes ", ") (map quoted ts) ++ codes "]"

unfoldable pub merge_row : Text → List Text → List Text → Text → TaskRow
unfolding new_row
merge_row id ids branches branch = record (new_row id pending) {
  kind = codes "merge";
  branch = some branch;
  parent_task_ids = some ids;
  parent_branches = some branches;
  parent_pr_branches = some branches;
}

-- A second row with the same key breaks the primary key.
unfoldable pub create_merge_node : Text → List Text → List Text → Text → Action (Unit {0})
unfolding merge_row
create_merge_node id ids branches branch s = elim (select id s.tasks) [
  | some r ↦ (raise (integrity_error id), s)
  | none ↦ (
    ok tt,
    record s {
      tasks = s.tasks ++ merge_row id ids branches branch ∷ [];
      log =
          s.log
          ++ record {
            task_id = id;
            from_state = none;
            to_state = pending;
            note = some (codes "merge-node created for parents=" ++ list_text ids);
          }
            ∷ [];
    },
  )
]

-- The states that `merge_nodes_with_parent` leaves out.
unfoldable pub is_excluded : State → Bool
is_excluded merge_node_retired = true
is_excluded blocked = true
is_excluded failed = true
is_excluded aborted = true
is_excluded _ = false

abbrev pub lists : Text → Option (List Text) → Bool
lists p none = false
lists p (some ids) = elem p ids

unfoldable pub has_parent : Text → TaskRow → Bool
unfolding is_excluded
has_parent p r = r.kind == codes "merge" && not (is_excluded r.state) && lists p r.parent_task_ids

unfoldable pub merge_nodes_with_parent : Store → Text → List TaskRow
merge_nodes_with_parent s p = sort_by (λ r. r.id) (keep (has_parent p) s.tasks)

-- `ids.index(p)` of a list that has it, and `xs.pop(idx)`.
abbrev pub index_of : Text → List Text → ℕ
index_of p [] = 0
index_of p (i ∷ ids) = if i == p then 0 else suc (index_of p ids)

abbrev pub pop : ℕ → List Text → List Text
pop idx [] = []
pop zero (x ∷ xs) = xs
pop (suc idx) (x ∷ xs) = x ∷ pop idx xs

-- `if idx < len(xs): xs.pop(idx)`
abbrev pub pop_within : ℕ → List Text → List Text
pop_within idx xs = if ltb idx (length xs) then pop idx xs else xs

-- `json.loads(... or "[]") or []`
abbrev pub or_empty : Option (List Text) → List Text
or_empty none = []
or_empty (some xs) = xs

abbrev pub pruned_row : Text → List Text → TaskRow → TaskRow
pruned_row p ids r = record r {
  parent_task_ids = some (pop (index_of p ids) ids);
  parent_branches = some (pop_within (index_of p ids) (or_empty r.parent_branches));
  parent_pr_branches = some (pop_within (index_of p ids) (or_empty r.parent_pr_branches));
}

-- `prune_merge_node_parent` of a row that is there; NULL parents are no JSON text.
unfoldable pub prune_row : Text → Text → TaskRow → Option (List Text) → Action (List Text)
prune_row id p r none s = (ok [], s)
prune_row id p r (some ids) s =
    if elem p ids
    then (
      ok (pop (index_of p ids) ids),
      record s { tasks = update_rows id (pruned_row p ids) s.tasks },
    )
    else (ok ids, s)

unfoldable pub prune_merge_node_parent : Text → Text → Action (List Text)
prune_merge_node_parent id p s = elim (select id s.tasks) [
  | none ↦ (ok [], s)
  | some r ↦ prune_row id p r r.parent_task_ids s
]
