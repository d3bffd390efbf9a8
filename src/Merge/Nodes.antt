-- ===== src/Merge/Nodes.antt =====
-- The functions of quikode/merge_node.py. `hexdigest` stands for the digest of hashlib, as eight
-- hexadecimal digits.
use quikode.Prelude.{
  ℕ, ◌+◌, Bool, ◌&&◌, decimal, Option, none, some, List, [], ◌∷◌, ◌++◌, Text, codes, ◌==◌, map, leb,
  length, if◌then◌else◌, sort, Result, ok, raise,
}
use quikode.Fsm.Table.{State, state_eq, merge_node_ready, parent_advanced, all_parents_merged}
use quikode.Fsm.Rules.{Failure, value_error, enum}
use quikode.Store.Rows.{TaskRow, Action, set_resume_from_existing_subtasks, return, ◌>>=◌, ◌>>◌}
use quikode.Store.Tasks.{get, apply_event, from_result}
use quikode.Merge.Parents.{
  create_merge_node, merge_nodes_with_parent, prune_merge_node_parent, join,
}

unfoldable pub compute_merge_node_id : (Text → Text) → List Text → Result Failure Text
compute_merge_node_id hexdigest [] =
    raise (value_error (codes "compute_merge_node_id: empty parent_task_ids"))
compute_merge_node_id hexdigest (p ∷ ids) =
    ok (codes "M-" ++ hexdigest (join (codes ",") (sort (p ∷ ids))))

-- `str.lower` of an ASCII text.
abbrev pub lower : Text → Text
lower t = map (λ c. if leb 65 c && leb c 90 then c + 32 else c) t

unfoldable pub merge_node_branch_name : Text → Text
merge_node_branch_name id = codes "quikode/merge/" ++ lower id

abbrev pub create_if_absent :
    (Text → Text) → List Text → List Text → Text → Option TaskRow → Action Text
create_if_absent hexdigest ids branches mn_id (some r) = return mn_id
create_if_absent hexdigest ids branches mn_id none = do
  create_merge_node mn_id ids branches (merge_node_branch_name mn_id)
  return mn_id

unfoldable pub lookup_or_create_merge_node : (Text → Text) → List Text → List Text → Action Text
lookup_or_create_merge_node hexdigest ids branches = do
  mn_id ← from_result (compute_merge_node_id hexdigest ids)
  existing ← get mn_id
  create_if_absent hexdigest ids branches mn_id existing

abbrev pub advanced_note : Text → Text
advanced_note p = codes "source parent " ++ p ++ codes " advanced; re-merge cycle"

abbrev pub remaining_note : Text → ℕ → Text
remaining_note p n =
    codes "source parent "
    ++ p
    ++ codes " merged; re-merge against remaining "
    ++ decimal n
    ++ codes " parent(s)"

abbrev pub retired_note : Text → Text
retired_note p = codes "all source parents merged to main (last: " ++ p ++ codes ")"

-- A new merge cycle, with the marker that keeps the subtasks.
abbrev pub re_merge : Text → Text → Action State
re_merge id message =
    apply_event id (enum parent_advanced) (some message) (set_resume_from_existing_subtasks 1 ∷ [])

abbrev pub drop_result : {A : Type 0} → Action A → Action (Unit {0})
drop_result a = a >> return tt

-- The loop of `propagate_parent_advanced`, over the rows that the query gave.
unfoldable pub advance_all : Text → List TaskRow → Action (List Text)
advance_all p [] = return []
advance_all p (r ∷ rows) =
    if state_eq r.state merge_node_ready
    then (do re_merge r.id (advanced_note p); ids ← advance_all p rows; return (r.id ∷ ids))
    else advance_all p rows

unfoldable pub propagate_parent_advanced : Text → Action (List Text)
propagate_parent_advanced p s = advance_all p (merge_nodes_with_parent s p) s

-- What the loop of `propagate_parent_merged` does for one row, after its parent is pruned.
unfoldable pub settle_node : Text → TaskRow → List Text → Action (Unit {0})
settle_node p r [] =
    if state_eq r.state merge_node_ready
    then drop_result (apply_event r.id (enum all_parents_merged) (some (retired_note p)) [])
    else return tt
settle_node p r (q ∷ remaining) =
    if state_eq r.state merge_node_ready
    then drop_result (re_merge r.id (remaining_note p (length (q ∷ remaining))))
    else return tt

unfoldable pub settle_all : Text → List TaskRow → Action (List Text)
settle_all p [] = return []
settle_all p (r ∷ rows) = do
  remaining ← prune_merge_node_parent r.id p
  settle_node p r remaining
  touched ← settle_all p rows
  return (r.id ∷ touched)

unfoldable pub propagate_parent_merged : Text → Action (List Text)
propagate_parent_merged p s = settle_all p (merge_nodes_with_parent s p) s

unfoldable pub is_merge_node : TaskRow → Bool
is_merge_node r = r.kind == codes "merge"
