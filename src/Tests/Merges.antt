-- ===== src/Tests/Merges.antt =====
-- Runs of the merge node operations: a ready node of A and B, before and after B merges.
use quikode.Prelude.{
  none, some, [], ◌∷◌, Text, codes, ◌==◌, ==_iff, count, IsUnique, ok, ◌≡◌, refl, arith, ◌⊎◌,
}
use quikode.Fsm.Table.{merge_node_ready, pending, pending_ci, state_eq, state_index}
use quikode.Store.Rows.{TaskRow, new_row, Store}
use quikode.Store.Tasks.{select}
use quikode.Store.Lookup.{map_row}
use quikode.Merge.Parents.{merge_row, merge_nodes_with_parent, has_parent, is_excluded}
use quikode.Merge.Nodes.{
  merge_node_branch_name, lookup_or_create_merge_node, propagate_parent_merged,
}
use quikode.Merge.Loop.{row_ids}
use quikode.Merge.Pruned.{after_parent_merged}
use quikode.Merge.Settle.{propagate_parent_merged-settles}
use quikode.Merge.Lookup.{Added, lookup_or_create_merge_node-is_stable}

abbrev id_a : Text
id_a = codes "A"

abbrev id_b : Text
id_b = codes "B"

abbrev sources : Store
sources = record {
  tasks = new_row id_a pending_ci ∷ new_row id_b pending_ci ∷ [];
  log = [];
  captures = [];
}

abbrev merge_node : TaskRow
merge_node = record (new_row (codes "M-1") merge_node_ready) {
  kind = codes "merge";
  parent_task_ids = some (id_a ∷ id_b ∷ []);
  parent_branches = some (codes "a" ∷ codes "b" ∷ []);
  parent_pr_branches = some (codes "a" ∷ codes "b" ∷ []);
}

abbrev merged : Store
merged = record { tasks = merge_node ∷ new_row id_a pending_ci ∷ []; log = []; captures = [] }

merged-IsUnique : IsUnique (row_ids merged.tasks)
unfolding new_row
merged-IsUnique k = ground (arith, ==_iff (codes "M-1") k, ==_iff id_a k)

propagate_parent_merged-settles_example :
    (s' : Store) × (propagate_parent_merged id_b merged
      ≡ (ok (row_ids (merge_nodes_with_parent merged id_b)), s'))
    × ((j : Text) → select j s'.tasks ≡ map_row (after_parent_merged id_b) (select j merged.tasks))
propagate_parent_merged-settles_example =
    propagate_parent_merged-settles id_b merged merged-IsUnique

-- The node of A and B has one parent left and starts a new merge cycle.
after_parent_merged_test : after_parent_merged id_b merge_node ≡ record merge_node {
  state = pending;
  parent_task_ids = some (id_a ∷ []);
  parent_branches = some (codes "a" ∷ []);
  parent_pr_branches = some (codes "a" ∷ []);
  resume_from_existing_subtasks = 1;
}
unfolding after_parent_merged has_parent is_excluded ◌==◌ state_eq state_index new_row
after_parent_merged_test = refl

swapped : (k : Text) → count k (id_a ∷ id_b ∷ []) ≡ count k (id_b ∷ id_a ∷ [])
swapped k = ground arith

lookup_or_create_merge_node-is_stable_example :
    (id : Text) × (s' : Store) × (lookup_or_create_merge_node (λ t. t) (id_a ∷ id_b ∷ []) [] sources
      ≡ (ok id, s'))
    × (lookup_or_create_merge_node (λ t. t) (id_b ∷ id_a ∷ []) [] s' ≡ (ok id, s'))
    × ((s' ≡ sources)
        ⊎ ((select id sources.tasks ≡ none)
            × Added id (merge_row id (id_a ∷ id_b ∷ []) [] (merge_node_branch_name id)) sources s'))
lookup_or_create_merge_node-is_stable_example =
    lookup_or_create_merge_node-is_stable (λ t. t) id_a (id_b ∷ []) (id_b ∷ id_a ∷ []) [] [] sources
      swapped
