-- ===== src/Picker/Next.antt =====
-- `_pick_next` and `_apply_pick_side_effects` of quikode/orchestration/runner.py.
use quikode.Prelude.{
  Bool, false, Option, none, some, List, [], ◌∷◌, Text, codes, ◌==◌, map, if◌then◌else◌, sort,
}
use quikode.Store.Rows.{TaskRow, Store, Action, return, ◌>>=◌, ◌>>◌}
use quikode.Store.Tasks.{select}
use quikode.Stacking.Walks.{parents_of}
use quikode.Merge.Parents.{set_parent_chain, clear_parent_branch, set_parent_merge_base}
use quikode.Sched.Rank.{sort_ranked}
use quikode.Sched.Pick.{Candidate, prefer_primary_candidates, score_of}
use quikode.Picker.Candidates.{Setup, branch_of, collect_candidates}

abbrev pub or_row : Option TaskRow → Option TaskRow → Option TaskRow
or_row none found = found
or_row (some r) found = some r

abbrev pub is_merge_kind : Option TaskRow → Bool
is_merge_kind none = false
is_merge_kind (some r) = r.kind == codes "merge"

abbrev pub and_pair : Text → Option Text → List (Text × Text) → List (Text × Text)
and_pair d none rest = rest
and_pair d (some b) rest = (d, b) ∷ rest

-- The unmet parents that have a branch.
abbrev pub unmet_with_branch : Store → List Text → List (Text × Text)
unmet_with_branch s [] = []
unmet_with_branch s (d ∷ ids) = and_pair d (branch_of (select d s.tasks)) (unmet_with_branch s ids)

unfoldable pub stamp_parents : Text → List (Text × Text) → Action (Unit {0})
stamp_parents nid [] = return tt
stamp_parents nid (p ∷ pairs) =
    set_parent_chain nid (map (λ x. x.0) (p ∷ pairs)) (map (λ x. x.1) (p ∷ pairs))
      (map (λ x. x.1) (p ∷ pairs))
    >> set_parent_merge_base nid none none

unfoldable pub clear_stale : Text → Bool → List Text → Action (Unit {0})
clear_stale nid is_merge_node [] = return tt
clear_stale nid is_merge_node (p ∷ ids) =
    if is_merge_node
    then return tt
    else (clear_parent_branch nid >> set_parent_merge_base nid none none)

unfoldable pub apply_pick_side_effects : Candidate → Action (Unit {0})
apply_pick_side_effects c s =
    if c.is_stacked
    then stamp_parents c.task_id (unmet_with_branch s (sort c.unmet)) s
    else clear_stale c.task_id (is_merge_kind (or_row c.row (select c.task_id s.tasks)))
        (parents_of s c.task_id) s

abbrev pub pick_first : List Candidate → Action (Option Text)
pick_first [] = return none
pick_first (best ∷ rest) = apply_pick_side_effects best >> return (some best.task_id)

unfoldable pub pick_next : Setup → List Text → List Text → Action (Option Text)
pick_next e scope in_flight = collect_candidates e scope in_flight >>= λ candidates.
    pick_first
      (sort_ranked (score_of e.dag scope) (λ c. c.task_id) (prefer_primary_candidates candidates))
