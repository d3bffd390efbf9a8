-- ===== src/Picker/Candidates.antt =====
-- `CandidatesMixin` of quikode/orchestration/candidates.py. The clock, the log's timestamps, the
-- subtasks table and the digest of hashlib are arguments.
use quikode.Prelude.{
  ℕ, Bool, true, false, not, ◌&&◌, Option, none, some, List, [], ◌∷◌, ◌++◌, Text, codes, ◌==◌, elem,
  map, keep, if◌then◌else◌, sort, sort_by, ok,
}
use quikode.Fsm.Table.{state_eq, pending, merge_node_ready}
use quikode.Store.Rows.{TaskRow, Store, Action, return, ◌>>=◌}
use quikode.Store.Tasks.{select, get}
use quikode.Dag.Graph.{Node, Dag, get_node}
use quikode.Stacking.Walks.{is_nonempty}
use quikode.Merge.Nodes.{lookup_or_create_merge_node}
use quikode.Sched.Settings.{Config, SchedulerStore}
use quikode.Sched.Pick.{
  Candidate, can_start, resume_signals, Signals, candidate_of, unmet_of, stacking_eligible,
  within_limits, is_taken,
}
use quikode.Sched.View.{store_view, stack_fns}

-- What the mixin reads besides the store.
pub record Setup : Type 0 where
  pub cfg : Config
  pub dag : Dag
  pub hexdigest : Text → Text
  pub now : ℕ
  pub entered : Text → Option ℕ
  pub progress : Text → ℕ × ℕ

abbrev pub view : Setup → Store → SchedulerStore
view e s = store_view s e.entered e.progress

-- The branch of a parent, which has to be there and not empty.
abbrev pub or_branch : Option Text → Option Text
or_branch none = none
or_branch (some b) = if is_nonempty b then some b else none

abbrev pub branch_of : Option TaskRow → Option Text
branch_of none = none
branch_of (some r) = or_branch r.branch

abbrev pub and_branch : Text → Option (List Text) → Option (List Text)
and_branch b none = none
and_branch b (some rest) = some (b ∷ rest)

abbrev pub parent_branches : Store → List Text → Option (List Text)
parent_branches s [] = some []
parent_branches s (p ∷ ids) = elim (branch_of (select p s.tasks)) [
  | none ↦ none
  | some b ↦ and_branch b (parent_branches s ids)
]

abbrev pub if_ready : Text → Option TaskRow → Option (List Text)
if_ready mn_id none = none
if_ready mn_id (some r) = if state_eq r.state merge_node_ready then some (mn_id ∷ []) else none

unfoldable pub resolve_multi_parent_merge_node : Setup → List Text → Action (Option (List Text))
unfolding get state_eq
resolve_multi_parent_merge_node e unmet s = elim (parent_branches s (sort unmet)) [
  | none ↦ (ok none, s)
  | some branches ↦
      (lookup_or_create_merge_node e.hexdigest (sort unmet) branches >>= λ mn_id.
      get mn_id >>= λ row. return (if_ready mn_id row))
        s
]

-- The limits for a single parent.
unfoldable pub single_parent_candidate :
    Setup → Text → Text → Option TaskRow → Signals → Store → Option Candidate
single_parent_candidate e nid parent row signals s =
    if within_limits e.cfg (stack_fns e.cfg s) nid parent
    then some (candidate_of nid true (parent ∷ []) row signals)
    else none

abbrev pub stacked_on : Text → Option TaskRow → Signals → Option (List Text) → Option Candidate
stacked_on nid row signals none = none
stacked_on nid row signals (some unmet) = some (candidate_of nid true unmet row signals)

-- `_candidate_for_node`, for the unmet dependencies of the node.
unfoldable pub candidate_for_node :
    Setup → Text → Node → Option TaskRow → List Text → Action (Option Candidate)
candidate_for_node e nid n row [] s =
    (ok (some (candidate_of nid false [] row (resume_signals row (view e s)))), s)
candidate_for_node e nid n row (d ∷ []) s =
    if stacking_eligible e.cfg e.dag (view e s) e.now n (d ∷ [])
    then (ok (single_parent_candidate e nid d row (resume_signals row (view e s)) s), s)
    else (ok none, s)
candidate_for_node e nid n row (d ∷ d' ∷ unmet) s =
    if stacking_eligible e.cfg e.dag (view e s) e.now n (d ∷ d' ∷ unmet)
    then (resolve_multi_parent_merge_node e (d ∷ d' ∷ unmet) >>= λ parents.
          return (stacked_on nid row (resume_signals row (view e s)) parents))
        s
    else (ok none, s)

-- One round of the loop of `_collect_pick_candidates`; `completed` and `taken` are from its start.
unfoldable pub consider_node : Setup → List Text → (Text → Bool) → Text → Action (Option Candidate)
consider_node e completed taken nid s =
    if taken nid then (ok none, s) else elim (get_node e.dag nid) [
      | none ↦ (ok none, s)
      | some n ↦
          if can_start (select nid s.tasks)
          then candidate_for_node e nid n (select nid s.tasks) (unmet_of e.dag completed n) s
          else (ok none, s)
    ]

abbrev pub with_candidate : Option Candidate → List Candidate → List Candidate
with_candidate none rest = rest
with_candidate (some c) rest = c ∷ rest

unfoldable pub consider_all :
    Setup → List Text → (Text → Bool) → List Text → Action (List Candidate)
consider_all e completed taken [] = return []
consider_all e completed taken (nid ∷ ids) = consider_node e completed taken nid >>= λ c.
    consider_all e completed taken ids >>= λ rest. return (with_candidate c rest)

-- SELECT * FROM tasks WHERE kind = 'merge' AND state = 'pending' ORDER BY id, less those in flight.
unfoldable pub pending_merge_node_rows : Store → List Text → List TaskRow
unfolding state_eq
pending_merge_node_rows s in_flight =
    keep (λ r. not (elem r.id in_flight))
      (sort_by (λ r. r.id)
        (keep (λ r. r.kind == codes "merge" && state_eq r.state pending) s.tasks))

abbrev pub merge_candidate : TaskRow → Candidate
merge_candidate r =
    candidate_of r.id false [] (some r) (record { has_open_pr = false; done = 0; total = 0 })

unfoldable pub collect_candidates : Setup → List Text → List Text → Action (List Candidate)
collect_candidates e scope in_flight s =
    (consider_all e (keep (λ i. elem i scope) (view e s).completed_ids)
          (is_taken (view e s) scope in_flight) (sort scope)
        >>= λ candidates. λ s'.
          (ok (candidates ++ map merge_candidate (pending_merge_node_rows s' in_flight)), s'))
      s
