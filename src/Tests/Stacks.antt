-- ===== src/Tests/Stacks.antt =====
-- Runs of the stack walks and of the scheduler: B waits for A, which has a pull request; C depends on
-- both, and D on nothing.
use quikode.Prelude.{
  ℕ, ◌+◌, ◌*◌, ◌≤◌, ◌<◌, Bool, true, false, Option, none, some, List, [], ◌∷◌, Text, codes, ◌==◌,
  ==_iff, elem, all, All, ok, text_le, sort, insert_sorted, ◌≡◌, refl, arith, ◌↔◌, ◌⊎◌,
}
use quikode.Fsm.Table.{pending, pending_ci, state_eq, state_index}
use quikode.Fsm.Rules.{is_audit_stage, is_stack_ready}
use quikode.Store.Rows.{TaskRow, new_row, Store}
use quikode.Store.Tasks.{select, completed_ids, active_ids, counts_as_active}
use quikode.Dag.Graph.{Node, Dag, node_ids}
use quikode.Walk.Closure.{Reach, here, step}
use quikode.Stacking.Walks.{
  parents_of, would_form_cycle, stack_root, stack_depth, meets, depth_of, deepest,
  stack_size_under_root, collect_roots, min_text,
}
use quikode.Stacking.Cycle.{would_form_cycle_iff_above}
use quikode.Stacking.Root.{RootOver, stack_root-is_lowest}
use quikode.Stacking.Depth.{Chain, HasLoop, stack_depth-is_longest}
use quikode.Sched.Settings.{
  Config, StackingStrategy, speculative, is_parent_stack_ready, in_stack_ready_states,
}
use quikode.Sched.Rank.{sort_ranked}
use quikode.Sched.Pick.{
  Candidate, score_candidate, dependents, or_every, queued, best_queued_priority, score_of,
  collect_pick_candidates, progress_boost, round_fraction, prefer_primary_candidates, consider,
  can_start, candidate_for, stacking_eligible, within_limits,
}
use quikode.Sched.View.{store_view, stack_fns}
use quikode.Sched.Score.{score_candidate-bounds}
use quikode.Sched.Best.{StandsIn, is_ahead, best_queued_priority-is_ahead}
use quikode.Sched.Eligible.{SafeStart}
use quikode.Sched.Safe.{collect_pick_candidates-is_safe}
use quikode.Picker.Candidates.{
  Setup, candidate_for_node, single_parent_candidate, collect_candidates,
}
use quikode.Picker.Next.{apply_pick_side_effects, pick_next}
use quikode.Picker.Total.{pick_next-is_ahead}
use quikode.Picker.Ways.{IsAcyclic}
use quikode.Picker.Acyclic.{candidate_for_node-IsAcyclic}

abbrev id_a : Text
id_a = codes "A"

abbrev id_b : Text
id_b = codes "B"

abbrev id_c : Text
id_c = codes "C"

abbrev node : Text → List Text → Node
node id deps = record { id = id; kind = codes "spec"; milestone = codes "M1"; depends_on = deps }

abbrev graph : Dag
graph =
    node id_a [] ∷ node id_b (id_a ∷ []) ∷ node id_c (id_a ∷ id_b ∷ []) ∷ node (codes "D") [] ∷ []

abbrev row_a : TaskRow
row_a = record (new_row id_a pending_ci) { branch = some (codes "quikode/a"); pr_number = some 7 }

-- B is stacked on A.
abbrev stack : Store
stack = record {
  tasks = row_a ∷ record (new_row id_b pending_ci) { parent_task_ids = some (id_a ∷ []) } ∷ [];
  log = [];
  captures = [];
}

-- B has not started.
abbrev flat : Store
flat = record { tasks = row_a ∷ new_row id_b pending ∷ []; log = []; captures = [] }

abbrev config : Config
config = record {
  stacking_strategy = StackingStrategy.aggressive;
  stacking_readiness = speculative;
  review_ready_settle_s = 900;
  stacking_max_depth = 6;
  stacking_max_breadth_per_root = 12;
}

abbrev no_entry : Text → Option ℕ
no_entry i = none

abbrev no_progress : Text → ℕ × ℕ
no_progress i = (0, 0)

would_form_cycle_iff_above_example :
    (b : Bool) × (would_form_cycle stack id_a id_b ≡ some b)
    × ((b ≡ true) ↔ Reach (parents_of stack) (id_b ∷ []) id_a)
would_form_cycle_iff_above_example = would_form_cycle_iff_above stack id_a id_b

would_form_cycle_test : would_form_cycle stack id_a id_b ≡ some true
unfolding would_form_cycle ◌==◌ meets parents_of select new_row
would_form_cycle_test = refl

stack_root-is_lowest_example :
    (r : Text) × (roots : List Text) × (stack_root stack id_b ≡ some r)
    × ((n : Text) → (elem n roots ≡ true) ↔ RootOver (parents_of stack) (id_b ∷ []) n)
    × ((elem r roots ≡ true) ⊎ ((roots ≡ []) × (r ≡ id_b)))
    × (all (text_le r) roots ≡ true)
stack_root-is_lowest_example = stack_root-is_lowest stack id_b

stack_depth-is_longest_example :
    (d : ℕ) × (stack_depth stack id_b 6 ≡ some d)
    × (((6 < d) × HasLoop (parents_of stack) id_b)
        ⊎ ((k : ℕ) → Chain (parents_of stack) k id_b ↔ ((0 < k) × (k ≤ d))))
stack_depth-is_longest_example = stack_depth-is_longest stack id_b 6

stack_depth_test : stack_depth stack id_b 6 ≡ some 2
unfolding stack_depth depth_of deepest parents_of select ◌==◌ new_row
stack_depth_test = refl

score_candidate-bounds_example :
    (5 * dependents graph (node_ids graph) id_a
      ≤ score_candidate graph (node_ids graph) id_a true 3 8)
    × (score_candidate graph (node_ids graph) id_a true 3 8
        ≤ 5 * dependents graph (node_ids graph) id_a + 40)
    × (score_candidate graph (node_ids graph) id_a true 3 8
        ≤ score_candidate graph (node_ids graph) id_a true 4 8)
score_candidate-bounds_example =
    score_candidate-bounds graph (node_ids graph) id_a true 3 4 8 (omega arith)

-- Two dependents, a pull request, and 9.375 rounded.
score_candidate_test : score_candidate graph (node_ids graph) id_a true 3 8 ≡ 34
unfolding score_candidate dependents ◌==◌ progress_boost round_fraction
score_candidate_test = refl

best_queued_priority-is_ahead_example :
    ((queued config graph
          (store_view flat no_entry no_progress)
          (or_every (node_ids graph) none)
          (or_every [] none)
          (some (stack_fns config flat))
          0
        ≡ [])
      × (best_queued_priority config graph
            (store_view flat no_entry no_progress)
            none
            none
            (some (stack_fns config flat))
            0
          ≡ none))
    ⊎ ((best : Candidate) × StandsIn best (
          queued config graph
            (store_view flat no_entry no_progress)
            (or_every (node_ids graph) none)
            (or_every [] none)
            (some (stack_fns config flat))
            0)
        × (best_queued_priority config graph
              (store_view flat no_entry no_progress)
              none
              none
              (some (stack_fns config flat))
              0
            ≡ some (best.task_id, score_of graph (or_every (node_ids graph) none) best))
        × (all (is_ahead graph (or_every (node_ids graph) none) best) (
              queued config graph
                (store_view flat no_entry no_progress)
                (or_every (node_ids graph) none)
                (or_every [] none)
                (some (stack_fns config flat))
                0)
            ≡ true))
best_queued_priority-is_ahead_example =
    best_queued_priority-is_ahead config graph (store_view flat no_entry no_progress) none none
      (some (stack_fns config flat)) 0

-- B can be stacked on A, but D is not stacked.
best_queued_priority_test :
    best_queued_priority config graph
      (store_view flat no_entry no_progress)
      none
      none
      (some (stack_fns config flat))
      0
    ≡ some (codes "D", 0)
unfolding best_queued_priority sort_ranked prefer_primary_candidates collect_pick_candidates sort
    insert_sorted text_le consider store_view completed_ids active_ids counts_as_active new_row ◌==◌
    can_start select candidate_for stacking_eligible is_parent_stack_ready in_stack_ready_states
    is_audit_stage is_stack_ready state_eq state_index dependents progress_boost score_candidate
    within_limits stack_fns stack_depth depth_of deepest parents_of would_form_cycle meets
    stack_size_under_root stack_root collect_roots min_text round_fraction
best_queued_priority_test = refl

collect_pick_candidates-is_safe_example : All (SafeStart config graph flat (node_ids graph) []) (
    collect_pick_candidates config graph
      (store_view flat no_entry no_progress)
      (node_ids graph)
      []
      (stack_fns config flat)
      0)
collect_pick_candidates-is_safe_example =
    collect_pick_candidates-is_safe config graph flat 0 no_entry no_progress (node_ids graph) []

abbrev setup : Setup
setup = record {
  cfg = config;
  dag = graph;
  hexdigest = λ t. t;
  now = 0;
  entered = no_entry;
  progress = no_progress;
}

abbrev b_on_a : Candidate
b_on_a = record {
  task_id = id_b;
  is_stacked = true;
  unmet = id_a ∷ [];
  row = some (new_row id_b pending);
  has_open_pr = false;
  subtask_done = 0;
  subtask_total = 0;
}

flat-parents : (n : Text) → parents_of flat n ≡ []
unfolding parents_of select new_row
flat-parents n = ground (arith, ==_iff id_a n)

flat-IsAcyclic : IsAcyclic (parents_of flat)
flat-IsAcyclic m (here _ h) = cc (h, flat-parents m)
flat-IsAcyclic m (step k _ r h) = cc (h, flat-parents k)

flat_candidate :
    candidate_for_node setup id_b
      (node id_b (id_a ∷ []))
      (some (new_row id_b pending))
      (id_a ∷ [])
      flat
    ≡ (ok (some b_on_a), flat)
unfolding candidate_for_node single_parent_candidate stacking_eligible is_parent_stack_ready
    in_stack_ready_states is_audit_stage is_stack_ready state_eq state_index store_view select ◌==◌
    new_row within_limits stack_fns stack_depth depth_of deepest parents_of would_form_cycle meets
    stack_size_under_root stack_root collect_roots min_text
flat_candidate = refl

candidate_for_node-IsAcyclic_example :
    (s' : Store) × (apply_pick_side_effects b_on_a flat ≡ (ok tt, s')) × IsAcyclic (parents_of s')
candidate_for_node-IsAcyclic_example =
    candidate_for_node-IsAcyclic setup id_b (node id_b (id_a ∷ [])) (some (new_row id_b pending))
      (id_a ∷ []) b_on_a flat flat (omega arith) flat-IsAcyclic flat_candidate

pick_next-is_ahead_example :
    (cs : List Candidate) × (s' : Store) × (collect_candidates setup (node_ids graph) [] flat
      ≡ (ok cs, s'))
    × (((cs ≡ []) × (pick_next setup (node_ids graph) [] flat ≡ (ok none, s')))
        ⊎ ((best : Candidate) × (s'' : Store) × StandsIn best cs
            × (all (is_ahead graph (node_ids graph) best) cs ≡ true)
            × (apply_pick_side_effects best s' ≡ (ok tt, s''))
            × (pick_next setup (node_ids graph) [] flat ≡ (ok (some best.task_id), s''))))
pick_next-is_ahead_example = pick_next-is_ahead setup (node_ids graph) [] flat
