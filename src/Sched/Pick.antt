-- ===== src/Sched/Pick.antt =====
-- The functions of quikode/orchestration/scheduler.py. A set of ids is a list of them without
-- repetition; `sorted(scope)` is its sorted list.
use Prim.Native.Nat.{◌/◌}
use quikode.Prelude.{
  ℕ, zero, suc, ◌+◌, ◌*◌, ◌%◌, Bool, true, false, not, ◌&&◌, ◌||◌, Option, none, some, List, [],
  ◌∷◌, Text, ◌==◌, elem, if◌then◌else◌, keep, all, length, sort, ltb, leb, nat_eq,
}
use quikode.Fsm.Table.{State, state_eq, pending}
use quikode.Store.Rows.{TaskRow}
use quikode.Dag.Graph.{Node, Dag, node_ids, get_node}
use quikode.Sched.Settings.{
  Config, SchedulerStore, StackFns, StackingStrategy, off, within_milestone, is_parent_stack_ready,
}
use quikode.Sched.Rank.{sort_ranked}

-- The dictionary of a candidate.
pub record Candidate : Type 0 where
  pub task_id : Text
  pub is_stacked : Bool
  pub unmet : List Text
  pub row : Option TaskRow
  pub has_open_pr : Bool
  pub subtask_done : ℕ
  pub subtask_total : ℕ

-- `row is None or row["state"] == "pending"`
unfoldable pub can_start : Option TaskRow → Bool
unfolding state_eq
can_start none = true
can_start (some r) = state_eq r.state pending

-- `bool(row.get("pr_number"))`
abbrev pub has_pr : Option ℕ → Bool
has_pr none = false
has_pr (some n) = not (nat_eq n 0)

pub record Signals : Type 0 where
  pub has_open_pr : Bool
  pub done : ℕ
  pub total : ℕ

abbrev pub resume_signals : Option TaskRow → SchedulerStore → Signals
resume_signals none store = record { has_open_pr = false; done = 0; total = 0 }
resume_signals (some r) store = record {
  has_open_pr = has_pr r.pr_number;
  done = (store.subtask_progress r.id).0;
  total = (store.subtask_progress r.id).1;
}

abbrev pub candidate_of : Text → Bool → List Text → Option TaskRow → Signals → Candidate
candidate_of nid is_stacked unmet row signals = record {
  task_id = nid;
  is_stacked = is_stacked;
  unmet = unmet;
  row = row;
  has_open_pr = signals.has_open_pr;
  subtask_done = signals.done;
  subtask_total = signals.total;
}

-- The dependencies inside the graph that are not completed.
abbrev pub unmet_of : Dag → List Text → Node → List Text
unmet_of dag completed n =
    keep (λ d. not (elem d completed)) (keep (λ d. elem d (node_ids dag)) n.depends_on)

abbrev pub has_milestone : Text → Option Node → Bool
has_milestone m none = false
has_milestone m (some n) = n.milestone == m

abbrev pub state_of : Option TaskRow → Option State
state_of none = none
state_of (some r) = some r.state

abbrev pub parent_ready : Config → SchedulerStore → ℕ → Text → Bool
parent_ready cfg store now d = is_parent_stack_ready cfg store now d (state_of (store.get d))

-- The strategy, the readiness of the parents, and the milestone.
unfoldable pub stacking_eligible : Config → Dag → SchedulerStore → ℕ → Node → List Text → Bool
stacking_eligible cfg dag store now n unmet = elim cfg.stacking_strategy [
  | off ↦ false
  | within_milestone ↦
      all (parent_ready cfg store now) unmet
      && all (λ d. has_milestone n.milestone (get_node dag d)) unmet
  | StackingStrategy.aggressive ↦ all (parent_ready cfg store now) unmet
]

-- The limits on the first unmet parent: depth, cycle, breadth.
unfoldable pub within_limits : Config → StackFns → Text → Text → Bool
within_limits cfg fns nid parent =
    not (leb cfg.stacking_max_depth (fns.stack_depth parent))
    && not (fns.would_form_cycle nid parent)
    && not
        (leb cfg.stacking_max_breadth_per_root (fns.stack_size_under_root (fns.stack_root parent)))

-- The loop's body after the guards on the row: no unmet dependency, or a stacked candidate.
unfoldable pub candidate_for :
    Config
    → Dag
    → SchedulerStore
    → StackFns
    → ℕ
    → Node
    → Text
    → Option TaskRow
    → List Text
    → Option Candidate
candidate_for cfg dag store fns now n nid row [] =
    some (candidate_of nid false [] row (resume_signals row store))
candidate_for cfg dag store fns now n nid row (d ∷ unmet) =
    if stacking_eligible cfg dag store now n (d ∷ unmet) && within_limits cfg fns nid d
    then some (candidate_of nid true (d ∷ unmet) row (resume_signals row store))
    else none

-- `nid in completed or nid in active or nid in in_flight`
abbrev pub is_taken : SchedulerStore → List Text → List Text → Text → Bool
is_taken store scope in_flight nid =
    elem nid (keep (λ i. elem i scope) store.completed_ids)
    || elem nid (keep (λ i. elem i scope) store.active_ids)
    || elem nid in_flight

-- One round of the loop, for the node of the id, by the rule for the unmet dependencies.
unfoldable pub consider :
    Dag
    → SchedulerStore
    → List Text
    → List Text
    → (Node → Text → Option TaskRow → List Text → Option Candidate)
    → Text
    → Option Candidate
consider dag store scope in_flight rule nid =
    if is_taken store scope in_flight nid then none else elim (get_node dag nid) [
      | none ↦ none
      | some n ↦
          if can_start (store.get nid)
          then rule n nid (store.get nid)
              (unmet_of dag (keep (λ i. elem i scope) store.completed_ids) n)
          else none
    ]

abbrev pub add_candidate : Option Candidate → List Candidate → List Candidate
add_candidate none rest = rest
add_candidate (some c) rest = c ∷ rest

abbrev pub collect : (Text → Option Candidate) → List Text → List Candidate
collect visit [] = []
collect visit (nid ∷ ids) = add_candidate (visit nid) (collect visit ids)

unfoldable pub collect_pick_candidates :
    Config → Dag → SchedulerStore → List Text → List Text → StackFns → ℕ → List Candidate
collect_pick_candidates cfg dag store scope in_flight fns now =
    collect (consider dag store scope in_flight (candidate_for cfg dag store fns now)) (sort scope)

-- `round(25 * done / total)` to the nearest number, and to the even one half way. The source
-- computes it in floats, which give the same number.
unfoldable pub round_fraction : ℕ → ℕ → ℕ
round_fraction n d =
    if ltb (2 * (n % d)) d
    then n / d
    else if ltb d (2 * (n % d))
    then suc (n / d)
    else n / d + (n / d) % 2

unfoldable pub progress_boost : ℕ → ℕ → ℕ
progress_boost done zero = 0
progress_boost done (suc t) =
    round_fraction (25 * (if leb (suc t) done then suc t else done)) (suc t)

-- The nodes in scope that depend on the task.
unfoldable pub dependents : Dag → List Text → Text → ℕ
dependents dag scope task_id = length (keep (λ n. elem n.id scope && elem task_id n.depends_on) dag)

unfoldable pub score_candidate : Dag → List Text → Text → Bool → ℕ → ℕ → ℕ
score_candidate dag scope task_id has_open_pr subtask_done subtask_total =
    dependents dag scope task_id * 5
    + (if has_open_pr then 15 else 0)
    + progress_boost subtask_done subtask_total

abbrev pub or_all : List Candidate → List Candidate → List Candidate
or_all candidates [] = candidates
or_all candidates (c ∷ primaries) = c ∷ primaries

unfoldable pub prefer_primary_candidates : List Candidate → List Candidate
prefer_primary_candidates candidates = or_all candidates (keep (λ c. not c.is_stacked) candidates)

abbrev pub score_of : Dag → List Text → Candidate → ℕ
score_of dag scope c =
    score_candidate dag scope c.task_id c.has_open_pr c.subtask_done c.subtask_total

abbrev pub or_every : List Text → Option (List Text) → List Text
or_every ids none = ids
or_every ids (some scope) = scope

abbrev pub first_of : Dag → List Text → List Candidate → Option (Text × ℕ)
first_of dag scope [] = none
first_of dag scope (c ∷ candidates) = some (c.task_id, score_of dag scope c)

-- The rule without the stacking functions: only a task without unmet dependencies.
abbrev pub fresh_only : SchedulerStore → Node → Text → Option TaskRow → List Text → Option Candidate
fresh_only store n nid row [] = some (candidate_of nid false [] row (resume_signals row store))
fresh_only store n nid row (d ∷ unmet) = none

abbrev pub queued :
    Config → Dag → SchedulerStore → List Text → List Text → Option StackFns → ℕ → List Candidate
queued cfg dag store scope in_flight none now =
    collect (consider dag store scope in_flight (fresh_only store)) (sort scope)
queued cfg dag store scope in_flight (some fns) now =
    collect_pick_candidates cfg dag store scope in_flight fns now

-- `best_queued_priority`: the first of the preferred candidates after the sort.
unfoldable pub best_queued_priority :
    Config
    → Dag
    → SchedulerStore
    → Option (List Text)
    → Option (List Text)
    → Option StackFns
    → ℕ
    → Option (Text × ℕ)
best_queued_priority cfg dag store scope in_flight fns now =
    let within = or_every (node_ids dag) scope in
    let candidates = queued cfg dag store within (or_every [] in_flight) fns now in
    first_of dag within
      (sort_ranked (score_of dag within) (λ c. c.task_id) (prefer_primary_candidates candidates))

unfoldable pub task_priority_if_picked : Dag → List Text → Text → ℕ
task_priority_if_picked dag scope task_id = score_candidate dag scope task_id false 0 0
