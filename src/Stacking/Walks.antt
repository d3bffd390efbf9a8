-- ===== src/Stacking/Walks.antt =====
-- The functions of quikode/orchestration/stacking_helpers.py over `parents_of`, the parents that the
-- store has for a task. Each walk runs on fuel; a cycle of parents is possible, and handled.
use quikode.Prelude.{
  ℕ, zero, suc, ◌+◌, Bool, true, false, not, ◌||◌, Option, none, some, List, [], ◌∷◌, ◌++◌, map,
  reverse, Text, ◌==◌, elem, if◌then◌else◌, keep, length, ltb, text_le,
}
use quikode.Store.Rows.{TaskRow, Store}
use quikode.Store.Tasks.{select}
use quikode.Walk.Loop.{pushes}

abbrev pub is_nonempty : Text → Bool
is_nonempty [] = false
is_nonempty (c ∷ t) = true

abbrev pub ids_of : Option (List Text) → List Text
ids_of none = []
ids_of (some ids) = keep is_nonempty ids

abbrev pub parent_ids : Option TaskRow → List Text
parent_ids none = []
parent_ids (some r) = ids_of r.parent_task_ids

-- `Store.get_parent_task_ids`, which `parents_of` calls.
unfoldable pub parents_of : Store → Text → List Text
parents_of s task_id = parent_ids (select task_id s.tasks)

abbrev pub task_ids : Store → List Text
task_ids s = map (λ r. r.id) s.tasks

-- `for p in parents_of(store, cur): if p not in seen: frontier.append(p)`, the frontier's end at the
-- head of the list.
abbrev pub push_unseen : List Text → List Text → List Text → List Text
push_unseen parents seen frontier = reverse (keep (λ p. not (elem p seen)) parents) ++ frontier

-- The loop of `would_form_cycle`.
unfoldable pub meets : (Text → List Text) → Text → ℕ → List Text → List Text → Option Bool
meets parents child fuel [] seen = some false
meets parents child zero (cur ∷ frontier) seen = none
meets parents child (suc fuel) (cur ∷ frontier) seen =
    let skip = meets parents child fuel frontier seen in
    let climb =
      meets parents child fuel (push_unseen (parents cur) (cur ∷ seen) frontier) (cur ∷ seen) in
    if elem cur seen then skip else if cur == child then some true else climb

-- Rounds enough for one start and for every parent that can be pushed.
abbrev pub rounds : Store → ℕ
rounds s = suc (pushes (parents_of s) [] (task_ids s))

unfoldable pub would_form_cycle : Store → Text → Text → Option Bool
would_form_cycle s child_id parent_id =
    let walk = meets (parents_of s) child_id (rounds s) (parent_id ∷ []) [] in
    if child_id == parent_id then some true else walk

-- The loop of `stack_root`, which collects the tasks without parents.
unfoldable pub collect_roots :
    (Text → List Text) → ℕ → List Text → List Text → List Text → Option (List Text)
collect_roots parents fuel [] seen roots = some roots
collect_roots parents zero (cur ∷ frontier) seen roots = none
collect_roots parents (suc fuel) (cur ∷ frontier) seen roots =
    let skip = collect_roots parents fuel frontier seen roots in
    let root = collect_roots parents fuel frontier (cur ∷ seen) (roots ++ cur ∷ []) in
    let climb =
      collect_roots parents fuel (push_unseen (parents cur) (cur ∷ seen) frontier) (cur ∷ seen)
        roots in
    if elem cur seen then skip else elim (parents cur) [ [] ↦ root | p ∷ ps ↦ climb ]

-- `min(roots)`, or the task itself when there is no root.
unfoldable pub min_text : Text → List Text → Text
min_text best [] = best
min_text best (r ∷ roots) = min_text (if text_le best r then best else r) roots

abbrev pub lowest_root : Text → List Text → Text
lowest_root task_id [] = task_id
lowest_root task_id (r ∷ roots) = min_text r roots

abbrev pub or_lowest : Text → Option (List Text) → Option Text
or_lowest task_id none = none
or_lowest task_id (some roots) = some (lowest_root task_id roots)

unfoldable pub stack_root : Store → Text → Option Text
stack_root s task_id =
    or_lowest task_id (collect_roots (parents_of s) (rounds s) (task_id ∷ []) [] [])

abbrev one_if_root : Text → Option Text → ℕ
one_if_root root none = 0
one_if_root root (some r) = if r == root then 1 else 0

abbrev count_rooted : Store → Text → List Text → ℕ
count_rooted s root [] = 0
count_rooted s root (i ∷ ids) = one_if_root root (stack_root s i) + count_rooted s root ids

-- `stack_size_under_root`; by the theorem on `stack_root` no walk runs out of fuel.
unfoldable pub stack_size_under_root : Store → Text → ℕ
stack_size_under_root s root = count_rooted s root (task_ids s)

-- The depth that `_depth` returns, and whether it met a task on its own path.
pub record Depth : Type 0 where
  pub depth : ℕ
  pub cyclic : Bool

abbrev pub max_ℕ : ℕ → ℕ → ℕ
max_ℕ a b = if ltb a b then b else a

abbrev pub join : Depth → Option Depth → Option Depth
join a none = none
join a (some b) = some (record { depth = max_ℕ a.depth b.depth; cyclic = a.cyclic || b.cyclic })

-- `max(_depth(p) for p in parents)`, with 0 for the empty sequence, which is not met.
unfoldable pub deepest : (Text → Option Depth) → List Text → Option Depth
deepest visit [] = some (record { depth = 0; cyclic = false })
deepest visit (p ∷ parents) = elim (visit p) [
  | none ↦ none
  | some a ↦ join a (deepest visit parents)
]

abbrev pub one_more : Option Depth → Option Depth
one_more none = none
one_more (some d) = some (record { depth = suc d.depth; cyclic = d.cyclic })

-- `_depth`, with the set `on_stack` and fuel for the length of a path.
unfoldable pub depth_of : (Text → List Text) → ℕ → List Text → Text → Option Depth
depth_of parents zero on_stack node = none
depth_of parents (suc fuel) on_stack node =
    let above = one_more (deepest (depth_of parents fuel (node ∷ on_stack)) (parents node)) in
    if elem node on_stack then some (record { depth = 0; cyclic = true }) else above

-- `max(depth, max_depth_sentinel + 1)` after a cycle.
abbrev pub refuse_cycle : ℕ → Option Depth → Option ℕ
refuse_cycle sentinel none = none
refuse_cycle sentinel (some d) = some (if d.cyclic then max_ℕ d.depth (suc sentinel) else d.depth)

unfoldable pub stack_depth : Store → Text → ℕ → Option ℕ
stack_depth s task_id sentinel =
    refuse_cycle sentinel (depth_of (parents_of s) (suc (suc (length (task_ids s)))) [] task_id)
