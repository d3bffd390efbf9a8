-- ===== src/Dag/Graph.antt =====
-- The `DAG` class of quikode/dag.py. `self.nodes` is a dictionary in the order of insertion, each
-- node under its own id. A node keeps the fields that the methods read. A set of ids is a list of
-- them, and its iteration order is the list's.
use quikode.Prelude.{
  ℕ, zero, suc, ◌+◌, Bool, false, ◌||◌, Option, none, some, List, [], ◌∷◌, ◌++◌, map, foldl,
  reverse, Text, ◌==◌, elem, if◌then◌else◌, all, find, keep, length, sort_by,
}
use quikode.Topo.Kahn.{Edge, Order, topo_order}
use quikode.Walk.Loop.{walk, pushes}

pub record Node : Type 0 where
  pub id : Text
  pub kind : Text
  pub milestone : Text
  pub depends_on : List Text

abbrev pub Dag : Type 0
Dag = List Node

-- `nodes[n["id"]] = Node(...)`: a new key goes last, an old one keeps its place.
abbrev pub set_node : Dag → Node → Dag
set_node [] n = n ∷ []
set_node (m ∷ nodes) n = let rest = set_node nodes n in if m.id == n.id then n ∷ nodes else m ∷ rest

abbrev pub load : List Node → Dag
load raw = foldl set_node [] raw

abbrev pub node_ids : Dag → List Text
node_ids nodes = map (λ n. n.id) nodes

-- `self.nodes.get(nid)`
abbrev pub get_node : Dag → Text → Option Node
get_node nodes nid = find (λ n. n.id == nid) nodes

-- The pairs (id, dependency) for which `_topo_order` counts an edge: those inside the graph.
abbrev pub known_edges : List Text → Dag → List Edge
known_edges ids [] = []
known_edges ids (n ∷ nodes) =
    map (λ d. (n.id, d)) (keep (λ d. elem d ids) n.depends_on) ++ known_edges ids nodes

unfoldable pub topo_order_of : Dag → Order
topo_order_of nodes = topo_order (node_ids nodes) (known_edges (node_ids nodes) nodes)

-- `skip_kinds or set()`
abbrev pub kinds_or_empty : Option (List Text) → List Text
kinds_or_empty none = []
kinds_or_empty (some kinds) = kinds

abbrev pub is_ready : List Text → List Text → List Text → Node → Bool
is_ready completed in_progress skip n =
    if elem n.id completed || elem n.id in_progress
    then false
    else if elem n.kind skip
    then false
    else all (λ d. elem d completed) n.depends_on

unfoldable pub ready_nodes : Dag → List Text → List Text → Option (List Text) → List Node
ready_nodes nodes completed in_progress skip_kinds =
    sort_by (λ n. n.id) (keep (is_ready completed in_progress (kinds_or_empty skip_kinds)) nodes)

-- What the walks push for an id: the dependencies of a node of the graph.
abbrev pub depends_of : Option Node → List Text
depends_of none = []
depends_of (some n) = n.depends_on

abbrev pub next_of : Dag → Text → List Text
next_of nodes cur = depends_of (get_node nodes cur)

-- The walk from `list(seed)`, with fuel for every push that it can make.
abbrev pub closure : Dag → List Text → Option (List Text)
closure nodes seed =
    walk (next_of nodes) (length seed + pushes (next_of nodes) [] (node_ids nodes)) (reverse seed)
      []

abbrev pub ids_seed : Dag → Option (List Text) → List Text
ids_seed nodes none = []
ids_seed nodes (some ids) = keep (λ i. elem i (node_ids nodes)) ids

-- `if milestone:` takes the empty text for none.
abbrev pub milestone_seed : Dag → Option Text → List Text
milestone_seed nodes none = []
milestone_seed nodes (some []) = []
milestone_seed nodes (some (c ∷ m)) = node_ids (keep (λ n. n.milestone == (c ∷ m)) nodes)

-- `DAG.filter`
unfoldable pub filter : Dag → Option (List Text) → Option Text → Option (List Text)
filter nodes none none = some (node_ids nodes)
filter nodes none (some m) = closure nodes (milestone_seed nodes (some m))
filter nodes (some ids) milestone =
    closure nodes (ids_seed nodes (some ids) ++ milestone_seed nodes milestone)

unfoldable pub ancestors_of : Dag → Text → Option (List Text)
ancestors_of nodes node_id = elim (get_node nodes node_id) [
  | none ↦ some []
  | some n ↦ closure nodes n.depends_on
]

-- `rev[d].append(nid)` for each node and each of its dependencies.
abbrev pub rev_of : Dag → Text → List Text
rev_of [] d = []
rev_of (n ∷ nodes) d = map (λ _. n.id) (keep (λ x. x == d) n.depends_on) ++ rev_of nodes d

pub record Descent : Type 0 where
  pub out : List Text
  pub stack : List Text

-- `if child not in out: out.add(child); stack.append(child)`
unfoldable pub add_child : Descent → Text → Descent
add_child s child =
    if elem child s.out then s else record { out = s.out ++ child ∷ []; stack = child ∷ s.stack }

-- The `while` loop of `descendants_of`, with fuel.
unfoldable pub descend : (Text → List Text) → ℕ → List Text → List Text → Option (List Text)
descend rev fuel out [] = some out
descend rev zero out (cur ∷ stack) = none
descend rev (suc fuel) out (cur ∷ stack) =
    let s = foldl add_child (record { out = out; stack = stack }) (rev cur) in
    descend rev fuel s.out s.stack

unfoldable pub descendants_of : Dag → Text → Option (List Text)
descendants_of nodes node_id =
    descend (rev_of nodes) (suc (length (node_ids nodes))) [] (node_id ∷ [])
