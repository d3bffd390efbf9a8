-- ===== src/Dag/Order.antt =====
-- `DAG._topo_order` on a loaded graph.
use quikode.Prelude.{
  ℕ, ◌+◌, ◌<◌, true, false, ◌||◌, List, [], ◌∷◌, ◌++◌, map, foldl, keep, Text, ◌==◌, ==_iff, elem,
  count, elem_iff_count, IsUnique, if◌then◌else◌, ◌≡◌, ◌≢◌, refl, arith,
}
use quikode.Topo.Kahn.{Edge, ordered, out_of_fuel}
use quikode.Topo.Edges.{open_edges, has_edge}
use quikode.Topo.Invariant.{IsGraph, IsOrderedFrom}
use quikode.Topo.Correct.{topo_order-ne-out_of_fuel, topo_order-is_sound, topo_order-is_complete}
use quikode.Dag.Graph.{Node, Dag, set_node, load, node_ids, known_edges, topo_order_of}

-- Assigning a node adds its id once.
count-set_node :
    (k : Text) (nodes : Dag) (n : Node)
    → count k (node_ids (set_node nodes n)) ≡ (
        if elem n.id (node_ids nodes)
        then count k (node_ids nodes)
        else count k (node_ids nodes) + count k (n.id ∷ []))
count-set_node k [] n = omega arith
count-set_node k (m ∷ nodes) n =
    ground (arith, ==_iff m.id n.id, ==_iff m.id k, ==_iff n.id k, count-set_node k nodes n)

set_node-IsUnique :
    (nodes : Dag) (n : Node) → IsUnique (node_ids nodes) → IsUnique (node_ids (set_node nodes n))
set_node-IsUnique nodes n h k =
    ground
      (arith, count-set_node k nodes n, h k, elem_iff_count n.id (node_ids nodes), ==_iff n.id k)

load_from-IsUnique :
    (raw : List Node) (nodes : Dag)
    → IsUnique (node_ids nodes)
    → IsUnique (node_ids (foldl set_node nodes raw))
load_from-IsUnique [] nodes h = h
load_from-IsUnique (n ∷ raw) nodes h =
    load_from-IsUnique raw (set_node nodes n) (set_node-IsUnique nodes n h)

-- However often an id stands in the file, the loaded graph has it once.
pub load-IsUnique : (raw : List Node) → IsUnique (node_ids (load raw))
load-IsUnique raw = load_from-IsUnique raw [] (λ k. omega arith)

edges_of :
    (id n : Text) (edges : List Edge) (deps : List Text) (ids : List Text)
    → id == n ≡ false
    → open_edges n [] (map (λ d. (id, d)) (keep (λ d. elem d ids) deps) ++ edges)
      ≡ open_edges n [] edges
edges_of id n edges [] ids h = refl
edges_of id n edges (d ∷ deps) ids h = ground (arith, h, edges_of id n edges deps ids h)

sourced :
    (ids : List Text) (nodes : Dag) (n : Text)
    → elem n (node_ids nodes) ≡ false
    → open_edges n [] (known_edges ids nodes) ≡ 0
sourced ids [] n h = refl
sourced ids (m ∷ nodes) n h =
    ground (arith, h, edges_of m.id n (known_edges ids nodes) m.depends_on ids, sourced ids nodes n)

abbrev pub edges_in : Dag → List Edge
edges_in nodes = known_edges (node_ids nodes) nodes

pub dag-IsGraph : (raw : List Node) → IsGraph (node_ids (load raw)) (edges_in (load raw))
dag-IsGraph raw = record {
  unique = load-IsUnique raw;
  sourced = sourced (node_ids (load raw)) (load raw);
}

-- Whatever the file holds, the loop over the loaded graph ends with an order or the cycle error.
pub topo_order_of-ne-out_of_fuel : (raw : List Node) → topo_order_of (load raw) ≢ out_of_fuel
unfolding topo_order_of
topo_order_of-ne-out_of_fuel raw =
    topo_order-ne-out_of_fuel (node_ids (load raw)) (edges_in (load raw)) (dag-IsGraph raw)

-- If the loaded graph has an order, it holds exactly the ids of the graph, each once, and each id
-- stands after all its dependencies inside the graph.
pub topo_order_of-is_sound :
    (raw : List Node) (out : List Text)
    → topo_order_of (load raw) ≡ ordered out
    → ((n : Text) → count n out ≡ count n (node_ids (load raw)))
      × IsOrderedFrom [] (edges_in (load raw)) out
unfolding topo_order_of
topo_order_of-is_sound raw =
    topo_order-is_sound (node_ids (load raw)) (edges_in (load raw)) (dag-IsGraph raw)

-- A rank that falls from each node of the graph to its dependencies inside the graph.
abbrev pub Falls : Dag → (Text → ℕ) → Type 0
Falls nodes rank = (n d : Text) → has_edge n d (edges_in nodes) ≡ true → rank d < rank n

edge_inside :
    (ids : List Text) (id : Text) (deps : List Text) (edges : List Edge) (n d : Text)
    → has_edge n d (map (λ x. (id, x)) (keep (λ x. elem x ids) deps) ++ edges) ≡ true
    → (elem d ids || has_edge n d edges) ≡ true
edge_inside ids id [] edges n d h = ground (arith, h)
edge_inside ids id (x ∷ deps) edges n d h =
    ground (arith, h, ==_iff x d, edge_inside ids id deps edges n d)

has_edge-inside :
    (ids : List Text) (nodes : Dag) (n d : Text)
    → has_edge n d (known_edges ids nodes) ≡ true
    → elem d ids ≡ true
has_edge-inside ids [] n d h = cc
has_edge-inside ids (m ∷ nodes) n d h = ground (
  arith,
  edge_inside ids m.id m.depends_on (known_edges ids nodes) n d h,
  has_edge-inside ids nodes n d,
)

-- A loaded graph with a rank that falls along its dependencies is ordered: ValueError means a cycle.
pub topo_order_of-is_complete :
    (raw : List Node) (rank : Text → ℕ)
    → Falls (load raw) rank
    → (out : List Text) × (topo_order_of (load raw) ≡ ordered out)
unfolding topo_order_of
topo_order_of-is_complete raw rank falls =
    topo_order-is_complete (node_ids (load raw)) (edges_in (load raw)) (dag-IsGraph raw) rank
      (record { falls = falls; inside = has_edge-inside (node_ids (load raw)) (load raw) })
