-- ===== src/Tests/Graphs.antt =====
-- Runs of the roadmap graph of quikode/dag.py on a diamond that lists one node twice.
use quikode.Prelude.{
  ℕ, true, some, List, [], ◌∷◌, ◌++◌, Text, codes, ◌==◌, sort, text_le, elem, count, if◌then◌else◌,
  ◌≡◌, refl, ◌↔◌, arith,
}
use quikode.Topo.Kahn.{ordered, topo_order, degrees, count_edge, loop, round, relax, check_length}
use quikode.Topo.Invariant.{IsOrderedFrom}
use quikode.Walk.Closure.{Reach}
use quikode.Dag.Graph.{
  Node, load, node_ids, next_of, topo_order_of, filter, ids_seed, milestone_seed, descendants_of,
  ancestors_of,
}
use quikode.Dag.Order.{edges_in, Falls, topo_order_of-is_sound, topo_order_of-is_complete}
use quikode.Dag.Closure.{filter-is_closure, descendants_iff_ancestors}

abbrev node : Text → List Text → Node
node id deps = record {
  id = id;
  kind = codes "behavior";
  milestone = codes "M1";
  depends_on = deps;
}

abbrev a : Text
a = codes "a"

abbrev b : Text
b = codes "b"

abbrev c : Text
c = codes "c"

abbrev d : Text
d = codes "d"

-- `d` needs `b` and `c`, which need `a`; `b` also needs `x`, which the file does not have.
abbrev raw : List Node
raw =
    node d (b ∷ c ∷ []) ∷ node b [] ∷ node c (a ∷ []) ∷ node a [] ∷ node b (a ∷ codes "x" ∷ []) ∷ []

raw-is_ordered : topo_order_of (load raw) ≡ ordered (a ∷ b ∷ c ∷ d ∷ [])
unfolding topo_order_of topo_order degrees count_edge loop round relax check_length sort text_le
    ◌==◌
raw-is_ordered = refl

topo_order_of-is_sound_example :
    ((n : Text) → count n (a ∷ b ∷ c ∷ d ∷ []) ≡ count n (node_ids (load raw)))
    × IsOrderedFrom [] (edges_in (load raw)) (a ∷ b ∷ c ∷ d ∷ [])
topo_order_of-is_sound_example = topo_order_of-is_sound raw (a ∷ b ∷ c ∷ d ∷ []) raw-is_ordered

abbrev rank : Text → ℕ
rank n = if n == a then 0 else if n == d then 2 else 1

rank-Falls : Falls (load raw) rank
unfolding ◌==◌
rank-Falls n d h = ground arith

topo_order_of-is_complete_example : (out : List Text) × (topo_order_of (load raw) ≡ ordered out)
topo_order_of-is_complete_example = topo_order_of-is_complete raw rank rank-Falls

filter-is_closure_example :
    (r : List Text) × (filter (load raw) (some (c ∷ [])) (some (codes "M2")) ≡ some r)
    × ((n : Text)
        → (elem n r ≡ true)
          ↔ Reach
              (next_of (load raw))
              (ids_seed (load raw) (some (c ∷ [])) ++ milestone_seed (load raw) (some (codes "M2")))
              n)
filter-is_closure_example = filter-is_closure (load raw) (c ∷ []) (some (codes "M2"))

descendants_iff_ancestors_example :
    (down up : List Text) × (descendants_of (load raw) a ≡ some down)
    × (ancestors_of (load raw) d ≡ some up)
    × ((elem d down ≡ true) ↔ (elem a up ≡ true))
descendants_iff_ancestors_example = descendants_iff_ancestors raw a d
