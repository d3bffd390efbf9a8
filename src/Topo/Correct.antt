-- ===== src/Topo/Correct.antt =====
-- The order is topological, the loop ends, and it is found for every graph that has a ranking.
use quikode.Prelude.{
  ℕ, zero, suc, ◌≤◌, ◌<◌, true, some, List, [], ◌∷◌, Text, elem, count, elem_iff_count, length,
  sort, length-sort, ◌≡◌, refl, arith, ap, List-cases, inl, inr, ◌≢◌,
}
use quikode.Topo.Kahn.{
  Edge, Queue, degrees, round, loop, start, topo_order, ordered, out_of_fuel, check_length,
}
use quikode.Topo.Edges.{
  open_edges, remaining, has_edge, open_edges-eq-zero, elem_of_remaining, remaining-eq-zero,
}
use quikode.Topo.Invariant.{IsGraph, IsOrderedFrom, Inv, start-Inv, round-Inv, round-longer}

eq-nil_of_sort : (xs : List Text) → sort xs ≡ [] → xs ≡ []
eq-nil_of_sort [] e = refl
eq-nil_of_sort (x ∷ xs) e = absurd (omega (arith, length-sort (x ∷ xs), ap length e))

module _ (ids : List Text) (edges : List Edge) (graph : IsGraph ids edges) where
  -- The loop ends with an empty queue, the invariant still holding.
  record Ends (fuel : ℕ) (q : Queue) : Type 0 where
    last : Queue
    returns : loop fuel (degrees edges).rev q ≡ some last.out
    inv : Inv ids edges last
    empty : last.ready ≡ []

  loop-Ends : (fuel : ℕ) (q : Queue) → Inv ids edges q → remaining q.out ids ≤ fuel → Ends fuel q
  unfolding loop
  loop-Ends zero q inv h = elim (List-cases (sort q.ready)) [
    | inl e ↦ record {
      last = q;
      returns = rw (e, loop);
      inv = inv;
      empty = eq-nil_of_sort q.ready e;
    }
    | inr (cur, rest, e) ↦
        let inv' = round-Inv ids edges graph q inv cur rest e in
        absurd
          (omega (arith, inv.counted, inv'.counted, round-longer ids edges graph q inv cur rest e))
  ]
  loop-Ends (suc fuel) q inv h = elim (List-cases (sort q.ready)) [
    | inl e ↦ record {
      last = q;
      returns = rw (e, loop);
      inv = inv;
      empty = eq-nil_of_sort q.ready e;
    }
    | inr (cur, rest, e) ↦
        let inv' = round-Inv ids edges graph q inv cur rest e in
        let longer = round-longer ids edges graph q inv cur rest e in
        let ends =
          loop-Ends fuel (round (degrees edges).rev q cur rest) inv'
            (omega (arith, inv.counted, inv'.counted, longer)) in
        record {
          last = ends.last;
          returns = rw (e, loop) ends.returns;
          inv = ends.inv;
          empty = ends.empty;
        }
  ]

  all_rounds : Ends (length ids) (start ids edges)
  all_rounds =
      let inv = start-Inv ids edges graph in
      loop-Ends (length ids) (start ids edges) inv (omega (arith, inv.counted))

  -- Any graph gives an order or the cycle error within as many rounds as it has ids.
  pub topo_order-ne-out_of_fuel : topo_order ids edges ≢ out_of_fuel
  unfolding topo_order check_length
  topo_order-ne-out_of_fuel e = ground (arith, all_rounds)

  -- An order holds exactly the ids, each once, and each after all that it depends on.
  pub topo_order-is_sound :
      (out : List Text)
      → topo_order ids edges ≡ ordered out
      → ((n : Text) → count n out ≡ count n ids) × IsOrderedFrom [] edges out
  unfolding topo_order check_length
  topo_order-is_sound out e =
      let all = all_rounds in
      let same : (all.last.out ≡ out) × (length out ≡ length ids) = ground (arith, all.returns) in
      (
        λ n. ground (
          arith,
          same,
          all.inv.fresh n,
          all.inv.placed n,
          all.inv.counted,
          elem_iff_count n out,
          elem_iff_count n ids,
          graph.unique n,
          elem_of_remaining n out ids,
        ),
        rw (← same.0) all.inv.ordered,
      )

  -- A rank that falls along every edge.
  pub record IsRanked (rank : Text → ℕ) : Type 0 where
    pub falls : (n d : Text) → has_edge n d edges ≡ true → rank d < rank n
    pub inside : (n d : Text) → has_edge n d edges ≡ true → elem d ids ≡ true

  placed_below :
      (rank : Text → ℕ)
      → IsRanked rank
      → (bound : ℕ) (n : Text) → elem n ids ≡ true
      → rank n < bound
      → elem n (all_rounds).last.out ≡ true
  placed_below rank ranked zero n known h = absurd (omega arith)
  placed_below rank ranked (suc bound) n known h =
      let all = all_rounds in
      let open_none : open_edges n all.last.out edges ≡ 0 =
        open_edges-eq-zero n all.last.out edges (λ d e.
          placed_below rank ranked bound d (ranked.inside n d e)
            (omega (arith, ranked.falls n d e))) in
      ground (arith, all.inv.complete n, all.inv.degree n, open_none, all.empty)

  -- A graph with a rank that falls along every edge is ordered: the cycle error is never spurious.
  pub topo_order-is_complete :
      (rank : Text → ℕ) → IsRanked rank → (out : List Text) × (topo_order ids edges ≡ ordered out)
  unfolding topo_order check_length
  topo_order-is_complete rank ranked =
      let all = all_rounds in
      let none_left =
        remaining-eq-zero all.last.out ids
          (λ n known. placed_below rank ranked (suc (rank n)) n known (omega arith)) in
      (all.last.out, ground (arith, all.returns, all.inv.counted, none_left))
