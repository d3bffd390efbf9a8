-- ===== src/Topo/Invariant.antt =====
-- What holds of the queue between two rounds of the outer loop.
use quikode.Prelude.{
  suc, ◌+◌, ◌≤◌, ◌<◌, Bool, true, false, ◌||◌, List, [], ◌∷◌, ◌++◌, Text, ==_iff, if◌then◌else◌,
  elem, elem-append, count, count-append, elem_iff_count, IsUnique, keep, nat_eq, length,
  length-append, sort, count-sort, ◌≡◌, arith, ◌∙◌, sym, ap, append-nil, append_assoc,
}
use quikode.Topo.Kahn.{Edge, Queue, degrees, round, start}
use quikode.Topo.Edges.{
  open_edges, remaining, children, open_edges-snoc, open_edges-le, remaining-snoc, remaining-nil,
  degrees-indeg, degrees-rev,
}
use quikode.Topo.Relax.{falls, foldl-relax}

-- Each text of the list has no open edge when it is reached.
abbrev pub IsOrderedFrom : List Text → List Edge → List Text → Type 0
IsOrderedFrom before edges [] = Unit
IsOrderedFrom before edges (n ∷ out) =
    (open_edges n before edges ≡ 0) × IsOrderedFrom (before ++ n ∷ []) edges out

-- The dictionary's keys are distinct, and only keys have edges.
pub record IsGraph (ids : List Text) (edges : List Edge) : Type 0 where
  pub unique : IsUnique ids
  pub sourced : (n : Text) → elem n ids ≡ false → open_edges n [] edges ≡ 0

pub record Inv (ids : List Text) (edges : List Edge) (q : Queue) : Type 0 where
  pub degree : (n : Text) → q.indeg n ≡ open_edges n q.out edges
  pub waits : (n : Text) → elem n q.ready ≡ true → (elem n ids ≡ true) × (q.indeg n ≡ 0)
  pub fresh : (n : Text) → count n q.out + count n q.ready ≤ 1
  pub placed : (n : Text) → elem n q.out ≡ true → (elem n ids ≡ true) × (q.indeg n ≡ 0)
  pub complete :
      (n : Text) → elem n ids ≡ true → q.indeg n ≡ 0 → (elem n q.out || elem n q.ready) ≡ true
  pub counted : length q.out + remaining q.out ids ≡ length ids
  pub ordered : IsOrderedFrom [] edges q.out

IsOrderedFrom-snoc :
    (before : List Text) (edges : List Edge) (out : List Text) (n : Text)
    → IsOrderedFrom before edges out
    → open_edges n (before ++ out) edges ≡ 0
    → IsOrderedFrom before edges (out ++ n ∷ [])
IsOrderedFrom-snoc before edges [] n h e = (rw append-nil at e, tt)
IsOrderedFrom-snoc before edges (x ∷ out) n (h, hs) e = (
  h,
  IsOrderedFrom-snoc (before ++ x ∷ []) edges out n hs
      (rw (← append_assoc before (x ∷ []) out) at e),
)

count-keep :
    (n : Text) (p : Text → Bool) (xs : List Text)
    → count n (keep p xs) ≡ (if p n then count n xs else 0)
count-keep n p [] = ground arith
count-keep n p (x ∷ xs) = ground (arith, ==_iff x n, count-keep n p xs)

module _ (ids : List Text) (edges : List Edge) (graph : IsGraph ids edges) where
  pub start-Inv : Inv ids edges (start ids edges)
  start-Inv = record {
    degree = λ n. degrees-indeg n edges;
    waits = λ n h. ground (
      arith,
      elem_iff_count n (start ids edges).ready,
      elem_iff_count n ids,
      count-keep n (λ x. nat_eq ((degrees edges).indeg x) 0) ids,
    );
    fresh = λ n.
        ground (arith, graph.unique n, count-keep n (λ x. nat_eq ((degrees edges).indeg x) 0) ids);
    placed = λ n h. cc;
    complete = λ n h e. ground (
      arith,
      elem_iff_count n (start ids edges).ready,
      elem_iff_count n ids,
      count-keep n (λ x. nat_eq ((degrees edges).indeg x) 0) ids,
    );
    counted = omega (arith, remaining-nil ids);
    ordered = tt;
  }

  -- The facts about one id in a round that pops `cur`.
  module _ (q : Queue) (inv : Inv ids edges q) (cur : Text) (rest : List Text)
      (sorted : sort q.ready ≡ cur ∷ rest) where
    abbrev kids : List Text
    kids = children cur edges

    count-ready : (n : Text) → count n q.ready ≡ count n (cur ∷ rest)
    count-ready n = sym (count-sort n q.ready) ∙ ap (count n) sorted

    cur_waits : (elem cur q.ready ≡ true) × (elem cur q.out ≡ false)
    cur_waits = ground (
      arith,
      count-ready cur,
      ==_iff cur cur,
      elem_iff_count cur q.ready,
      elem_iff_count cur q.out,
      inv.fresh cur,
    )

    open_after :
        (n : Text)
        → open_edges n q.out edges ≡ open_edges n (q.out ++ cur ∷ []) edges + count n kids
    open_after n = open_edges-snoc n cur q.out edges cur_waits.1

    record After (n : Text) (q' : Queue) : Type 0 where
      indeg : q'.indeg n + count n kids ≡ q.indeg n
      ready : count n q'.ready ≡ count n rest + (if falls n q kids then 1 else 0)
      out : q'.out ≡ q.out ++ cur ∷ []

    round-After : (n : Text) → After n (round (degrees edges).rev q cur rest)
    unfolding round
    round-After n =
        let q0 : Queue = record q { ready = rest; out = q.out ++ cur ∷ [] } in
        let (indeg, ready, out) =
          foldl-relax n kids q0 (omega (arith, open_after n, inv.degree n)) in
        rw (degrees-rev cur edges) (record { indeg = indeg; ready = ready; out = out })

    cur_is_id : (elem cur ids ≡ true) × (q.indeg cur ≡ 0)
    cur_is_id = inv.waits cur cur_waits.0

    -- An id with no edges at all is no child.
    kid_is_id : (n : Text) → 0 < count n kids → elem n ids ≡ true
    kid_is_id n h = ground (arith, graph.sourced n, open_after n, open_edges-le n q.out edges)

    pub round-Inv : Inv ids edges (round (degrees edges).rev q cur rest)
    round-Inv =
        let q' = round (degrees edges).rev q cur rest in
        let out_is : q'.out ≡ q.out ++ cur ∷ [] = (round-After cur).out in
        record {
          degree = λ n. rw out_is (omega (arith, round-After n, open_after n, inv.degree n));
          waits = λ n h. ground (
            arith,
            round-After n,
            elem_iff_count n q'.ready,
            elem_iff_count n q.ready,
            count-ready n,
            inv.waits n,
            kid_is_id n,
          );
          fresh = λ n. ground (
            arith,
            round-After n,
            out_is,
            count-append n q.out (cur ∷ []),
            count-ready n,
            inv.fresh n,
            inv.waits n,
            inv.placed n,
            elem_iff_count n q.ready,
            elem_iff_count n q.out,
            ==_iff cur n,
          );
          placed = λ n h. ground (
            arith,
            round-After n,
            out_is,
            elem-append n q.out (cur ∷ []),
            inv.placed n,
            ==_iff cur n,
            cur_is_id,
          );
          complete = λ n h e. ground (
            arith,
            round-After n,
            out_is,
            elem-append n q.out (cur ∷ []),
            elem_iff_count n q'.ready,
            elem_iff_count n q.ready,
            count-ready n,
            inv.complete n,
          );
          counted = ground (
            arith,
            out_is,
            length-append q.out (cur ∷ []),
            remaining-snoc cur q.out ids,
            cur_waits,
            cur_is_id,
            elem_iff_count cur ids,
            graph.unique cur,
            inv.counted,
          );
          ordered = rw out_is (
              IsOrderedFrom-snoc [] edges q.out cur inv.ordered
                (sym (inv.degree cur) ∙ cur_is_id.1));
        }

    pub round-longer : length (round (degrees edges).rev q cur rest).out ≡ suc (length q.out)
    round-longer = ground (arith, (round-After cur).out, length-append q.out (cur ∷ []))
