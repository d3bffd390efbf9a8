-- ===== src/Topo/Relax.antt =====
-- The inner loop: what decrementing the children of a popped id does to each id.
use quikode.Prelude.{
  ◌+◌, ◌≤◌, Bool, ◌&&◌, List, [], ◌∷◌, Text, ==_iff, if◌then◌else◌, count, count-append, foldl,
  nat_eq, ltb, ◌≡◌, arith,
}
use quikode.Topo.Kahn.{Queue, relax}

-- The id reaches zero in the loop over `xs`.
abbrev pub falls : Text → Queue → List Text → Bool
falls n q xs = ltb 0 (count n xs) && nat_eq (q.indeg n) (count n xs)

-- An id loses its occurrences in `xs`, joins the queue once if that brings it to zero, and
-- nothing else happens to it.
pub foldl-relax :
    (n : Text) (xs : List Text) (q : Queue)
    → count n xs ≤ q.indeg n
    → ((foldl relax q xs).indeg n + count n xs ≡ q.indeg n)
      × (count n (foldl relax q xs).ready ≡ count n q.ready + (if falls n q xs then 1 else 0))
      × ((foldl relax q xs).out ≡ q.out)
unfolding relax
foldl-relax n [] q h = ground arith
foldl-relax n (x ∷ xs) q h =
    ground (arith, ==_iff x n, count-append n q.ready (x ∷ []), foldl-relax n xs (relax q x))
