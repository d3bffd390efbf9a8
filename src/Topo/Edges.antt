-- ===== src/Topo/Edges.antt =====
-- Counting edges and ids, and what the two dictionaries hold.
use quikode.Prelude.{
  ℕ, suc, ◌+◌, ◌≤◌, Bool, true, false, not, ◌&&◌, List, [], ◌∷◌, ◌++◌, Text, ◌==◌, ==_iff,
  if◌then◌else◌, elem, elem-append, count, any, foldl, length, ◌≡◌, refl, arith, ap, append_assoc,
  append-nil, sym,
}
use quikode.Topo.Kahn.{Edge, Degrees, count_edge, degrees}

-- The edges of `n` whose dependency is not among the texts of `out`.
abbrev pub open_edges : Text → List Text → List Edge → ℕ
open_edges n out [] = 0
open_edges n out ((m, d) ∷ edges) =
    if m == n && not (elem d out) then suc (open_edges n out edges) else open_edges n out edges

-- The ids that are not among the texts of `out`.
abbrev pub remaining : List Text → List Text → ℕ
remaining out [] = 0
remaining out (n ∷ ids) = if elem n out then remaining out ids else suc (remaining out ids)

-- `n` depends on `d`.
abbrev pub has_edge : Text → Text → List Edge → Bool
has_edge n d edges = any (λ e. e.0 == n && e.1 == d) edges

-- The ids that depend on `cur`, once for each edge.
abbrev pub children : Text → List Edge → List Text
children cur [] = []
children cur ((n, d) ∷ edges) = if d == cur then n ∷ children cur edges else children cur edges

pub open_edges-snoc :
    (n cur : Text) (out : List Text) (edges : List Edge)
    → elem cur out ≡ false
    → open_edges n out edges ≡ open_edges n (out ++ cur ∷ []) edges + count n (children cur edges)
open_edges-snoc n cur out [] h = omega arith
open_edges-snoc n cur out ((m, d) ∷ edges) h = ground (
  arith,
  elem-append d out (cur ∷ []),
  ==_iff cur d,
  ==_iff d cur,
  open_edges-snoc n cur out edges h,
)

pub open_edges-le :
    (n : Text) (out : List Text) (edges : List Edge)
    → open_edges n out edges ≤ open_edges n [] edges
open_edges-le n out [] = omega arith
open_edges-le n out ((m, d) ∷ edges) = ground (arith, open_edges-le n out edges)

pub elem_of_open_edges :
    (n d : Text) (out : List Text) (edges : List Edge)
    → open_edges n out edges ≡ 0
    → has_edge n d edges ≡ true
    → elem d out ≡ true
elem_of_open_edges n d out [] h e = cc
elem_of_open_edges n d out ((m, x) ∷ edges) h e =
    ground (arith, ==_iff x d, elem_of_open_edges n d out edges)

pub open_edges-eq-zero :
    (n : Text) (out : List Text) (edges : List Edge)
    → ((d : Text) → has_edge n d edges ≡ true → elem d out ≡ true)
    → open_edges n out edges ≡ 0
open_edges-eq-zero n out [] h = refl
open_edges-eq-zero n out ((m, x) ∷ edges) h =
    ground (arith, ==_iff x x, h x, open_edges-eq-zero n out edges (λ d e. h d (ground arith)))

pub remaining-snoc :
    (cur : Text) (out ids : List Text)
    → elem cur out ≡ false
    → remaining out ids ≡ remaining (out ++ cur ∷ []) ids + count cur ids
remaining-snoc cur out [] h = omega arith
remaining-snoc cur out (n ∷ ids) h =
    ground (
      arith,
      elem-append n out (cur ∷ []),
      ==_iff cur n,
      ==_iff n cur,
      remaining-snoc cur out ids h,
    )

pub elem_of_remaining :
    (n : Text) (out ids : List Text) → remaining out ids ≡ 0 → elem n ids ≡ true → elem n out ≡ true
elem_of_remaining n out [] h e = cc
elem_of_remaining n out (m ∷ ids) h e = ground (arith, ==_iff m n, elem_of_remaining n out ids)

pub remaining-eq-zero :
    (out ids : List Text)
    → ((n : Text) → elem n ids ≡ true → elem n out ≡ true)
    → remaining out ids ≡ 0
remaining-eq-zero out [] h = refl
remaining-eq-zero out (m ∷ ids) h =
    ground (arith, ==_iff m m, h m, remaining-eq-zero out ids (λ n e. h n (ground arith)))

pub remaining-nil : (ids : List Text) → remaining [] ids ≡ length ids
remaining-nil [] = refl
remaining-nil (n ∷ ids) = ap suc (remaining-nil ids)

-- The dictionaries after the loop that builds them.
fold-indeg :
    (n : Text) (edges : List Edge) (g : Degrees)
    → (foldl count_edge g edges).indeg n ≡ g.indeg n + open_edges n [] edges
unfolding count_edge
fold-indeg n [] g = omega arith
fold-indeg n ((m, d) ∷ edges) g =
    ground (arith, ==_iff m n, fold-indeg n edges (count_edge g (m, d)))

fold-rev :
    (cur : Text) (edges : List Edge) (g : Degrees)
    → (foldl count_edge g edges).rev cur ≡ g.rev cur ++ children cur edges
unfolding count_edge
fold-rev cur [] g = sym (append-nil (g.rev cur))
fold-rev cur ((m, d) ∷ edges) g = ground (
  arith,
  ==_iff d cur,
  fold-rev cur edges (count_edge g (m, d)),
  append_assoc (g.rev cur) (m ∷ []) (children cur edges),
)

pub degrees-indeg : (n : Text) (edges : List Edge) → (degrees edges).indeg n ≡ open_edges n [] edges
unfolding degrees
degrees-indeg n edges = omega (arith, fold-indeg n edges (record { indeg = λ _. 0; rev = λ _. [] }))

pub degrees-rev : (cur : Text) (edges : List Edge) → (degrees edges).rev cur ≡ children cur edges
unfolding degrees
degrees-rev cur edges = fold-rev cur edges (record { indeg = λ _. 0; rev = λ _. [] })
