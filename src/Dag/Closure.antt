-- ===== src/Dag/Closure.antt =====
-- `filter`, `ancestors_of` and `descendants_of` compute closures, and the last two are dual.
use quikode.Prelude.{
  ℕ, zero, suc, ◌+◌, ◌≤◌, true, false, not, ◌&&◌, ◌||◌, Option, none, some, List, [], ◌∷◌, ◌++◌,
  map, foldl, keep, Text, ◌==◌, ==_iff, elem, elem-append, elem_iff_count, IsUnique, length, ◌≡◌,
  refl, arith, Bool-cases, Option-cases, inl, inr, ◌↔◌,
}
use quikode.Topo.Edges.{remaining, remaining-snoc, remaining-nil}
use quikode.Walk.Closure.{Reach, here, step, walk-is_closure}
use quikode.Dag.Graph.{
  Node, Dag, load, node_ids, get_node, next_of, closure, ids_seed, milestone_seed, filter,
  ancestors_of, rev_of, Descent, add_child, descend, descendants_of,
}
use quikode.Dag.Order.{load-IsUnique}

next-unknown : (nodes : Dag) (n : Text) → elem n (node_ids nodes) ≡ false → next_of nodes n ≡ []
next-unknown [] n h = refl
next-unknown (m ∷ nodes) n h = ground (arith, h, next-unknown nodes n)

-- The closure of a list of ids: the ids that the dependencies of known nodes lead to.
closure-is_closure :
    (nodes : Dag) (seed : List Text)
    → (r : List Text) × (closure nodes seed ≡ some r)
      × ((n : Text) → (elem n r ≡ true) ↔ Reach (next_of nodes) seed n)
closure-is_closure nodes seed =
    walk-is_closure (next_of nodes) (node_ids nodes) seed (next-unknown nodes) _ (omega arith)

-- Where the walk of `filter` starts, both arguments taken.
abbrev pub seed_of : Dag → Option (List Text) → Option Text → List Text
seed_of nodes none none = node_ids nodes
seed_of nodes none (some m) = milestone_seed nodes (some m)
seed_of nodes (some ids) milestone = ids_seed nodes (some ids) ++ milestone_seed nodes milestone

-- `filter` with ids ends, and returns exactly what the dependencies of known nodes lead to from the
-- given ids that are in the graph and from the nodes of the milestone.
pub filter-is_closure :
    (nodes : Dag) (ids : List Text) (milestone : Option Text)
    → (r : List Text) × (filter nodes (some ids) milestone ≡ some r)
      × ((n : Text)
          → (elem n r ≡ true)
            ↔ Reach (next_of nodes) (ids_seed nodes (some ids) ++ milestone_seed nodes milestone) n)
unfolding filter
filter-is_closure nodes ids milestone =
    closure-is_closure nodes (ids_seed nodes (some ids) ++ milestone_seed nodes milestone)

no_reach {ℓ} : {A : Type ℓ} (next : Text → List Text) (n : Text) → Reach next [] n → A
no_reach next n (here _ h) = cc
no_reach next n (step m _ h k) = no_reach next m h

-- `ancestors_of` ends, and returns exactly the ids that a path of dependencies leads to.
pub ancestors_of-is_closure :
    (nodes : Dag) (a : Text)
    → (r : List Text) × (ancestors_of nodes a ≡ some r)
      × ((n : Text) → (elem n r ≡ true) ↔ Reach (next_of nodes) (next_of nodes a) n)
unfolding ancestors_of
ancestors_of-is_closure nodes a = elim (Option-cases (get_node nodes a)) [
  | inl e ↦ rw (e, ancestors_of) ([], refl, λ n. (λ h. cc, λ h. no_reach (next_of nodes) n h))
  | inr (m, e) ↦ rw (e, ancestors_of) (closure-is_closure nodes m.depends_on)
]

-- One pop of `descendants_of` adds the children not yet out, and pushes those.
record Added (s s' : Descent) (kids : List Text) (n : Text) : Type 0 where
  out : elem n s'.out ≡ (elem n s.out || elem n kids)
  stack : elem n s'.stack ≡ (elem n s.stack || (elem n kids && not (elem n s.out)))

add_children-Added :
    (kids : List Text) (s : Descent) (n : Text) → Added s (foldl add_child s kids) kids n
unfolding add_child
add_children-Added [] s n = record { out = ground arith; stack = ground arith }
add_children-Added (k ∷ kids) s n = elim (Bool-cases (elem k s.out)) [
  | inl old ↦
      let rest = add_children-Added kids s n in
      rw old (record {
        out = ground (arith, ==_iff k n, old, rest.out);
        stack = ground (arith, ==_iff k n, old, rest.stack);
      })
  | inr new ↦
      let s1 : Descent = record { out = s.out ++ k ∷ []; stack = k ∷ s.stack } in
      let rest = add_children-Added kids s1 n in
      rw new (record {
        out = ground (arith, ==_iff k n, elem-append n s.out (k ∷ []), rest.out);
        stack = ground (arith, ==_iff k n, new, elem-append n s.out (k ∷ []), rest.stack);
      })
]

add_child-le :
    (ids : List Text) (k : Text) (s : Descent)
    → elem k ids ≡ true
    → length (add_child s k).stack + remaining (add_child s k).out ids
      ≤ length s.stack + remaining s.out ids
unfolding add_child
add_child-le ids k s known = ground (arith, remaining-snoc k s.out ids, known, elem_iff_count k ids)

add_children-le :
    (ids kids : List Text) (s : Descent)
    → ((k : Text) → elem k kids ≡ true → elem k ids ≡ true)
    → length (foldl add_child s kids).stack + remaining (foldl add_child s kids).out ids
      ≤ length s.stack + remaining s.out ids
add_children-le ids [] s h = omega arith
add_children-le ids (k ∷ kids) s h =
    let one = add_child-le ids k s (h k (ground (arith, ==_iff k k))) in
    let rest = add_children-le ids kids (add_child s k) (λ j e. h j (ground (arith, e))) in
    omega (arith, one, rest)

module _ (rev : Text → List Text) where
  descend-returns :
      (ids : List Text)
      → ((m k : Text) → elem k (rev m) ≡ true → elem k ids ≡ true)
      → (fuel : ℕ) (out stack : List Text) → length stack + remaining out ids ≤ fuel
      → (r : List Text) × (descend rev fuel out stack ≡ some r)
  unfolding descend
  descend-returns ids known fuel out [] h = (out, refl)
  descend-returns ids known zero out (cur ∷ stack) h = absurd (omega arith)
  descend-returns ids known (suc fuel) out (cur ∷ stack) h =
      let s0 : Descent = record { out = out; stack = stack } in
      let s = foldl add_child s0 (rev cur) in
      descend-returns ids known fuel s.out s.stack
        (omega (arith, add_children-le ids (rev cur) s0 (known cur)))

  descend-is_sound :
      (seed : List Text) (fuel : ℕ) (out stack r : List Text)
      → ((n : Text) → elem n out ≡ true → Reach rev seed n)
      → ((m n : Text) → elem m stack ≡ true → elem n (rev m) ≡ true → Reach rev seed n)
      → descend rev fuel out stack ≡ some r
      → (n : Text) → elem n r ≡ true
      → Reach rev seed n
  unfolding descend
  descend-is_sound seed fuel out [] r a b e n h = a n (ground (arith, e))
  descend-is_sound seed zero out (cur ∷ stack) r a b e n h = cc
  descend-is_sound seed (suc fuel) out (cur ∷ stack) r a b e n h =
      let s0 : Descent = record { out = out; stack = stack } in
      let s = foldl add_child s0 (rev cur) in
      let kid : (m : Text) → elem m (rev cur) ≡ true → Reach rev seed m =
        λ m k. b cur m (ground (arith, ==_iff cur cur)) k in
      descend-is_sound seed fuel s.out s.stack r
        (λ m k. elim (Bool-cases (elem m (rev cur))) [
          | inl is ↦ kid m is
          | inr not ↦ a m (ground (arith, k, (add_children-Added (rev cur) s0 m).out))
        ])
        (λ m j k l. elim (Bool-cases (elem m (rev cur))) [
          | inl is ↦ step m j (kid m is) l
          | inr not ↦ b m j (ground (arith, k, (add_children-Added (rev cur) s0 m).stack)) l
        ])
        e n h

  descend-is_closed :
      (a : Text) (fuel : ℕ) (out stack r : List Text)
      → ((m n : Text)
          → (m == a || elem m out) ≡ true
          → elem n (rev m) ≡ true
          → (elem n out || elem m stack) ≡ true)
      → descend rev fuel out stack ≡ some r
      → (m n : Text) → (m == a || elem m r) ≡ true
      → elem n (rev m) ≡ true
      → elem n r ≡ true
  unfolding descend
  descend-is_closed a fuel out [] r inv e m n h k = ground (arith, e, inv m n)
  descend-is_closed a zero out (cur ∷ stack) r inv e m n h k = cc
  descend-is_closed a (suc fuel) out (cur ∷ stack) r inv e m n h k =
      let s0 : Descent = record { out = out; stack = stack } in
      let s = foldl add_child s0 (rev cur) in
      descend-is_closed a fuel s.out s.stack r
        (λ m n h k. ground (
          arith,
          inv m n,
          ==_iff cur m,
          (add_children-Added (rev cur) s0 m).out,
          (add_children-Added (rev cur) s0 m).stack,
          (add_children-Added (rev cur) s0 n).out,
        ))
        e m n h k

  Reach-of_closed :
      (a : Text) (r : List Text)
      → ((m n : Text) → (m == a || elem m r) ≡ true → elem n (rev m) ≡ true → elem n r ≡ true)
      → (n : Text) → Reach rev (rev a) n
      → elem n r ≡ true
  Reach-of_closed a r c n (here _ h) = c a n (ground (arith, ==_iff a a)) h
  Reach-of_closed a r c n (step m _ h k) = c m n (ground (arith, Reach-of_closed a r c m h)) k

elem-rev_one :
    (id d n : Text) (deps : List Text)
    → elem n (map (λ _. id) (keep (λ x. x == d) deps)) ≡ (id == n && elem d deps)
elem-rev_one id d n [] = ground arith
elem-rev_one id d n (x ∷ deps) = ground (arith, elem-rev_one id d n deps)

-- The dependents of `d` among the nodes: those of the first node and those of the rest.
elem-rev_of :
    (m : Node) (nodes : Dag) (d n : Text)
    → elem n (rev_of (m ∷ nodes) d)
      ≡ ((m.id == n && elem d m.depends_on) || elem n (rev_of nodes d))
elem-rev_of m nodes d n = ground (
  arith,
  elem-append n (map (λ _. m.id) (keep (λ x. x == d) m.depends_on)) (rev_of nodes d),
  elem-rev_one m.id d n m.depends_on,
)

rev-known :
    (nodes : Dag) (d n : Text) → elem n (rev_of nodes d) ≡ true → elem n (node_ids nodes) ≡ true
rev-known [] d n h = cc
rev-known (m ∷ nodes) d n h = ground (arith, h, rev-known nodes d n, elem-rev_of m nodes d n)

-- `descendants_of` ends, and returns exactly the ids that a path of dependents leads to.
pub descendants_of-is_closure :
    (nodes : Dag) (a : Text)
    → (r : List Text) × (descendants_of nodes a ≡ some r)
      × ((n : Text) → (elem n r ≡ true) ↔ Reach (rev_of nodes) (rev_of nodes a) n)
unfolding descendants_of
descendants_of-is_closure nodes a =
    let (r, e) =
      descend-returns (rev_of nodes) (node_ids nodes) (rev-known nodes)
        (suc (length (node_ids nodes))) [] (a ∷ [])
        (omega (arith, remaining-nil (node_ids nodes))) in
    (
      r,
      e,
      λ n. (
        descend-is_sound (rev_of nodes) (rev_of nodes a) _ [] (a ∷ []) r (λ m h. cc)
            (λ m k h l. here k (ground (arith, ==_iff a m, l))) e n,
        Reach-of_closed (rev_of nodes) a r
            (descend-is_closed (rev_of nodes) a _ [] (a ∷ []) r
              (λ m k h l. ground (arith, h, ==_iff a m, ==_iff m a)) e)
            n,
      ),
    )

-- With distinct ids the two relations of the graph are each other's converse.
edge-converse :
    (nodes : Dag)
    → IsUnique (node_ids nodes)
    → (n d : Text) → elem d (next_of nodes n) ≡ elem n (rev_of nodes d)
edge-converse [] unique n d = refl
edge-converse (m ∷ nodes) unique n d = elim (Bool-cases (m.id == n)) [
  | inl same ↦ ground (
    arith,
    same,
    unique n,
    elem-rev_of m nodes d n,
    rev-known nodes d n,
    elem_iff_count n (node_ids nodes),
  )
  | inr other ↦ ground (
    arith,
    other,
    elem-rev_of m nodes d n,
    edge-converse nodes (λ k. ground (arith, unique k)) n d,
  )
]

prepend :
    (f : Text → List Text) (a b n : Text) → elem b (f a) ≡ true → Reach f (f b) n → Reach f (f a) n
prepend f a b n h (here _ k) = step b n (here b h) k
prepend f a b n h (step m _ p k) = step m n (prepend f a b m h p) k

turn :
    (f g : Text → List Text)
    → ((n d : Text) → elem d (f n) ≡ elem n (g d))
    → (a n : Text) → Reach f (f a) n
    → Reach g (g n) a
turn f g conv a n (here _ h) = here a (ground (arith, conv a n))
turn f g conv a n (step m _ p k) = prepend g n m a (ground (arith, conv m n)) (turn f g conv a m p)

-- On a loaded graph, `n` is among the descendants of `a` exactly when `a` is among the ancestors
-- of `n`; both calls end.
pub descendants_iff_ancestors :
    (raw : List Node) (a n : Text)
    → (down up : List Text) × (descendants_of (load raw) a ≡ some down)
      × (ancestors_of (load raw) n ≡ some up)
      × ((elem n down ≡ true) ↔ (elem a up ≡ true))
descendants_iff_ancestors raw a n =
    let nodes = load raw in
    let (down, e, is_down) = descendants_of-is_closure nodes a in
    let (up, u, is_up) = ancestors_of-is_closure nodes n in
    let conv = edge-converse nodes (load-IsUnique raw) in
    (
      down,
      up,
      e,
      u,
      (
        λ h. (is_up a).1 (
            turn (rev_of nodes) (next_of nodes) (λ x y. ground (arith, conv y x)) a n
              ((is_down n).0 h)),
        λ h. (is_down n).1 (turn (next_of nodes) (rev_of nodes) conv n a ((is_up a).0 h)),
      ),
    )
