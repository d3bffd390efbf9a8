-- ===== src/Merge/Lookup.antt =====
-- The merge node of a set of parents: one for all orders of the set, made at most once.
use quikode.Prelude.{
  none, some, List, [], ◌∷◌, Text, codes, ◌==◌, ==_refl, count, sort, if◌then◌else◌, ok, ◌≡◌, refl,
  sym, ap, arith, ◌⊎◌, inl, inr, Option-cases, ◌++◌,
}
use quikode.Fsm.Table.{pending}
use quikode.Store.Rows.{TaskRow, Store, new_row}
use quikode.Store.Tasks.{select, get}
use quikode.Store.Lookup.{select-insert}
use quikode.Merge.Parents.{create_merge_node, merge_row, join, list_text}
use quikode.Merge.Nodes.{compute_merge_node_id, merge_node_branch_name, lookup_or_create_merge_node}
use quikode.Merge.Sorted.{sort_of_counts}

compute-stable :
    (hexdigest : Text → Text) (p : Text) (xs ys : List Text)
    → ((k : Text) → count k (p ∷ xs) ≡ count k ys)
    → (id : Text) × (compute_merge_node_id hexdigest (p ∷ xs) ≡ ok id)
      × (compute_merge_node_id hexdigest ys ≡ ok id)
unfolding compute_merge_node_id
compute-stable hexdigest p xs [] same = absurd (ground (arith, same p, ==_refl p))
compute-stable hexdigest p xs (q ∷ ys) same = (
  codes "M-" ++ hexdigest (join (codes ",") (sort (p ∷ xs))),
  refl,
  ap (λ l. ok (codes "M-" ++ hexdigest (join (codes ",") l)))
      (sym (sort_of_counts (p ∷ xs) (q ∷ ys) same)),
)

-- A lookup of a node that is there gives its id and changes nothing.
lookup-found :
    (hexdigest : Text → Text) (ids branches : List Text) (id : Text) (r : TaskRow) (s : Store)
    → compute_merge_node_id hexdigest ids ≡ ok id
    → select id s.tasks ≡ some r
    → lookup_or_create_merge_node hexdigest ids branches s ≡ (ok id, s)
unfolding lookup_or_create_merge_node get
lookup-found hexdigest ids branches id r s e found = ground (arith, e, found)

-- The store after a row of a new key was added.
abbrev pub Added : Text → TaskRow → Store → Store → Type 0
Added id row s s' =
    (j : Text) → select j s'.tasks ≡ (if id == j then some row else select j s.tasks)

create-Added :
    (id : Text) (ids branches : List Text) (branch : Text) (s : Store)
    → select id s.tasks ≡ none
    → (s' : Store) × (create_merge_node id ids branches branch s ≡ (ok tt, s'))
      × Added id (merge_row id ids branches branch) s s'
unfolding create_merge_node merge_row new_row
create-Added id ids branches branch s absent = (
  record s {
    tasks = s.tasks ++ merge_row id ids branches branch ∷ [];
    log =
        s.log
        ++ record {
          task_id = id;
          from_state = none;
          to_state = pending;
          note = some (codes "merge-node created for parents=" ++ list_text ids);
        }
          ∷ [];
  },
  rw (absent, create_merge_node) refl,
  λ j. select-insert j (merge_row id ids branches branch) s.tasks absent,
)

lookup-absent :
    (hexdigest : Text → Text) (ids branches : List Text) (id : Text) (s : Store)
    → compute_merge_node_id hexdigest ids ≡ ok id
    → select id s.tasks ≡ none
    → (s' : Store) × (lookup_or_create_merge_node hexdigest ids branches s ≡ (ok id, s'))
      × Added id (merge_row id ids branches (merge_node_branch_name id)) s s'
unfolding lookup_or_create_merge_node get
lookup-absent hexdigest ids branches id s e absent =
    let (s', made, added) = create-Added id ids branches (merge_node_branch_name id) s absent in
    (s', rw (e, absent, made) refl, added)

-- For a list of parents that is not empty, the lookup returns an id, and the node of that id is
-- there: the row that was there before, with the store unchanged, or the row of the new node, with
-- every other row as before. A second lookup, with the parents in any other order and any branches,
-- returns the same id and changes nothing.
pub lookup_or_create_merge_node-is_stable :
    (hexdigest : Text → Text) (p : Text) (xs ys branches others : List Text) (s : Store)
    → ((k : Text) → count k (p ∷ xs) ≡ count k ys)
    → (id : Text) × (s' : Store) × (lookup_or_create_merge_node hexdigest (p ∷ xs) branches s
        ≡ (ok id, s'))
      × (lookup_or_create_merge_node hexdigest ys others s' ≡ (ok id, s'))
      × ((s' ≡ s)
          ⊎ ((select id s.tasks ≡ none)
              × Added id (merge_row id (p ∷ xs) branches (merge_node_branch_name id)) s s'))
lookup_or_create_merge_node-is_stable hexdigest p xs ys branches others s same =
    let (id, e, f) = compute-stable hexdigest p xs ys same in
    elim (Option-cases (select id s.tasks)) [
      | inr (r, found) ↦ (
        id,
        s,
        lookup-found hexdigest (p ∷ xs) branches id r s e found,
        lookup-found hexdigest ys others id r s f found,
        inl refl,
      )
      | inl absent ↦
          let (s', made, added) = lookup-absent hexdigest (p ∷ xs) branches id s e absent in
          let row : TaskRow = merge_row id (p ∷ xs) branches (merge_node_branch_name id) in
          (
            id,
            s',
            made,
            lookup-found hexdigest ys others id row s' f (rw (==_refl id) at (added id)),
            inr (absent, added),
          )
    ]
