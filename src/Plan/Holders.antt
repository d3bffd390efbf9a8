-- ===== src/Plan/Holders.antt =====
-- What the dictionary of holders has for a key, after the loop that fills it.
use quikode.Prelude.{
  ◌+◌, ◌≤◌, true, false, ◌&&◌, ◌||◌, List, [], ◌∷◌, ◌++◌, map, foldl, Text, ◌==◌, ==_iff, elem,
  elem-append, count, elem_iff_count, IsUnique, if◌then◌else◌, length, length-append, any, ◌≡◌,
  refl, arith,
}
use quikode.Plan.Validators.{
  Holders, add_holder, owners_of, holders_of, keys_of, missing_of, duplicated_of, unknown_claims,
}

abbrev pub holder_keys : Holders → List Text
holder_keys holders = map (λ h. h.0) holders

owners_of-add :
    (holders : Holders) (k o j : Text)
    → owners_of (add_holder holders (k, o)) j
      ≡ (if k == j then owners_of holders j ++ o ∷ [] else owners_of holders j)
unfolding add_holder
owners_of-add [] k o j = refl
owners_of-add ((i, owners) ∷ holders) k o j =
    ground (arith, ==_iff i k, ==_iff i j, ==_iff k j, owners_of-add holders k o j)

pub length-owners_of-fold :
    (pairs : List (Text × Text)) (holders : Holders) (j : Text)
    → length (owners_of (foldl add_holder holders pairs) j)
      ≡ length (owners_of holders j) + count j (keys_of pairs)
length-owners_of-fold [] holders j = omega arith
length-owners_of-fold ((k, o) ∷ pairs) holders j = ground (
  arith,
  length-owners_of-fold pairs (add_holder holders (k, o)) j,
  owners_of-add holders k o j,
  length-append (owners_of holders j) (o ∷ []),
)

pub elem-owners_of-fold :
    (pairs : List (Text × Text)) (holders : Holders) (j sid : Text)
    → elem sid (owners_of (foldl add_holder holders pairs) j)
      ≡ (elem sid (owners_of holders j) || any (λ p. p.0 == j && p.1 == sid) pairs)
elem-owners_of-fold [] holders j sid = ground arith
elem-owners_of-fold ((k, o) ∷ pairs) holders j sid = ground (
  arith,
  elem-owners_of-fold pairs (add_holder holders (k, o)) j sid,
  owners_of-add holders k o j,
  elem-append sid (owners_of holders j) (o ∷ []),
)

elem-keys-add :
    (holders : Holders) (k o j : Text)
    → elem j (holder_keys (add_holder holders (k, o))) ≡ (elem j (holder_keys holders) || k == j)
unfolding add_holder
elem-keys-add [] k o j = ground arith
elem-keys-add ((i, owners) ∷ holders) k o j =
    ground (arith, ==_iff i k, elem-keys-add holders k o j)

elem-keys-fold :
    (pairs : List (Text × Text)) (holders : Holders) (j : Text)
    → elem j (holder_keys (foldl add_holder holders pairs))
      ≡ (elem j (holder_keys holders) || elem j (keys_of pairs))
elem-keys-fold [] holders j = ground arith
elem-keys-fold ((k, o) ∷ pairs) holders j =
    ground (arith, elem-keys-fold pairs (add_holder holders (k, o)) j, elem-keys-add holders k o j)

count-keys-add :
    (holders : Holders) (k o j : Text)
    → count j (holder_keys (add_holder holders (k, o))) ≡ (
        if elem k (holder_keys holders)
        then count j (holder_keys holders)
        else count j (holder_keys holders) + count j (k ∷ []))
unfolding add_holder
count-keys-add [] k o j = omega arith
count-keys-add ((i, owners) ∷ holders) k o j =
    ground (arith, ==_iff i k, ==_iff i j, ==_iff k j, count-keys-add holders k o j)

fold-IsUnique :
    (pairs : List (Text × Text)) (holders : Holders)
    → IsUnique (holder_keys holders)
    → IsUnique (holder_keys (foldl add_holder holders pairs))
fold-IsUnique [] holders h = h
fold-IsUnique ((k, o) ∷ pairs) holders h = fold-IsUnique pairs (add_holder holders (k, o)) (λ j.
    ground (
      arith,
      count-keys-add holders k o j,
      h j,
      elem_iff_count k (holder_keys holders),
      ==_iff k j,
    ))

pub holders_of-IsUnique : (pairs : List (Text × Text)) → IsUnique (holder_keys (holders_of pairs))
holders_of-IsUnique pairs = fold-IsUnique pairs [] (λ j. omega arith)

pub elem-holder_keys :
    (pairs : List (Text × Text)) (j : Text)
    → elem j (holder_keys (holders_of pairs)) ≡ elem j (keys_of pairs)
elem-holder_keys pairs j = ground (arith, elem-keys-fold pairs [] j)

pub length-owners_of :
    (pairs : List (Text × Text)) (j : Text)
    → length (owners_of (holders_of pairs) j) ≡ count j (keys_of pairs)
length-owners_of pairs j = omega (arith, length-owners_of-fold pairs [] j)

-- The three lists that make the verdict are empty exactly when the counts are right.
pub elem_of_missing_of :
    (seen expected : List Text) (j : Text)
    → missing_of seen expected ≡ []
    → elem j expected ≡ true
    → elem j seen ≡ true
elem_of_missing_of seen [] j e h = cc
elem_of_missing_of seen (x ∷ expected) j e h =
    ground (arith, e, h, ==_iff x j, elem_of_missing_of seen expected j)

pub missing_of-eq-nil :
    (seen expected : List Text)
    → ((j : Text) → elem j expected ≡ true → elem j seen ≡ true)
    → missing_of seen expected ≡ []
missing_of-eq-nil seen [] h = refl
missing_of-eq-nil seen (x ∷ expected) h =
    let rest = missing_of-eq-nil seen expected (λ j k. h j (ground (arith, k))) in
    ground (arith, ==_iff x x, h x, rest)

pub duplicated_of-nil_le :
    (expected : List Text) (holders : Holders) (j : Text)
    → duplicated_of expected holders ≡ []
    → elem j expected ≡ true
    → length (owners_of holders j) ≤ 1
duplicated_of-nil_le expected [] j e h = omega arith
duplicated_of-nil_le expected ((k, owners) ∷ holders) j e h =
    ground (arith, e, ==_iff k j, h, duplicated_of-nil_le expected holders j)

pub unknown_claims-nil_eq :
    (expected : List Text) (holders : Holders) (j : Text)
    → unknown_claims expected holders ≡ []
    → elem j expected ≡ false
    → length (owners_of holders j) ≡ 0
unknown_claims-nil_eq expected [] j e h = refl
unknown_claims-nil_eq expected ((k, []) ∷ holders) j e h =
    ground (arith, e, ==_iff k j, h, unknown_claims-nil_eq expected holders j)
unknown_claims-nil_eq expected ((k, o ∷ owners) ∷ holders) j e h =
    ground (arith, e, ==_iff k j, h, unknown_claims-nil_eq expected holders j)

owners_of-fresh :
    (holders : Holders) (j : Text) → count j (holder_keys holders) ≡ 0 → owners_of holders j ≡ []
owners_of-fresh [] j h = refl
owners_of-fresh ((k, owners) ∷ holders) j h = ground (arith, h, owners_of-fresh holders j)

-- With distinct keys the entries after the first keep what they have for their keys.
tail_bound :
    (k : Text) (owners : List Text) (holders : Holders) (j : Text)
    → IsUnique (holder_keys ((k, owners) ∷ holders))
    → length (owners_of holders j) ≤ length (owners_of ((k, owners) ∷ holders) j)
tail_bound k owners holders j unique =
    ground (arith, unique k, ==_iff k j, owners_of-fresh holders k)

tail-IsUnique :
    (k : Text) (owners : List Text) (holders : Holders)
    → IsUnique (holder_keys ((k, owners) ∷ holders))
    → IsUnique (holder_keys holders)
tail-IsUnique k owners holders unique j = ground (arith, unique j)

pub duplicated_of-eq-nil :
    (expected : List Text) (holders : Holders)
    → IsUnique (holder_keys holders)
    → ((j : Text) → elem j expected ≡ true → length (owners_of holders j) ≤ 1)
    → duplicated_of expected holders ≡ []
duplicated_of-eq-nil expected [] unique h = refl
duplicated_of-eq-nil expected ((k, owners) ∷ holders) unique h =
    let rest =
      duplicated_of-eq-nil expected holders (tail-IsUnique k owners holders unique)
        (λ j e. omega (arith, tail_bound k owners holders j unique, h j e)) in
    ground (arith, rest, ==_iff k k, h k)

pub unknown_claims-eq-nil :
    (expected : List Text) (holders : Holders)
    → IsUnique (holder_keys holders)
    → ((j : Text) → elem j expected ≡ false → length (owners_of holders j) ≡ 0)
    → unknown_claims expected holders ≡ []
unknown_claims-eq-nil expected [] unique h = refl
unknown_claims-eq-nil expected ((k, []) ∷ holders) unique h =
    let rest =
      unknown_claims-eq-nil expected holders (tail-IsUnique k [] holders unique)
        (λ j e. omega (arith, tail_bound k [] holders j unique, h j e)) in
    ground (arith, rest)
unknown_claims-eq-nil expected ((k, o ∷ owners) ∷ holders) unique h =
    let rest =
      unknown_claims-eq-nil expected holders (tail-IsUnique k (o ∷ owners) holders unique)
        (λ j e. omega (arith, tail_bound k (o ∷ owners) holders j unique, h j e)) in
    ground (arith, rest, ==_iff k k, h k)
