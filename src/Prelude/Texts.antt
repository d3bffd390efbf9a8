-- ===== src/Prelude/Texts.antt =====
-- A Python `str` as the list of its code points, with `==`, `in` and the dictionaries it keys.
use Prim.Native.Char.{code}
use Prim.Native.Nat.{ℕ, suc, ◌+◌, ◌≤◌, ◌<◌}
use Prim.Native.String.{String}
use mathlib.Core.Path.{◌≡◌, refl}
use mathlib.Core.Logic.{◌↔◌}
use mathlib.Core.Bool.{Bool, true, false, ◌&&◌, ◌||◌}
use mathlib.Core.List.{List, [], ◌∷◌, ◌++◌}
use native.Mathlib.Omega.{arith}
use quikode.Prelude.Tests.{nat_eq, nat_eq_iff, if◌then◌else◌}

abbrev pub Text : Type 0
Text = List ℕ

-- The code points of a literal. `String` has its own `[]` and `∷`.
abbrev pub codes : String → Text
codes String.[] = []
codes (String.◌∷◌ c s) = code c ∷ codes s

infix 50 ◌==◌
unfoldable pub ◌==◌ : Text → Text → Bool
[] == [] = true
[] == (y ∷ ys) = false
(x ∷ xs) == [] = false
(x ∷ xs) == (y ∷ ys) = nat_eq x y && xs == ys

pub ==-true : (s t : Text) → s == t ≡ true → s ≡ t
unfolding ◌==◌
==-true [] [] h = refl
==-true [] (y ∷ ys) h = cc
==-true (x ∷ xs) [] h = cc
==-true (x ∷ xs) (y ∷ ys) h = ground (arith, ==-true xs ys, nat_eq_iff x y)

pub ==_refl : (s : Text) → s == s ≡ true
unfolding ◌==◌
==_refl [] = refl
==_refl (x ∷ xs) = ground (arith, ==_refl xs)

pub ==_iff : (s t : Text) → (s == t ≡ true) ↔ (s ≡ t)
==_iff s t = (==-true s t, λ e. cc (==_refl s))

pub ==_comm : (s t : Text) → s == t ≡ t == s
==_comm s t = ground (arith, ==_iff s t, ==_iff t s)

-- `s in xs` for a list, a tuple or a set of texts.
abbrev pub elem : Text → List Text → Bool
elem s [] = false
elem s (x ∷ xs) = x == s || elem s xs

pub elem-append : (s : Text) (xs ys : List Text) → elem s (xs ++ ys) ≡ (elem s xs || elem s ys)
elem-append s [] ys = refl
elem-append s (x ∷ xs) ys = ground (arith, elem-append s xs ys)

abbrev pub count : Text → List Text → ℕ
count s [] = 0
count s (x ∷ xs) = if x == s then suc (count s xs) else count s xs

pub count-append : (s : Text) (xs ys : List Text) → count s (xs ++ ys) ≡ count s xs + count s ys
count-append s [] ys = omega arith
count-append s (x ∷ xs) ys = ground (arith, count-append s xs ys)

pub elem_iff_count : (s : Text) (xs : List Text) → (elem s xs ≡ true) ↔ (0 < count s xs)
elem_iff_count s [] = ground arith
elem_iff_count s (x ∷ xs) = ground (arith, elem_iff_count s xs)

-- No text stands twice in the list.
abbrev pub IsUnique : List Text → Type 0
IsUnique xs = (s : Text) → count s xs ≤ 1

-- `d[k] = v` on a dictionary read as a function.
abbrev pub update {ℓ} : {V : Type ℓ} → (Text → V) → Text → V → Text → V
update f k v j = if k == j then v else f j

-- `s.startswith(p)` and `p in s`.
abbrev pub starts_with : Text → Text → Bool
starts_with [] s = true
starts_with (c ∷ p) [] = false
starts_with (c ∷ p) (d ∷ s) = nat_eq c d && starts_with p s

abbrev pub contains : Text → Text → Bool
contains p [] = starts_with p []
contains p (c ∷ s) = starts_with p (c ∷ s) || contains p s
