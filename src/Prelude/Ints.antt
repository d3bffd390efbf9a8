-- ===== src/Prelude/Ints.antt =====
-- Python integers, where the source meets negative ones: the return codes of processes.
use Prim.Native.Nat.{ℕ, zero, suc, ◌+◌, ◌/◌, ◌%◌}
use mathlib.Core.Bool.{Bool, false}
use mathlib.Core.List.{[], ◌∷◌}
use quikode.Prelude.Tests.{ltb, nat_eq, if◌then◌else◌}
use quikode.Prelude.Texts.{Text}

-- `negsuc n` is -(n + 1).
pub data ℤ : Type 0 where
  pos : ℕ → ℤ
  negsuc : ℕ → ℤ

-- `x == n` for a number n.
unfoldable pub is_pos : ℕ → ℤ → Bool
is_pos n (pos m) = nat_eq m n
is_pos n (negsuc m) = false

-- `str` of a number, with as much fuel as the number.
digits : ℕ → ℕ → Text → Text
digits zero n after = after
digits (suc fuel) n after =
    let rest = digits fuel (n / 10) ((48 + n % 10) ∷ after) in
    if ltb n 10 then (48 + n) ∷ after else rest

unfoldable pub decimal : ℕ → Text
unfolding digits
decimal n = digits (suc n) n []

unfoldable pub str_int : ℤ → Text
unfolding decimal
str_int (pos n) = decimal n
str_int (negsuc n) = 45 ∷ decimal (suc n)
