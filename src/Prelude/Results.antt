-- ===== src/Prelude/Results.antt =====
-- Exceptions as values: a result is a value or the exception that was raised.
use mathlib.Core.Path.{◌≡◌, refl}
use mathlib.Core.Logic.{◌⊎◌, inl, inr}

module _ {ℓ κ} where
  pub data Result (E : Type ℓ) (A : Type κ) : Type (ℓ ⊔ κ) where
    ok : A → Result E A
    raise : E → Result E A

-- A raised exception ends the block; otherwise the rest runs on the value.
infixl 5 ◌>>=◌
abbrev pub ◌>>=◌ {ℓ κ μ} :
    {E : Type ℓ} {A : Type κ} {C : Type μ} (before : Result E A) (rest : A → Result E C)
    → Result E C
raise failure >>= rest = raise failure
ok value >>= rest = rest value

infixl 5 ◌>>◌
abbrev pub ◌>>◌ {ℓ κ μ} :
    {E : Type ℓ} {A : Type κ} {C : Type μ} (before : Result E A) (rest : Result E C) → Result E C
before >> rest = before >>= (λ value. rest)

-- A block that returned: its first part returned a value, and the rest on it the result.
pub >>=-eq-ok {ℓ κ μ} :
    {E : Type ℓ} {A : Type κ} {C : Type μ} (before : Result E A) (rest : A → Result E C) {c : C}
    → before >>= rest ≡ ok c
    → (value : A) × (before ≡ ok value) × (rest value ≡ ok c)
>>=-eq-ok (raise failure) rest returned = cc
>>=-eq-ok (ok value) rest returned = (value, refl, returned)

pub Result-cases {ℓ κ} :
    {E : Type ℓ} {A : Type κ} (before : Result E A)
    → ((value : A) × (before ≡ ok value)) ⊎ ((failure : E) × (before ≡ raise failure))
Result-cases (raise failure) = inr (failure, refl)
Result-cases (ok value) = inl (value, refl)
