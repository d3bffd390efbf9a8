-- ===== src/Retry/Bounds.antt =====
-- How often `run_with_backoff` tries, how long it sleeps, and what it returns.
use quikode.Prelude.{
  ℕ, zero, suc, ◌+◌, ◌*◌, ◌^◌, ◌≤◌, Option, none, some, List, [], ◌∷◌, ◌++◌, Result, Result-cases,
  ok, raise, ◌≡◌, refl, sym, ap, ◌∙◌, arith, ◌⊎◌, inl, inr, append_assoc, append-nil, subst,
}
use native.Mathlib.Nat.{mul_assoc, pow-succ'}
use quikode.Retry.Backoff.{
  ClassifyVerdict, success, transient, hard, Ending, returned, raised, attempts_loop,
  run_with_backoff,
}

-- The first delays: each is twice the one before.
abbrev pub doubling : ℕ → ℕ → List ℕ
doubling delay zero = []
doubling delay (suc k) = delay ∷ doubling (delay * 2) k

abbrev pub sum : List ℕ → ℕ
sum [] = 0
sum (x ∷ xs) = x + sum xs

sum-doubling : (delay k : ℕ) → sum (doubling delay k) + delay ≡ delay * 2 ^ k
sum-doubling delay zero = omega arith
sum-doubling delay (suc k) = omega (
  arith,
  sum-doubling (delay * 2) k,
  mul_assoc delay 2 (2 ^ k),
  ap (λ x. delay * x) (pow-succ' 2 k),
)

verdict-cases : (v : ClassifyVerdict) → (v ≡ transient) ⊎ (v ≡ success) ⊎ (v ≡ hard)
verdict-cases success = inr (inl refl)
verdict-cases transient = inl refl
verdict-cases hard = inr (inr refl)

module _ {P X : Type 0} (run : ℕ → Result X P) (classifier : P → ClassifyVerdict) where
  -- The attempt ends with a process that is classified as transient.
  abbrev pub IsTransient : ℕ → Type 0
  IsTransient n = (p : P) × (run n ≡ ok p) × (classifier p ≡ transient)

  -- So do the attempts from `n` on, as many as are given.
  abbrev pub AreTransient : ℕ → ℕ → Type 0
  AreTransient n zero = Unit
  AreTransient n (suc k) = IsTransient n × AreTransient (suc n) k

  -- What ends the loop at the attempt `n`, after `k` of at most `l` retries.
  abbrev pub EndsAt : ℕ → ℕ → ℕ → Ending run classifier → Type 0
  EndsAt n k l ending =
      ((p : P) × (run n ≡ ok p)
        × (ending ≡ returned p)
        × ((classifier p ≡ success) ⊎ (classifier p ≡ hard) ⊎ (k ≡ l)))
      ⊎ ((x : X) × (run n ≡ raise x) × (ending ≡ raised x))

  -- How the loop with `suc l` attempts left ends.
  abbrev Ends : ℕ → ℕ → ℕ → List ℕ → Ending run classifier × List ℕ → Type 0
  Ends l n delay sleeps out =
      (k : ℕ) × (k ≤ l)
      × AreTransient n k
      × ((m : ℕ) × (m ≡ n + k) × EndsAt m k l out.0)
      × (out.1 ≡ sleeps ++ doubling delay k)

  ends-now :
      (l n delay : ℕ) (sleeps : List ℕ) (ending : Ending run classifier)
      → EndsAt n 0 l ending
      → Ends l n delay sleeps (ending, sleeps)
  ends-now l n delay sleeps ending e =
      (0, omega arith, tt, (n, omega arith, e), sym (append-nil sleeps))

  -- The loop ends at once, or the attempt is transient.
  try-once :
      (l n delay : ℕ) (last : Option P) (sleeps : List ℕ)
      → IsTransient n
        ⊎ Ends l n delay sleeps (attempts_loop run classifier (suc l) n delay last sleeps)
  unfolding attempts_loop
  try-once l n delay last sleeps = elim (Result-cases (run n)) [
    | inr (x, e) ↦ inr (
        subst (Ends l n delay sleeps) (sym (rw (e, attempts_loop) refl))
          (ends-now l n delay sleeps (raised x) (inr (x, e, refl))))
    | inl (p, e) ↦ elim (verdict-cases (classifier p)) [
      | inr (inl v) ↦ inr (
          subst (Ends l n delay sleeps) (sym (rw (e, v, attempts_loop) refl))
            (ends-now l n delay sleeps (returned p) (inl (p, e, refl, inl v))))
      | inr (inr v) ↦ inr (
          subst (Ends l n delay sleeps) (sym (rw (e, v, attempts_loop) refl))
            (ends-now l n delay sleeps (returned p) (inl (p, e, refl, inr (inl v)))))
      | inl v ↦ inl (p, e, v)
    ]
  ]

  -- What ended the loop before the limit ends it under a higher one.
  EndsAt-suc :
      (m k l : ℕ) (ending : Ending run classifier)
      → EndsAt m k l ending
      → EndsAt m (suc k) (suc l) ending
  EndsAt-suc m k l ending (inr raising) = inr raising
  EndsAt-suc m k l ending (inl (p, e, f, inl v)) = inl (p, e, f, inl v)
  EndsAt-suc m k l ending (inl (p, e, f, inr (inl v))) = inl (p, e, f, inr (inl v))
  EndsAt-suc m k l ending (inl (p, e, f, inr (inr same))) = inl (p, e, f, inr (inr (ap suc same)))

  loop-ends :
      (l n delay : ℕ) (last : Option P) (sleeps : List ℕ)
      → Ends l n delay sleeps (attempts_loop run classifier (suc l) n delay last sleeps)
  unfolding attempts_loop
  loop-ends zero n delay last sleeps = elim (try-once zero n delay last sleeps) [
    | inr ended ↦ ended
    | inl (p, e, v) ↦
        subst (Ends 0 n delay sleeps) (sym (rw (e, v, attempts_loop) refl))
          (ends-now 0 n delay sleeps (returned p) (inl (p, e, refl, inr (inr refl))))
  ]
  loop-ends (suc l) n delay last sleeps = elim (try-once (suc l) n delay last sleeps) [
    | inr ended ↦ ended
    | inl (p, e, v) ↦
        let (k, bound, before, (m, place, end), slept) =
          loop-ends l (suc n) (delay * 2) (some p) (sleeps ++ delay ∷ []) in
        subst (Ends (suc l) n delay sleeps) (sym (rw (e, v, attempts_loop) refl)) (
          suc k,
          omega (arith, bound),
          ((p, e, v), before),
          (
            m,
            omega (arith, place),
            EndsAt-suc m k l
                (attempts_loop run classifier (suc l) (suc n) (delay * 2) (some p)
                  (sleeps ++ delay ∷ [])).0
                end,
          ),
          slept ∙ append_assoc sleeps (delay ∷ []) (doubling (delay * 2) k),
        )
  ]

  -- On every behaviour of the process the call makes k + 1 attempts, at most one more than `retries`.
  -- All but the last are classified as transient. The last one raises, and the exception is passed
  -- on, or its process is returned, which is classified as a success or as hard unless the retries
  -- are used up. It sleeps k times, each delay twice the one before, base_delay * (2 ^ k - 1) in all.
  pub run_with_backoff-bounds :
      (retries base_delay : ℕ)
      → (k : ℕ) × (k ≤ retries)
        × AreTransient 0 k
        × EndsAt k k retries (run_with_backoff run classifier retries base_delay).0
        × ((run_with_backoff run classifier retries base_delay).1 ≡ doubling base_delay k)
        × (sum (doubling base_delay k) + base_delay ≡ base_delay * 2 ^ k)
  unfolding run_with_backoff
  run_with_backoff-bounds retries base_delay =
      let (k, bound, before, (m, place, end), slept) = loop-ends retries 0 base_delay none [] in
      let same : m ≡ k = omega (arith, place) in
      (
        k,
        bound,
        before,
        subst
            (λ i.
              EndsAt i k retries
                (attempts_loop run classifier (suc retries) 0 base_delay none []).0)
            same end,
        slept,
        sum-doubling base_delay k,
      )
