-- ===== src/Retry/Backoff.antt =====
-- `run_with_backoff` of quikode/net_retry.py. The process that it starts is a function from the
-- number of the attempt to what `subprocess.run` gives: a finished process, or an exception. The
-- classifier and its patterns are arguments, delays are numbers of one unit, and `retries` is a
-- natural number.
use quikode.Prelude.{
  ℕ, zero, suc, ◌*◌, Bool, Option, none, some, List, [], ◌∷◌, ◌++◌, Result, ok, raise,
  if◌then◌else◌, nat_eq,
}

-- `ClassifyVerdict`
pub data ClassifyVerdict : Type 0 where
  success transient hard : ClassifyVerdict

-- What both classifiers do, for the two searches on the process's output.
unfoldable pub classify : {P : Type 0} → (P → ℕ) → (P → Bool) → (P → Bool) → P → ClassifyVerdict
classify returncode is_hard is_transient proc =
    if nat_eq (returncode proc) 0
    then success
    else if is_hard proc
    then hard
    else if is_transient proc
    then transient
    else hard

module _ {P X : Type 0} (run : ℕ → Result X P) (classifier : P → ClassifyVerdict) where
  -- How the call ends: a returned process, an exception of the process, or the failed assertion.
  pub data Ending : Type 0 where
    returned : P → Ending
    raised : X → Ending
    assertion_failed : Ending

  abbrev pub or_assert : Option P → Ending
  or_assert none = assertion_failed
  or_assert (some p) = returned p

  -- `if attempt < attempts - 1: sleep_fn(delay)`
  abbrev pub slept : ℕ → ℕ → List ℕ → List ℕ
  slept zero delay sleeps = sleeps
  slept (suc left) delay sleeps = sleeps ++ delay ∷ []

  abbrev pub next_delay : ℕ → ℕ → ℕ
  next_delay zero delay = delay
  next_delay (suc left) delay = delay * 2

  -- The loop, by the number of attempts that are left; with the sleeps so far.
  unfoldable pub attempts_loop : ℕ → ℕ → ℕ → Option P → List ℕ → Ending × List ℕ
  attempts_loop zero attempt delay last sleeps = (or_assert last, sleeps)
  attempts_loop (suc left) attempt delay last sleeps = elim (run attempt) [
    | raise x ↦ (raised x, sleeps)
    | ok proc ↦ elim (classifier proc) [
      | success ↦ (returned proc, sleeps)
      | hard ↦ (returned proc, sleeps)
      | transient ↦
          attempts_loop left (suc attempt) (next_delay left delay) (some proc)
            (slept left delay sleeps)
    ]
  ]

  unfoldable pub run_with_backoff : ℕ → ℕ → Ending × List ℕ
  run_with_backoff retries base_delay = attempts_loop (suc retries) 0 base_delay none []
