-- ===== src/Sched/Score.antt =====
-- The score of a candidate: its bounds, and that progress never lowers it.
use Prim.Native.Nat.{◌/◌}
use native.Mathlib.Nat.{
  div-add-mod, mod-lt, le-div_iff_mul-le, div-mul-le_self, mul-div_cancel, mul-mod_left,
}
use quikode.Prelude.{
  ℕ, zero, suc, ◌+◌, ◌*◌, ◌%◌, ◌≤◌, ◌<◌, Bool, List, Text, if◌then◌else◌, leb, ltb, ◌≡◌, arith, ap,
  inl, inr, Bool-cases,
}
use quikode.Dag.Graph.{Dag}
use quikode.Sched.Pick.{round_fraction, progress_boost, dependents, score_candidate}

-- Rounding is at the quotient or one above it.
round_fraction-near : (n d : ℕ) → (n / d ≤ round_fraction n d) × (round_fraction n d ≤ suc (n / d))
unfolding round_fraction
round_fraction-near n d = ground arith

round_fraction-same :
    (n m d : ℕ)
    → n / d ≡ m / d
    → n % d ≤ m % d
    → m % d < d
    → round_fraction n d ≤ round_fraction m d
unfolding round_fraction
round_fraction-same n m d q r small = ground arith

mod-le : (n m d : ℕ) → n ≤ m → n / d ≡ m / d → n % d ≤ m % d
mod-le n m d h q = omega (arith, div-add-mod n d, div-add-mod m d, ap (λ k. d * k) q)

div_mono : (n m d : ℕ) → 0 < d → n ≤ m → n / d ≤ m / d
div_mono n m d positive h = (le-div_iff_mul-le positive).1 (omega (arith, div-mul-le_self n d))

round_fraction_mono : (n m d : ℕ) → 0 < d → n ≤ m → round_fraction n d ≤ round_fraction m d
round_fraction_mono n m d positive h = elim (Bool-cases (ltb (n / d) (m / d))) [
  | inl lt ↦ ground (arith, lt, round_fraction-near n d, round_fraction-near m d)
  | inr ge ↦
      let q : n / d ≡ m / d = ground (arith, div_mono n m d positive h) in
      round_fraction-same n m d q (mod-le n m d h q) (mod-lt m positive)
]

-- A whole number of 25ths is not rounded.
round_fraction-whole : (t : ℕ) → round_fraction (25 * suc t) (suc t) ≡ 25
unfolding round_fraction
round_fraction-whole t =
    ground (arith, mul-div_cancel 25 {n = suc t} (omega arith), mul-mod_left 25 (suc t))

abbrev least : ℕ → ℕ → ℕ
least total done = if leb total done then total else done

progress_boost_mono :
    (done done' total : ℕ) → done ≤ done' → progress_boost done total ≤ progress_boost done' total
unfolding progress_boost
progress_boost_mono done done' zero h = omega arith
progress_boost_mono done done' (suc t) h =
    round_fraction_mono (25 * least (suc t) done) (25 * least (suc t) done') (suc t) (omega arith)
      (ground arith)

progress_boost-le : (done total : ℕ) → progress_boost done total ≤ 25
unfolding progress_boost
progress_boost-le done zero = omega arith
progress_boost-le done (suc t) = omega (
  arith,
  round_fraction-whole t,
  round_fraction_mono (25 * least (suc t) done) (25 * suc t) (suc t) (omega arith) (ground arith),
)

-- The score of a task lies between five times the number of nodes in scope that depend on it and 40
-- more than that, and it does not fall when more of the subtasks are done.
pub score_candidate-bounds :
    (dag : Dag) (scope : List Text) (task_id : Text) (has_open_pr : Bool) (done done' total : ℕ)
    → done ≤ done'
    → (5 * dependents dag scope task_id ≤ score_candidate dag scope task_id has_open_pr done total)
      × (score_candidate dag scope task_id has_open_pr done total
          ≤ 5 * dependents dag scope task_id + 40)
      × (score_candidate dag scope task_id has_open_pr done total
          ≤ score_candidate dag scope task_id has_open_pr done' total)
unfolding score_candidate
score_candidate-bounds dag scope task_id has_open_pr done done' total h =
    ground (arith, progress_boost_mono done done' total h, progress_boost-le done total)
