-- ===== src/Attempt/Window.antt =====
-- Which of the last retries the checks for a storm look at.
use quikode.Prelude.{
  ℕ, zero, suc, ◌+◌, ◌-◌, ◌≤◌, ◌<◌, true, false, ◌||◌, some, List, [], ◌∷◌, ◌++◌, length,
  length-append, Text, all, All, ◌≡◌, ◌↔◌, refl, arith, ltb, Bool-cases, inl, inr, ap,
}
use quikode.Subtasks.Table.{Table}
use quikode.Subtasks.Cycles.{retry_reasons, drop_rows}
use quikode.Attempt.Storms.{
  Signature, shows_layer, is_layer_storm, last_rows, first_rows, Caps, max_cap, signatures,
  cannot_reproduce_mark, cannot_reproduce_storm, same_as_first, maybe_cannot_reproduce_stop_loss,
  last_n_retry_signatures, maybe_signature_stop_loss, stop_loss, maybe_transport_stop_loss,
  maybe_same_signature_stop_loss,
}

-- None of the retries shows the layer, or all do.
abbrev pub NoneShow : Text → List Signature → Type 0
NoneShow mark sigs = All (λ s. shows_layer mark s ≡ false) sigs

abbrev pub AllShow : Text → List Signature → Type 0
AllShow mark sigs = All (λ s. shows_layer mark s ≡ true) sigs

module _ (mark : Text) where
  drop-append :
      (xs ys : List Signature) (n : ℕ) → drop_rows (length xs + n) (xs ++ ys) ≡ drop_rows n ys
  drop-append [] ys n = let e : 0 + n ≡ n = omega arith in rw e
  drop-append (x ∷ xs) ys n =
      let e : suc (length xs) + n ≡ suc (length xs + n) = omega arith in rw e (drop-append xs ys n)

  all-first :
      (k n : ℕ) (xs : List Signature)
      → AllShow mark xs
      → all (shows_layer mark) (first_rows k (drop_rows n xs)) ≡ true
  all-first zero zero xs h = refl
  all-first zero (suc n) [] h = refl
  all-first zero (suc n) (x ∷ xs) h = all-first zero n xs h.1
  all-first (suc k) zero [] h = refl
  all-first (suc k) zero (x ∷ xs) h = ground (arith, h.0, all-first k zero xs h.1)
  all-first (suc k) (suc n) [] h = refl
  all-first (suc k) (suc n) (x ∷ xs) h = all-first (suc k) n xs h.1

  length-first :
      (k n : ℕ) (xs : List Signature)
      → n + k ≤ length xs
      → length (first_rows k (drop_rows n xs)) ≡ k
  length-first zero zero xs h = refl
  length-first zero (suc n) [] h = refl
  length-first zero (suc n) (x ∷ xs) h = length-first zero n xs (omega arith)
  length-first (suc k) zero [] h = absurd (omega arith)
  length-first (suc k) zero (x ∷ xs) h = ap suc (length-first k zero xs (omega arith))
  length-first (suc k) (suc n) [] h = absurd (omega arith)
  length-first (suc k) (suc n) (x ∷ xs) h = length-first (suc k) n xs (omega arith)

  first_old :
      (k n : ℕ) (before storm : List Signature)
      → NoneShow mark before
      → n < length before
      → all (shows_layer mark) (first_rows (suc k) (drop_rows n (before ++ storm))) ≡ false
  first_old k n [] storm h below = absurd (omega arith)
  first_old k zero (x ∷ before) storm h below = ground (arith, h.0)
  first_old k (suc n) (x ∷ before) storm h below = first_old k n before storm h.1 (omega arith)

  window : ℕ → ℕ → List Signature → List Signature
  window k M sigs = first_rows k (drop_rows (length sigs - M) sigs)

  last_rows-pos :
      (M : ℕ) (sigs : List Signature) → 2 ≤ M → last_rows M sigs ≡ drop_rows (length sigs - M) sigs
  last_rows-pos M sigs two = ground arith

  window-full :
      (k M : ℕ) (before storm : List Signature)
      → 2 ≤ k
      → k ≤ M
      → AllShow mark storm
      → M ≤ length storm
      → is_layer_storm mark (first_rows k (last_rows M (before ++ storm))) k ≡ true
  unfolding is_layer_storm
  window-full k M before storm two within new full =
      let at : length (before ++ storm) - M ≡ length before + (length storm - M) =
        omega (arith, length-append before storm) in
      rw
        (
          last_rows-pos M (before ++ storm) (omega arith),
          at,
          drop-append before storm (length storm - M),
        )
        (ground (
          arith,
          all-first k (length storm - M) storm new,
          length-first k (length storm - M) storm (omega arith),
        ))

  window-short :
      (k M : ℕ) (before storm : List Signature)
      → 2 ≤ k
      → k ≤ M
      → NoneShow mark before
      → 0 < length before
      → length storm < M
      → is_layer_storm mark (first_rows k (last_rows M (before ++ storm))) k ≡ false
  unfolding is_layer_storm
  window-short k M before storm two within old some_old short =
      let e : k ≡ suc (k - 1) = omega arith in
      let n = length (before ++ storm) - M in
      let miss = first_old (k - 1) n before storm old (omega (arith, length-append before storm)) in
      rw (last_rows-pos M (before ++ storm) (omega arith)) (ground (arith, rw (← e) at miss))

-- A storm of one layer after retries that do not show it is seen exactly when it fills the window.
pub is_layer_storm_iff :
    (mark : Text) (k M : ℕ) (before storm : List Signature)
    → 2 ≤ k
    → k ≤ M
    → NoneShow mark before
    → 0 < length before
    → AllShow mark storm
    → (is_layer_storm mark (first_rows k (last_rows M (before ++ storm))) k ≡ true)
      ↔ (M ≤ length storm)
is_layer_storm_iff mark k M before storm two within old some_old new = (
  λ h. elim (Bool-cases (ltb (length storm) M)) [
    | inl short ↦
        absurd (
          cc
            (window-short mark k M before storm two within old some_old (ground (arith, short)), h))
    | inr full ↦ ground (arith, full)
  ],
  λ full. window-full mark k M before storm two within new full,
)

same_as_first-other :
    (k n : ℕ) (sigs : List Signature) → same_as_first n sigs ≡ some (cannot_reproduce_storm k) → ⊥
same_as_first-other k n [] h = cc
same_as_first-other k n (first ∷ sigs) h = ground (arith, h)

same_signature-other :
    (k n : ℕ) (sigs : List Signature)
    → maybe_same_signature_stop_loss sigs n ≡ some (cannot_reproduce_storm k)
    → ⊥
unfolding maybe_same_signature_stop_loss
same_signature-other k n sigs h = elim (Bool-cases (ltb n 2 || ltb (length sigs) n)) [
  | inl e ↦ cc (rw e at h)
  | inr e ↦ same_as_first-other k n sigs (rw e at h)
]

stop_loss_iff :
    (caps : Caps) (sigs : List Signature)
    → (stop_loss caps sigs ≡ some (cannot_reproduce_storm caps.cannot_reproduce)) ↔ (
        is_layer_storm cannot_reproduce_mark
          (first_rows caps.cannot_reproduce sigs)
          caps.cannot_reproduce
        ≡ true)
unfolding stop_loss maybe_cannot_reproduce_stop_loss maybe_transport_stop_loss
stop_loss_iff caps sigs = ground (
  arith,
  same_signature-other caps.cannot_reproduce caps.same_signature
      (first_rows caps.same_signature sigs),
)

-- Among retries that are not transient, when a run of failures of one layer follows one or more of
-- another kind, the subtask is given up for not reproducing a CI failure exactly when the run is as
-- long as the largest of the three limits, whatever the limit of this check is.
pub cannot_reproduce_stop_loss_iff :
    (caps : Caps) (task_id subtask_id : Text) (t : Table) (before storm : List Signature)
    → 2 ≤ caps.cannot_reproduce
    → signatures (retry_reasons task_id subtask_id t) ≡ before ++ storm
    → NoneShow cannot_reproduce_mark before
    → 0 < length before
    → AllShow cannot_reproduce_mark storm
    → (maybe_signature_stop_loss caps task_id subtask_id t
        ≡ some (cannot_reproduce_storm caps.cannot_reproduce))
      ↔ (max_cap caps ≤ length storm)
unfolding maybe_signature_stop_loss last_n_retry_signatures
cannot_reproduce_stop_loss_iff caps task_id subtask_id t before storm two history old some_old new =
    let seen =
      is_layer_storm_iff cannot_reproduce_mark caps.cannot_reproduce (max_cap caps) before storm two
        (ground arith) old some_old new in
    let fires = stop_loss_iff caps (last_rows (max_cap caps) (before ++ storm)) in
    rw history (λ h. seen.0 (fires.0 h), λ full. fires.1 (seen.1 full))
