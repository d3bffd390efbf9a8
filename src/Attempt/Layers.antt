-- ===== src/Attempt/Layers.antt =====
-- Which failures of an attempt are recorded with a layer, and which empty diffs count as green.
use quikode.Prelude.{
  ℕ, true, false, Option, none, some, List, [], ◌∷◌, ◌++◌, Text, codes, ℤ, is_pos, ◌==◌, ◌≡◌, ◌↔◌,
  refl, arith, Bool-cases, Option-cases, inl, inr, All,
}
use quikode.Fsm.Rules.{enum}
use quikode.Attempt.Classify.{
  Matcher, Pattern, RetryCategory, checker_fail, fail, classify_retry, classify_retry_blob,
  classify_retry_hint, first_match, patterns, is_content, was_killed, joined, sig_default,
  verdict_name,
}
use quikode.Attempt.State.{Witness}
use quikode.Attempt.Check.{witnesses_all_passed, rc_or_one}

-- No pattern stands for a failure of the work's content.
abbrev IsOutside : Pattern × RetryCategory → Type 0
IsOutside (p, category) = is_content category ≡ false

first_match-IsOutside :
    (m : Matcher) (blob sig : Text) (ps : List (Pattern × RetryCategory)) {category : RetryCategory}
    {signature : Text}
    → All IsOutside ps
    → first_match m blob sig ps ≡ some (category, signature)
    → is_content category ≡ false
unfolding first_match
first_match-IsOutside m blob sig [] outside found = cc
first_match-IsOutside m blob sig ((p, c) ∷ ps) outside found =
    elim (Option-cases (m.search p blob)) [
      | inl e ↦ first_match-IsOutside m blob sig ps outside.1 (rw (e, first_match) at found)
      | inr (at, e) ↦ let same = (rw (e, first_match) at found) in cc (same, outside.0)
    ]

-- A failure that the checker found, with a layer from triage, is recorded as a failure of the work's
-- content exactly when the process was not killed and no pattern matches its output, and then with
-- that layer in its signature. Any other failure is recorded as it would be without a layer.
pub classify_retry-layered_iff :
    (m : Matcher) (rc : Option ℤ) (stderr stdout : Text) (c : ℕ) (layer : Text)
    → let r =
        classify_retry m rc stderr stdout
          (some (codes "checker"))
          (some (enum fail))
          (some (c ∷ layer)) in
      ((is_content r.0 ≡ true) ↔ (
        (was_killed rc ≡ false)
        × (first_match m (joined stderr stdout) (sig_default rc) patterns ≡ none)))
      × (is_content r.0 ≡ true → r ≡ (checker_fail, codes "verdict=FAIL,layer=" ++ c ∷ layer))
      × (is_content r.0 ≡ false
          → r ≡ classify_retry m rc stderr stdout (some (codes "checker")) (some (enum fail)) none)
unfolding classify_retry classify_retry_blob classify_retry_hint verdict_name ◌==◌
classify_retry-layered_iff m rc stderr stdout c layer = elim (Bool-cases (was_killed rc)) [
  | inl killed ↦ rw killed (((λ h. cc), (λ h. cc)), (λ h. cc), λ h. refl)
  | inr alive ↦
      elim (Option-cases (first_match m (joined stderr stdout) (sig_default rc) patterns)) [
        | inl missing ↦
            rw (alive, missing) (((λ h. (refl, refl)), (λ h. refl)), (λ h. refl), λ h. cc)
        | inr (found, e) ↦
            let outside =
              first_match-IsOutside m (joined stderr stdout) (sig_default rc) patterns
                (refl, (refl, (refl, (refl, (refl, (refl, (refl, (refl, tt)))))))) e in
            rw (alive, e)
              (((λ h. cc (h, outside)), (λ h. cc)), (λ h. cc (h, outside)), λ h. (rw outside refl))
      ]
]

rc_or_one-ne-zero : (rc : Option ℤ) → is_pos 0 (rc_or_one rc) ≡ false
unfolding is_pos
rc_or_one-ne-zero none = refl
rc_or_one-ne-zero (some rc) = elim (Bool-cases (is_pos 0 rc)) [ inl e ↦ rw e refl | inr e ↦ rw e e ]

-- An empty diff with green gates is never recognised where a witness ran: the results count as green
-- exactly when there are none, whatever the return codes are.
pub witnesses_all_passed_iff :
    (results : List Witness) → (witnesses_all_passed results ≡ true) ↔ (results ≡ [])
unfolding witnesses_all_passed
witnesses_all_passed_iff [] = ground arith
witnesses_all_passed_iff (w ∷ results) = rw (rc_or_one-ne-zero w.rc) ((λ h. cc), λ h. cc)
