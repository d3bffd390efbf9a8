-- ===== src/Attempt/Closer.antt =====
-- A round of the attempts gets closer to the end, whatever the world does in it.
use quikode.Prelude.{
  ℕ, suc, ◌-◌, ◌≤◌, ◌<◌, Bool, true, false, ◌⊎◌, inl, inr, Option, none, some, Text, ok, ◌≡◌, refl,
  arith, ltb, Bool-cases, Option-cases,
}
use quikode.Runtime.Helpers.{
  enter_doing_subtask, enter_checking_subtask, enter_triaging_subtask, enter_committing,
  enter_pushing,
}
use quikode.Plan.Schema.{Subtask}
use quikode.Attempt.Classify.{Matcher, CheckVerdict, pass, fail}
use quikode.Attempt.Storms.{Block, maybe_signature_stop_loss}
use quikode.Attempt.State.{World, Settings, Worker}
use quikode.Attempt.Check.{CheckerOutcome}
use quikode.Attempt.Loop
use quikode.Attempt.Loop.{Round, Next, finish, again, PassOutcome, settled, transient_retry, failed}
use quikode.Attempt.Rounds.{enter-Fine_alone, do_subtask-Fine, check_subtask-Fine}
use quikode.Attempt.Passes.{
  IsDone, PassedTo, NotCapped, handle_subtask_pass-PassedTo, record_transient_failure-Fine,
  record_subtask_triage-Fine, maybe_record_progress_block-Fine,
}
use quikode.Attempt.Steps.{Returns, returned, Returns-bind, IsBounded, Fine, enter-Fine}

module _ {W : Type 0} (o : World W) (m : Matcher) (cfg : Settings) (task_id : Text)
    (subtask : Subtask) (pushes : W → ℕ) (b : IsBounded o pushes) where
  -- How a round ends: it succeeds without a reason and with the row DONE, it gives up with a reason, or
  -- it goes on with one more attempt made, one more transient failure below the limit, or a transient
  -- push used up.
  abbrev pub Closer : ℕ → ℕ → ℕ → Next → Worker W → Type 0
  Closer n attempt transients (finish true none) w =
      Fine pushes task_id n w × IsDone task_id subtask.id w.subtasks
  Closer n attempt transients (finish true (some block)) w = ⊥
  Closer n attempt transients (finish false none) w = ⊥
  Closer n attempt transients (finish false (some block)) w = Fine pushes task_id n w
  Closer n attempt transients (again next) w =
      Fine pushes task_id n w
      × ((next.attempt ≡ suc attempt)
          ⊎ ((next.attempt ≡ attempt)
              × (next.consecutive_transients ≡ suc transients)
              × (next.consecutive_transients ≤ cfg.subtask_transient_max_retries))
          ⊎ ((next.attempt ≡ attempt) × (pushes w.world < n)))

  flat_case :
      (round : Round) (notes : Text) (n attempt transients : ℕ)
      → round.attempt ≡ suc attempt
      → (flat : Option Block) (w : Worker W) → Fine pushes task_id n w
      → Returns (Closer n attempt transients) (
        ok (elim flat [
          | some block ↦ finish false (some block)
          | none ↦ again (record round { triage_notes = some notes })
        ]),
        w,
      )
  flat_case round notes n attempt transients counted (some block) w f = returned _ _ f
  flat_case round notes n attempt transients counted none w f = returned _ _ (f, inl counted)

  after_failure-Closer :
      (round : Round) (text : Text) (outcome : CheckerOutcome) (n attempt transients : ℕ)
      (w : Worker W)
      → round.attempt ≡ suc attempt
      → Fine pushes task_id n w
      → Returns
          (Closer n attempt transients)
          (Loop.after_failure o m cfg task_id subtask round text outcome w)
  unfolding Loop.after_failure
  after_failure-Closer round text outcome n attempt transients w counted f =
      Returns-bind _ _
        (record_subtask_triage-Fine o m cfg task_id subtask pushes b round.attempt text outcome n w
          f)
        (λ notes w' g.
          elim (Option-cases
            (maybe_signature_stop_loss cfg.stop_loss_caps task_id subtask.id w'.subtasks)) [
              | inr (block, e) ↦ rw e (returned _ _ g)
              | inl e ↦ rw e (
                  Returns-bind _ _
                    (maybe_record_progress_block-Fine o m cfg task_id subtask pushes b round.attempt
                      n w' g)
                    (λ flat w'' h. flat_case round notes n attempt transients counted flat w'' h))
            ])

  after_pass-Closer :
      (round : Round) (outcome : CheckerOutcome) (answer : PassOutcome) (n attempt transients : ℕ)
      (w : Worker W)
      → round.attempt ≡ suc attempt
      → PassedTo o m cfg task_id subtask pushes b n answer w
      → Returns
          (Closer n attempt transients)
          (Loop.after_pass o m cfg task_id subtask round outcome answer w)
  unfolding Loop.after_pass
  after_pass-Closer round outcome settled n attempt transients w counted (f, finished) =
      Returns-bind _ _ (enter-Fine pushes task_id enter_committing _ n w (λ t. tt) f) (λ r w' g.
        Returns-bind _ _ (enter-Fine pushes task_id enter_pushing _ n w' (λ t. tt) g.0)
          (λ r' w'' h. returned _ _ (h.0, rw h.1 (rw g.1 finished))))
  after_pass-Closer round outcome transient_retry n attempt transients w counted (f, used) =
      Returns-bind _ _
        (enter-Fine pushes task_id enter_triaging_subtask _ (pushes w.world) w (λ t. tt)
          (omega arith, f.1))
        (λ r w' g. returned _ _ ((omega arith, g.0.1), inr (inr (omega arith, omega arith))))
  after_pass-Closer round outcome (failed text) n attempt transients w counted f =
      after_failure-Closer round text outcome n attempt transients w counted f

  judge_verdict-Closer :
      (round : Round) (verdict : CheckVerdict) (outcome : CheckerOutcome) (n attempt transients : ℕ)
      (w : Worker W)
      → round.attempt ≡ suc attempt
      → Fine pushes task_id n w
      → Returns
          (Closer n attempt transients)
          (Loop.judge_verdict o m cfg task_id subtask round verdict outcome w)
  unfolding Loop.judge_verdict
  judge_verdict-Closer round pass outcome n attempt transients w counted f =
      Returns-bind _ _
        (handle_subtask_pass-PassedTo o m cfg task_id subtask pushes b outcome.checker_text n w f)
        (λ answer w' g. after_pass-Closer round outcome answer n attempt transients w' counted g)
  judge_verdict-Closer round fail outcome n attempt transients w counted f =
      after_failure-Closer round outcome.checker_text outcome n attempt transients w counted f

  capped_case :
      (round : Round) (n attempt : ℕ)
      → round.attempt ≡ suc attempt
      → (capped : Option Block) (w : Worker W)
      → NotCapped o m cfg task_id subtask pushes b n (suc round.consecutive_transients) capped w
      → Returns (Closer n attempt round.consecutive_transients) (
        ok (elim capped [
          | some block ↦ finish false (some block)
          | none ↦ again (record round {
            attempt = round.attempt - 1;
            consecutive_transients = suc round.consecutive_transients;
          })
        ]),
        w,
      )
  capped_case round n attempt counted (some block) w f = returned _ _ f
  capped_case round n attempt counted none w (f, within) =
      returned _ _ (f, inr (inl (omega arith, refl, within)))

  judge-Closer :
      (round : Round) (outcome : CheckerOutcome) (n attempt : ℕ) (w : Worker W)
      → round.attempt ≡ suc attempt
      → Fine pushes task_id n w
      → Returns
          (Closer n attempt round.consecutive_transients)
          (Loop.judge o m cfg task_id subtask round outcome w)
  unfolding Loop.judge
  judge-Closer round outcome n attempt w counted f = elim (Bool-cases outcome.transient) [
    | inl e ↦ simp e (
        Returns-bind _ _
          (record_transient_failure-Fine o m cfg task_id subtask pushes b round.attempt outcome
            (suc round.consecutive_transients) n w f)
          (λ capped w' g. capped_case round n attempt counted capped w' g))
    | inr e ↦ simp e (
        judge_verdict-Closer (record round { consecutive_transients = 0 }) outcome.verdict outcome n
          attempt round.consecutive_transients w counted f)
  ]

  make_attempt-Closer :
      (round : Round) (n : ℕ) (w : Worker W)
      → Fine pushes task_id n w
      → Returns
          (Closer n round.attempt round.consecutive_transients)
          (Loop.make_attempt o m cfg task_id subtask round w)
  unfolding Loop.make_attempt
  make_attempt-Closer round n w f =
      Returns-bind _ _
        (enter-Fine_alone o m cfg task_id subtask pushes b enter_doing_subtask _ n w (λ t. tt) f)
        (λ r w1 g.
          Returns-bind _ _
            (do_subtask-Fine o m cfg task_id subtask pushes b (suc round.attempt) round.triage_notes
              n w1 g)
            (λ u w2 h.
              Returns-bind _ _
                (enter-Fine_alone o m cfg task_id subtask pushes b enter_checking_subtask _ n w2
                  (λ t. tt) h)
                (λ r' w3 k.
                  Returns-bind _ _ (check_subtask-Fine o m cfg task_id subtask pushes b n w3 k)
                    (λ outcome w4 l.
                      judge-Closer (record round { attempt = suc round.attempt }) outcome n
                        round.attempt w4 refl l))))

  after_ensure-Closer :
      (round : Round) (recreated : Option Bool) (n : ℕ) (w : Worker W)
      → Fine pushes task_id n w
      → Returns
          (Closer n round.attempt round.consecutive_transients)
          (Loop.after_ensure o m cfg task_id subtask round recreated w)
  unfolding Loop.after_ensure
  after_ensure-Closer round (some true) n w f =
      elim (Bool-cases (ltb 3 (suc round.consecutive_reprovisions))) [
        | inl e ↦ rw e (returned _ _ f)
        | inr e ↦ rw e (
            make_attempt-Closer
              (record round { consecutive_reprovisions = suc round.consecutive_reprovisions }) n w
              f)
      ]
  after_ensure-Closer round (some false) n w f =
      make_attempt-Closer (record round { consecutive_reprovisions = 0 }) n w f
  after_ensure-Closer round none n w f =
      make_attempt-Closer (record round { consecutive_reprovisions = 0 }) n w f

  pub attempt_round-Closer :
      (round : Round) (n : ℕ) (w : Worker W)
      → Fine pushes task_id n w
      → Returns
          (Closer n round.attempt round.consecutive_transients)
          (Loop.attempt_round o m cfg task_id subtask round w)
  unfolding Loop.attempt_round
  attempt_round-Closer round n w f =
      let below = b.ensure_running w.world in
      after_ensure-Closer round (o.ensure_running w.world).0 n _ (omega arith, f.1)
