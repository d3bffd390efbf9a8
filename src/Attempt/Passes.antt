-- ===== src/Attempt/Passes.antt =====
-- What follows a check: the commit of an attempt that passed, and the triage of one that failed.
use quikode.Prelude.{
  ℕ, ◌≤◌, ◌<◌, Bool, true, false, inl, inr, Option, none, some, [], ◌∷◌, Text, codes, ◌≡◌, refl,
  arith, starts_with, ltb, Bool-cases, All, ◌==◌,
}
use quikode.Runtime.Helpers.{enter_triaging_subtask}
use quikode.Plan.Schema.{Subtask}
use quikode.Subtasks.Table.{Table, update_subtask, has_key, is_done, SubtaskState}
use quikode.Attempt.Classify.{Matcher}
use quikode.Attempt.Storms.{Block}
use quikode.Attempt.State.{World, Settings, Worker, CommitResult}
use quikode.Attempt.Check.{
  CheckerOutcome, no_op_done_prefix, empty_diff_prefix, cannot_reproduce_prefix,
}
use quikode.Attempt.Loop
use quikode.Attempt.Loop.{Round, Next, finish, again, PassOutcome, settled, transient_retry, failed}
use quikode.Attempt.Rounds.{enter-Fine_alone}
use quikode.Attempt.Steps.{Returns, returned, Returns-bind, IsBounded, Fine}

-- The subtask's row is DONE.
abbrev pub IsDone : Text → Text → Table → Type 0
IsDone task_id subtask_id t =
    All (λ r. has_key task_id subtask_id r ≡ true → is_done r.state ≡ true) t

done-IsDone :
    (task_id subtask_id : Text) (t : Table)
    → IsDone task_id subtask_id
        (update_subtask task_id subtask_id (λ r. record r { state = SubtaskState.done }) t)
unfolding update_subtask
done-IsDone task_id subtask_id [] = tt
done-IsDone task_id subtask_id (r ∷ t) = elim (Bool-cases (has_key task_id subtask_id r)) [
  | inl e ↦ rw e ((λ h. refl), done-IsDone task_id subtask_id t)
  | inr e ↦ rw e ((λ h. cc), done-IsDone task_id subtask_id t)
]

module _ {W : Type 0} (o : World W) (m : Matcher) (cfg : Settings) (task_id : Text)
    (subtask : Subtask) (pushes : W → ℕ) (b : IsBounded o pushes) where
  -- What a passed check leads to: a commit that leaves the row DONE, a push that used up one of the
  -- transient failures, or a failure of the attempt.
  abbrev pub PassedTo : ℕ → PassOutcome → Worker W → Type 0
  PassedTo n settled w = Fine pushes task_id n w × IsDone task_id subtask.id w.subtasks
  PassedTo n transient_retry w = Fine pushes task_id n w × (pushes w.world < n)
  PassedTo n (failed text) w = Fine pushes task_id n w

  settle_commit-PassedTo :
      (result : CommitResult) (n : ℕ) (w : Worker W)
      → Fine pushes task_id n w
      → (result.success ≡ false → result.transient ≡ true → pushes w.world < n)
      → Returns (PassedTo n) (Loop.settle_commit o m cfg task_id subtask result w)
  unfolding Loop.settle_commit Loop.mark_subtask_done
  settle_commit-PassedTo result n w f used = elim (Bool-cases result.success) [
    | inl e ↦ rw e (returned _ _ (f, done-IsDone task_id subtask.id _))
    | inr e ↦ elim (Bool-cases result.transient) [
      | inl t ↦ rw (e, t) (returned _ _ (f, used e t))
      | inr t ↦ rw (e, t) (returned _ _ f)
    ]
  ]

  commit_if_gated-PassedTo :
      (gate : Bool × Text) (n : ℕ) (w : Worker W)
      → Fine pushes task_id n w
      → Returns (PassedTo n) (Loop.commit_if_gated o m cfg task_id subtask gate w)
  unfolding Loop.commit_if_gated
  commit_if_gated-PassedTo (false, output) n w f = returned _ _ f
  commit_if_gated-PassedTo (true, output) n w f =
      let below = b.commit_subtask w.world in
      settle_commit-PassedTo (o.commit_subtask w.world).0 n _ (omega arith, f.1)
        (λ e t. let used = b.transient_push w.world e t in omega arith)

  pub handle_subtask_pass-PassedTo :
      (text : Text) (n : ℕ) (w : Worker W)
      → Fine pushes task_id n w
      → Returns (PassedTo n) (Loop.handle_subtask_pass o m cfg task_id subtask text w)
  unfolding Loop.handle_subtask_pass Loop.mark_subtask_done
  handle_subtask_pass-PassedTo text n w f = elim (Bool-cases (starts_with no_op_done_prefix text)) [
    | inl e ↦ rw e (returned _ _ (f, done-IsDone task_id subtask.id _))
    | inr e ↦
        let below = b.pre_commit_gate w.world in
        rw e (commit_if_gated-PassedTo (o.pre_commit_gate w.world).0 n _ (omega arith, f.1))
  ]

  -- The cap was passed, or the transient failures are still within it.
  abbrev pub NotCapped : ℕ → ℕ → Option Block → Worker W → Type 0
  NotCapped n transients (some block) w = Fine pushes task_id n w
  NotCapped n transients none w =
      Fine pushes task_id n w × (transients ≤ cfg.subtask_transient_max_retries)

  pub record_transient_failure-Fine :
      (attempt : ℕ) (outcome : CheckerOutcome) (transients n : ℕ) (w : Worker W)
      → Fine pushes task_id n w
      → Returns
          (NotCapped n transients)
          (Loop.record_transient_failure o m cfg task_id subtask attempt outcome transients w)
  unfolding Loop.record_transient_failure Loop.note_retry
  record_transient_failure-Fine attempt outcome transients n w f =
      elim (Bool-cases (ltb cfg.subtask_transient_max_retries transients)) [
        | inl e ↦ rw e (returned _ _ f)
        | inr e ↦ rw e (
            Returns-bind _ _
              (enter-Fine_alone o m cfg task_id subtask pushes b enter_triaging_subtask _ n _
                (λ t. tt) f)
              (λ r w' g. returned _ _ (
                (
                  let below =
                        b.sleep (Loop.delay_of outcome.category cfg.transient_retry_delays_s)
                          w'.world in
                      omega arith,
                  g.1,
                ),
                ground (arith, e),
              )))
      ]

  triage_notes_for-Fine :
      (text : Text) (n : ℕ) (w : Worker W)
      → Fine pushes task_id n w
      → Returns (λ r. Fine pushes task_id n) (Loop.triage_notes_for o m cfg task_id subtask text w)
  unfolding Loop.triage_notes_for
  triage_notes_for-Fine text n w f = elim (Bool-cases (starts_with empty_diff_prefix text)) [
    | inl e ↦ rw e (returned _ _ f)
    | inr e ↦ elim (Bool-cases (starts_with cannot_reproduce_prefix text)) [
      | inl c ↦ rw (e, c) (returned _ _ f)
      | inr c ↦
          rw (e, c) (returned _ _ (let below = b.triage_agent text w.world in omega arith, f.1))
    ]
  ]

  pub record_subtask_triage-Fine :
      (attempt : ℕ) (text : Text) (outcome : CheckerOutcome) (n : ℕ) (w : Worker W)
      → Fine pushes task_id n w
      → Returns
          (λ r. Fine pushes task_id n)
          (Loop.record_subtask_triage o m cfg task_id subtask attempt text outcome w)
  unfolding Loop.record_subtask_triage Loop.note_retry
  record_subtask_triage-Fine attempt text outcome n w f =
      Returns-bind _ _
        (enter-Fine_alone o m cfg task_id subtask pushes b enter_triaging_subtask _ n w (λ t. tt) f)
        (λ r w' g.
          Returns-bind _ _ (triage_notes_for-Fine text n w' g) (λ notes w'' h. returned _ _ h))

  judge_progress-Fine :
      (verdict : Text) (n : ℕ) (w : Worker W)
      → Fine pushes task_id n w
      → Returns (λ r. Fine pushes task_id n) (Loop.judge_progress o m cfg task_id subtask verdict w)
  unfolding Loop.judge_progress
  judge_progress-Fine verdict n w f = elim (Bool-cases (verdict == codes "flatlined")) [
    | inl e ↦ rw e (returned _ _ f)
    | inr e ↦ rw e (returned _ _ f)
  ]

  pub maybe_record_progress_block-Fine :
      (attempt n : ℕ) (w : Worker W)
      → Fine pushes task_id n w
      → Returns
          (λ r. Fine pushes task_id n)
          (Loop.maybe_record_progress_block o m cfg task_id subtask attempt w)
  unfolding Loop.maybe_record_progress_block
  maybe_record_progress_block-Fine attempt n w f =
      elim (Bool-cases (Loop.should_run_progress_check cfg attempt)) [
        | inl e ↦
            let below = b.progress_check attempt w.world in
            rw e (judge_progress-Fine _ n _ (omega arith, f.1))
        | inr e ↦ rw e (returned _ _ f)
      ]
