-- ===== src/Attempt/Loop.antt =====
-- The attempts of quikode/workers/subtasks.py at one subtask, with the commit of
-- quikode/workers/subtask_completion.py and the triage of quikode/workers/subtask_execution.py.
pub mod Notes
pub use quikode.Attempt.Loop.Notes.{
  PassOutcome, increment_subtask_transient_retries, delay_of, same_set, keeps_files, join_files,
  commit_failure_text, gate_failure_text, transport_notes, cannot_reproduce_notes, triage_of,
  should_run_progress_check, Round, Next, attempt_note, settled, transient_retry, failed, finish,
  again,
}
use quikode.Prelude.{
  ℕ, zero, suc, ◌-◌, ◌%◌, Bool, true, false, not, ◌&&◌, ◌||◌, Option, none, some, List, [], ◌∷◌,
  ◌++◌, Text, codes, ◌==◌, elem, all, starts_with, nat_eq, ltb, leb, if◌then◌else◌, is_pos, decimal,
  Result, ok, raise,
}
use quikode.Fsm.Rules.{Failure, enum}
use quikode.Runtime.Helpers.{
  enter_doing_subtask, enter_checking_subtask, enter_triaging_subtask, enter_committing,
  enter_pushing,
}
use quikode.Plan.Schema.{Subtask}
use quikode.Subtasks.Table.{
  Table, doing, triaging, done, bump, increment_subtask_retries,
  increment_subtask_pre_commit_failures, increment_subtask_flatline_count,
  reset_subtask_flatline_count,
}
use quikode.Subtasks.Cycles.{take_text, append_retry_reason}
use quikode.Attempt.Classify.{
  CheckVerdict, pass, fail, Matcher, or_text, category_text, classify_retry,
}
use quikode.Attempt.Storms.{
  Block, recreation_failed, transients_exceeded, flatlined, maybe_signature_stop_loss,
}
use quikode.Attempt.State.{
  World, Settings, Work, Worker, CommitResult, AgentResult, TriageReport, enter, set_row, write,
  count_up, act, run, return, ◌>>=◌, ◌>>◌,
}
use quikode.Attempt.Check.{
  CheckerOutcome, empty_diff_prefix, no_op_done_prefix, cannot_reproduce_prefix, check_subtask,
}

module _ {W : Type 0} (o : World W) (m : Matcher) (cfg : Settings) (task_id : Text)
    (subtask : Subtask) where
  -- `_do_subtask`
  unfoldable pub do_subtask : ℕ → Option Text → Work W (Unit {0})
  do_subtask attempt notes = do
    enter enter_doing_subtask task_id (some (attempt_note subtask.id attempt))
    set_row task_id subtask.id (λ r. record r { state = doing })
    run (o.run_doer attempt notes)

  unfoldable pub mark_subtask_done : Work W (Unit {0})
  mark_subtask_done = set_row task_id subtask.id (λ r. record r { state = done })

  -- The end of `_handle_subtask_pass`, from the commit's result.
  unfoldable pub settle_commit : CommitResult → Work W PassOutcome
  unfolding mark_subtask_done increment_subtask_transient_retries
  settle_commit result =
      if not result.success
      then (if result.transient
          then (do
            count_up (increment_subtask_transient_retries task_id subtask.id)
            return transient_retry)
          else return (failed (commit_failure_text result.output)))
      else (do
        set_row task_id subtask.id (λ r. record r { commit_sha = result.commit_sha })
        set_row task_id subtask.id (λ r.
            if keeps_files result.accepted_files subtask.files_to_touch
            then r
            else record r { accepted_files = some (join_files result.accepted_files) })
        mark_subtask_done
        return settled)

  unfoldable pub commit_if_gated : Bool × Text → Work W PassOutcome
  unfolding settle_commit
  commit_if_gated (false, output) = do
    count_up (increment_subtask_pre_commit_failures task_id subtask.id)
    return (failed (gate_failure_text output))
  commit_if_gated (true, output) = do result ← act o.commit_subtask; settle_commit result

  unfoldable pub handle_subtask_pass : Text → Work W PassOutcome
  unfolding mark_subtask_done commit_if_gated
  handle_subtask_pass checker_text =
      if starts_with no_op_done_prefix checker_text
      then (do mark_subtask_done; return settled)
      else (do gate ← act o.pre_commit_gate; commit_if_gated gate)

  -- `_append_retry_reason`, with the hint "checker".
  unfoldable pub note_retry : ℕ → CheckerOutcome → Bool → Option Text → Work W (Unit {0})
  note_retry attempt outcome transient layer =
      let (category, signature) =
        classify_retry m outcome.rc outcome.stderr outcome.checker_text (some (codes "checker"))
          (some (enum outcome.verdict)) layer in
      write (
        append_retry_reason task_id subtask.id attempt (category_text category) signature transient)

  -- `_record_transient_subtask_failure`
  unfoldable pub record_transient_failure : ℕ → CheckerOutcome → ℕ → Work W (Option Block)
  unfolding note_retry
  record_transient_failure attempt outcome transients =
      if ltb cfg.subtask_transient_max_retries transients
      then return (some (transients_exceeded cfg.subtask_transient_max_retries))
      else (do
        count_up (increment_subtask_transient_retries task_id subtask.id)
        note_retry attempt outcome true none
        enter enter_triaging_subtask task_id
            (some (subtask.id ++ codes " transient checker failure"))
        run (
            o.sleep
              (delay_of (or_text outcome.category (codes "none")) cfg.transient_retry_delays_s))
        return none)

  -- The notes of `_record_subtask_triage`, and the layer.
  unfoldable pub triage_notes_for : Text → Work W (Text × Option Text)
  unfolding triage_of
  triage_notes_for checker_text =
      if starts_with empty_diff_prefix checker_text
      then return (transport_notes, some (codes "transport"))
      else if starts_with cannot_reproduce_prefix checker_text
      then return (cannot_reproduce_notes, some (codes "cannot_reproduce"))
      else (do r ← act (o.triage_agent checker_text); return (triage_of r))

  unfoldable pub record_subtask_triage : ℕ → Text → CheckerOutcome → Work W Text
  unfolding triage_notes_for note_retry
  record_subtask_triage attempt checker_text outcome = do
    enter enter_triaging_subtask task_id (some (attempt_note subtask.id attempt ++ codes " failed"))
    triaged ← triage_notes_for checker_text
    set_row task_id subtask.id (λ r. record r { triage_notes = some triaged.0; state = triaging })
    count_up (increment_subtask_retries task_id subtask.id)
    note_retry attempt outcome false triaged.1
    return triaged.0

  unfoldable pub judge_progress : Text → Work W (Option Block)
  judge_progress verdict =
      if not (verdict == codes "flatlined")
      then (do write (reset_subtask_flatline_count task_id subtask.id); return none)
      else (do
        count ← count_up (increment_subtask_flatline_count task_id subtask.id)
        return
            (if leb cfg.subtask_flatline_block_count count then some (flatlined count) else none))

  unfoldable pub maybe_record_progress_block : ℕ → Work W (Option Block)
  unfolding judge_progress should_run_progress_check
  maybe_record_progress_block attempt =
      if not (should_run_progress_check cfg attempt)
      then return none
      else (do verdict ← act (o.progress_check attempt); judge_progress verdict)

  -- The rest of a round whose attempt failed.
  unfoldable pub after_failure : Round → Text → CheckerOutcome → Work W Next
  unfolding record_subtask_triage maybe_record_progress_block
  after_failure round checker_text outcome = do
    notes ← record_subtask_triage round.attempt checker_text outcome
    storm ←
        (λ w. (ok (maybe_signature_stop_loss cfg.stop_loss_caps task_id subtask.id w.subtasks), w))
    elim storm [
      | some block ↦ return (finish false (some block))
      | none ↦ do
        flat ← maybe_record_progress_block round.attempt
        return (elim flat [
          | some block ↦ finish false (some block)
          | none ↦ again (record round { triage_notes = some notes })
        ])
    ]

  -- `_handle_passed_subtask` and what the loop does with its answer.
  unfoldable pub after_pass : Round → CheckerOutcome → PassOutcome → Work W Next
  unfolding after_failure
  after_pass round outcome settled = do
    enter enter_committing task_id (some (subtask.id ++ codes " passed"))
    enter enter_pushing task_id (some (subtask.id ++ codes " committed and pushed"))
    return (finish true none)
  after_pass round outcome transient_retry = do
    enter enter_triaging_subtask task_id
        (some (subtask.id ++ codes " transient commit/push failure"))
    return (again (record round { attempt = round.attempt - 1 }))
  after_pass round outcome (failed checker_text) = after_failure round checker_text outcome

  unfoldable pub judge_verdict : Round → CheckVerdict → CheckerOutcome → Work W Next
  unfolding handle_subtask_pass after_pass after_failure
  judge_verdict round pass outcome = do
    answer ← handle_subtask_pass outcome.checker_text
    after_pass round outcome answer
  judge_verdict round fail outcome = after_failure round outcome.checker_text outcome

  unfoldable pub judge : Round → CheckerOutcome → Work W Next
  unfolding record_transient_failure judge_verdict
  judge round outcome =
      if outcome.transient
      then (do
        capped ← record_transient_failure round.attempt outcome (suc round.consecutive_transients)
        return (elim capped [
          | some block ↦ finish false (some block)
          | none ↦ again (record round {
            attempt = round.attempt - 1;
            consecutive_transients = suc round.consecutive_transients;
          })
        ]))
      else judge_verdict (record round { consecutive_transients = 0 }) outcome.verdict outcome

  -- The attempt proper, counted and made.
  unfoldable pub make_attempt : Round → Work W Next
  unfolding do_subtask judge
  make_attempt round = do
    enter enter_doing_subtask task_id (some (attempt_note subtask.id (suc round.attempt)))
    do_subtask (suc round.attempt) round.triage_notes
    enter enter_checking_subtask task_id (some subtask.id)
    outcome ← check_subtask o cfg task_id subtask
    judge (record round { attempt = suc round.attempt }) outcome

  -- `recreated`, `none` where `ensure_running` raised.
  unfoldable pub after_ensure : Round → Option Bool → Work W Next
  unfolding make_attempt
  after_ensure round (some true) =
      if ltb 3 (suc round.consecutive_reprovisions)
      then return (finish false (some recreation_failed))
      else make_attempt
          (record round { consecutive_reprovisions = suc round.consecutive_reprovisions })
  after_ensure round (some false) = make_attempt (record round { consecutive_reprovisions = 0 })
  after_ensure round none = make_attempt (record round { consecutive_reprovisions = 0 })

  unfoldable pub attempt_round : Round → Work W Next
  unfolding after_ensure
  attempt_round round = do recreated ← act o.ensure_running; after_ensure round recreated

  -- `none` where the fuel ran out.
  abbrev pub Ended : Type 0
  Ended = Option (Result Failure (Bool × Option Block) × Worker W)

  unfoldable pub attempt_until_settled : ℕ → Round → Worker W → Ended
  attempt_until_settled zero round w = none
  attempt_until_settled (suc fuel) round w =
      if ltb round.attempt cfg.subtask_hard_max_attempts
      then (let (result, after) = attempt_round round w in
          elim result [
            | raise e ↦ some (raise e, after)
            | ok (finish success block) ↦ some (ok (success, block), after)
            | ok (again next) ↦ attempt_until_settled fuel next after
          ])
      else some (ok (false, none), w)
