-- ===== src/Attempt/Sets.antt =====
-- The sets of subtasks in quikode/workers/subtasks.py: one subtask after the other is attempted, and one
-- that is given up blocks the task and holds back the later ones. `_maybe_yield_at_boundary` reads
-- priorities, writes nothing and returns None on every path.
use quikode.Prelude.{
  ℕ, Bool, true, false, not, ◌&&◌, ◌||◌, Option, none, some, List, [], ◌∷◌, ◌++◌, Text, codes, ◌==◌,
  if◌then◌else◌, decimal, Result, ok, raise,
}
use quikode.Fsm.Table.{State}
use quikode.Fsm.Rules.{Failure}
use quikode.Store.Rows.{set_last_error}
use quikode.Subtasks.Cycles.{take_text}
use quikode.Subtasks.Table.{
  SubtaskState, SubtaskRow, Table, is_done, is_skipped, get_subtask, update_subtask,
}
use quikode.Plan.Schema.{Subtask, subtask_ids}
use quikode.Attempt.Classify.{Matcher}
use quikode.Attempt.Storms.{
  Block, cannot_reproduce_storm, transport_storm, same_signature_storm, recreation_failed,
  transients_exceeded, flatlined,
}
use quikode.Attempt.State.{
  World, Settings, Work, Worker, block_task, set_row, write, run, return, ◌>>◌,
}
use quikode.Attempt.Loop.{Round, attempt_until_settled}

-- What is outside: `repr` of a str, the checks for a rebase of the parent and a diverged branch, which
-- give the final state of their outcome, and the comment on the pull request, whose errors are caught.
pub record Outside (W : Type 0) : Type 0 where
  pub repr : Text → Text
  pub boundary_checks : Text → Work W (Option State)
  pub post_blocked_pr_comment : Text → Text → W → W

-- The messages of the blocks.
unfoldable pub block_text : (Text → Text) → Text → Block → Text
block_text repr id (cannot_reproduce_storm k) =
    codes "cannot_reproduce stop-loss: last "
    ++ decimal k
    ++ codes " non-transient retries on "
    ++ id
    ++ codes
        " produced empty diffs while the local objective gate and scoped witnesses were green (layer=cannot_reproduce). GitHub CI is failing on environmental drift the local container cannot reproduce — likely cached intermediate artifacts, pinned-version divergence between local and CI runner, or a missing checked-in generated file. Operator action: investigate the environment delta; do not retry this recipe."
block_text repr id (transport_storm k) =
    codes "transport stop-loss: last "
    ++ decimal k
    ++ codes
        " non-transient retries had empty diffs (layer=transport). The doer model is not producing work product. Check `cfg.subtask_doer_model` and the underlying transport (litellm bridge, codex profile, provider quota). Operator action: swap subtask_doer_model to a known-reliable model and resume."
block_text repr id (same_signature_storm n category signature) =
    codes "same-signature stop-loss: last "
    ++ decimal n
    ++ codes " non-transient retries all share category="
    ++ repr category
    ++ codes " signature="
    ++ repr signature
block_text repr id recreation_failed =
    codes "subtask "
    ++ id
    ++ codes ": dev container recreation failed 3 consecutive times; aborting attempt loop"
block_text repr id (transients_exceeded cap) =
    codes "subtask transient checker failures exceeded cap (" ++ decimal cap ++ codes ")"
block_text repr id (flatlined count) =
    codes "progress check flatlined " ++ decimal count ++ codes " consecutive times"

-- `block_reason or f"exhausted hard ceiling of {hard_max} attempts"`; no message is empty.
unfoldable pub reason_text : (Text → Text) → ℕ → Text → Option Block → Text
unfolding block_text
reason_text repr hard_max id none =
    codes "exhausted hard ceiling of " ++ decimal hard_max ++ codes " attempts"
reason_text repr hard_max id (some block) = block_text repr id block

abbrev pub is_pending : SubtaskState → Bool
is_pending SubtaskState.pending = true
is_pending _ = false

abbrev pub upstream_text : Text → Text
upstream_text after = codes "upstream subtask " ++ after ++ codes " blocked"

abbrev pub set_pending : Text → SubtaskRow → SubtaskRow
set_pending after r = record r {
  state = SubtaskState.pending;
  last_error = some (upstream_text after);
}

abbrev pub set_blocked : Text → SubtaskRow → SubtaskRow
set_blocked reason r = record r { state = SubtaskState.blocked; last_error = some reason }

-- One later subtask, by the row that `get_subtask` finds.
abbrev pub hold_pending_if : Text → Text → Text → Table → Option SubtaskRow → Table
hold_pending_if task_id after id t none = t
hold_pending_if task_id after id t (some r) =
    if is_pending r.state then update_subtask task_id id (set_pending after) t else t

unfoldable pub hold_pending : Text → Text → Text → Table → Table
hold_pending task_id after id t = hold_pending_if task_id after id t (get_subtask task_id id t)

-- `_mark_remaining_pending_after_block`: `seen` is `seen_marker`.
unfoldable pub mark_remaining_pending_after_block : Text → Text → Bool → List Text → Table → Table
unfolding hold_pending
mark_remaining_pending_after_block task_id after seen [] t = t
mark_remaining_pending_after_block task_id after seen (id ∷ ids) t =
    mark_remaining_pending_after_block task_id after (seen || id == after) ids
      (if seen && not (id == after) then hold_pending task_id after id t else t)

-- The start of the loop of attempts, from the row that was there.
abbrev pub first_round : Option SubtaskRow → Round
first_round existing = record {
  attempt = elim existing [ none ↦ 0 | some r ↦ r.retries ];
  triage_notes = none;
  consecutive_transients = 0;
  consecutive_reprovisions = 0;
}

abbrev pub blocked_note : Text → Text → Text
blocked_note id reason =
    codes "subtask "
    ++ id
    ++ codes " blocked: "
    ++ reason
    ++ codes "; remaining subtasks held pending."

module _ {W : Type 0} (o : World W) (out : Outside W) (m : Matcher) (cfg : Settings)
    (task_id : Text) where
  unfoldable pub mark_subtask_blocked : Text → Text → Work W (Unit {0})
  mark_subtask_blocked id reason = do
    set_row task_id id (set_blocked reason)
    run (out.post_blocked_pr_comment id reason)

  unfoldable pub block_subtask_set : Subtask → List Subtask → Option Block → Work W (Option State)
  unfolding mark_subtask_blocked mark_remaining_pending_after_block reason_text
  block_subtask_set subtask subtasks block = do
    mark_subtask_blocked subtask.id
        (reason_text out.repr cfg.subtask_hard_max_attempts subtask.id block)
    write (mark_remaining_pending_after_block task_id subtask.id false (subtask_ids subtasks))
    block_task task_id
        (some (
          blocked_note subtask.id
            (reason_text out.repr cfg.subtask_hard_max_attempts subtask.id block)))
        (set_last_error (
            some (
              take_text 1000 (
                blocked_note subtask.id
                  (reason_text out.repr cfg.subtask_hard_max_attempts subtask.id block))))
          ∷ [])
    return (some State.blocked)

  -- The final state of an outcome, or `none`; no value at all where the fuel ran out.
  abbrev pub SetEnd : Type 0
  SetEnd = Option (Result Failure (Option State) × Worker W)

  unfoldable pub or_block :
      Subtask → List Subtask → Option (Result Failure (Bool × Option Block) × Worker W) → SetEnd
  unfolding block_subtask_set
  or_block subtask subtasks none = none
  or_block subtask subtasks (some (raise e, w)) = some (raise e, w)
  or_block subtask subtasks (some (ok (true, block), w)) = some (ok none, w)
  or_block subtask subtasks (some (ok (false, block), w)) =
      some (block_subtask_set subtask subtasks block w)

  abbrev pub repaired : Text → SubtaskRow → Worker W → Worker W
  repaired id r w =
      if is_skipped r.state
      then record w {
        subtasks =
            update_subtask task_id id (λ r. record r { state = SubtaskState.pending }) w.subtasks;
      }
      else w

  unfoldable pub run_if_open : ℕ → Subtask → List Subtask → Option SubtaskRow → Worker W → SetEnd
  unfolding or_block
  run_if_open fuel subtask subtasks none w =
      or_block subtask subtasks
        (attempt_until_settled o m cfg task_id subtask fuel (first_round none) w)
  run_if_open fuel subtask subtasks (some r) w = elim (is_done r.state) [
    | true ↦ some (ok none, w)
    | false ↦ or_block subtask subtasks (
        attempt_until_settled o m cfg task_id subtask fuel (first_round (some r))
          (repaired subtask.id r w))
  ]

  -- The rest of `_run_one_subtask` behind its boundary checks.
  unfoldable pub after_checks :
      ℕ → Subtask → List Subtask → Result Failure (Option State) × Worker W → SetEnd
  unfolding run_if_open
  after_checks fuel subtask subtasks (raise e, w) = some (raise e, w)
  after_checks fuel subtask subtasks (ok (some final), w) = some (ok (some final), w)
  after_checks fuel subtask subtasks (ok none, w) =
      run_if_open fuel subtask subtasks (get_subtask task_id subtask.id w.subtasks) w

  unfoldable pub run_one_subtask : ℕ → Subtask → List Subtask → Worker W → SetEnd
  unfolding after_checks
  run_one_subtask fuel subtask subtasks w =
      after_checks fuel subtask subtasks (out.boundary_checks subtask.id w)

  -- An outcome ends the set.
  abbrev pub go_on : SetEnd → (Worker W → SetEnd) → SetEnd
  go_on none rest = none
  go_on (some (raise e, w)) rest = some (raise e, w)
  go_on (some (ok (some final), w)) rest = some (ok (some final), w)
  go_on (some (ok none, w)) rest = rest w

  -- The loop over the subtasks that are left.
  unfoldable pub run_subtasks : ℕ → List Subtask → List Subtask → Worker W → SetEnd
  unfolding run_one_subtask
  run_subtasks fuel subtasks [] w = some (ok none, w)
  run_subtasks fuel subtasks (subtask ∷ left) w =
      go_on (run_one_subtask fuel subtask subtasks w) (run_subtasks fuel subtasks left)

  unfoldable pub run_subtask_set : ℕ → List Subtask → Worker W → SetEnd
  unfolding run_subtasks
  run_subtask_set fuel subtasks w = run_subtasks fuel subtasks subtasks w
