-- ===== src/Attempt/State.antt =====
-- The state of a worker at one subtask: the two stores, and the world that it acts on. What the
-- container, git and the agents do is given.
use quikode.Prelude.{ℕ, Bool, Option, List, [], Text, Result, ok, raise, ℤ}
use quikode.Fsm.Table.{State}
use quikode.Fsm.Rules.{Failure}
use quikode.Store.Rows.{Store, Field}
use quikode.Subtasks.Table.{Table, SubtaskRow, update_subtask}
use quikode.Runtime.Helpers.{Helper, call, block_current}
use quikode.Attempt.Classify.{CheckVerdict}
use quikode.Attempt.Storms.{Caps}

-- The output of the checker agent, and of the triage agent. `verdict` is the schema's "pass" or "fail".
pub record CheckerReport : Type 0 where
  pub verdict : CheckVerdict
  pub rendered : Text

pub record TriageReport : Type 0 where
  pub failure_layer : Text
  pub rendered : Text

-- `JsonAgentResult`. `structured` is `none` where it has not the schema that was asked for, and
-- `quick` says that the call took less than five seconds.
pub record AgentResult (A : Type 0) : Type 0 where
  pub structured : Option A
  pub rc : ℤ
  pub transient : Bool
  pub quick : Bool
  pub parse_errors : List Text
  pub stderr_excerpt : Text
  pub category : Text

-- `CommitResult` of quikode/worktree.py.
pub record CommitResult : Type 0 where
  pub success : Bool
  pub commit_sha : Option Text
  pub transient : Bool
  pub output : Text
  pub accepted_files : List Text

-- An entry of the witness results: its return code, and its classification in capitals.
pub record Witness : Type 0 where
  pub rc : Option ℤ
  pub classification : Text

-- A process that ran, or the text of the exception that was raised in its place.
pub data Ran : Type 0 where
  ran : ℤ → Text → Text → Ran
  raised : Text → Ran

-- What is outside: `ensure_running` gives `none` where it raises; `run_doer` is the doer agent with the
-- diff and the witnesses that are read after it.
pub record World (W : Type 0) : Type 0 where
  pub ensure_running : W → Option Bool × W
  pub run_doer : ℕ → Option Text → W → W
  pub last_diff_text : W → Text
  pub last_witness_results : W → List Witness
  pub exec_check : Text → W → Ran × W
  pub checker_agent : W → AgentResult CheckerReport × W
  pub pre_commit_gate : W → (Bool × Text) × W
  pub commit_subtask : W → CommitResult × W
  pub triage_agent : Text → W → AgentResult TriageReport × W
  pub progress_check : ℕ → W → Text × W
  pub sleep : ℕ → W → W

-- The settings of quikode/config.py that the loop reads.
pub record Settings : Type 0 where
  pub subtask_hard_max_attempts : ℕ
  pub subtask_progress_check_after : ℕ
  pub subtask_progress_check_every : ℕ
  pub subtask_flatline_block_count : ℕ
  pub subtask_transient_max_retries : ℕ
  pub transient_retry_delays_s : List (Text × ℕ)
  pub stop_loss_caps : Caps
  pub local_ci_command : Option Text
  pub subtask_check_command : Option Text

pub record Worker (W : Type 0) : Type 0 where
  pub store : Store
  pub subtasks : Table
  pub world : W

-- A step of a worker; an exception ends the step and the stores outlive it.
abbrev pub Work : Type 0 → Type 0 → Type 0
Work W A = Worker W → Result Failure A × Worker W

module _ {W : Type 0} where
  abbrev pub work_then : {A B : Type 0} → Result Failure A → (A → Work W B) → Work W B
  work_then (raise e) rest w = (raise e, w)
  work_then (ok value) rest w = rest value w

  infixl 5 ◌>>=◌
  abbrev pub ◌>>=◌ : {A B : Type 0} (before : Work W A) (rest : A → Work W B) → Work W B
  ◌>>=◌ before rest w = let (result, after) = before w in work_then result rest after

  infixl 5 ◌>>◌
  abbrev pub ◌>>◌ : {A B : Type 0} (before : Work W A) (rest : Work W B) → Work W B
  before >> rest = before >>= (λ value. rest)

  abbrev pub return : {A : Type 0} → A → Work W A
  return a w = (ok a, w)

  -- A helper of quikode/fsm_runtime.py.
  unfoldable pub enter : Helper → Text → Option Text → Work W (Option State)
  enter helper task_id message w =
      let (result, store) = call helper task_id message [] w.store in
      (result, record w { store = store })

  unfoldable pub block_task : Text → Option Text → List Field → Work W (Option State)
  block_task task_id message fields w =
      let (result, store) = block_current task_id message fields w.store in
      (result, record w { store = store })

  -- A write to the subtasks table.
  abbrev pub write : (Table → Table) → Work W (Unit {0})
  write f w = (ok tt, record w { subtasks = f w.subtasks })

  -- A write that returns a counter.
  abbrev pub count_up : (Table → ℕ × Table) → Work W ℕ
  count_up f w = let (n, t) = f w.subtasks in (ok n, record w { subtasks = t })

  abbrev pub set_row : Text → Text → (SubtaskRow → SubtaskRow) → Work W (Unit {0})
  set_row task_id subtask_id f = write (update_subtask task_id subtask_id f)

  abbrev pub see : {A : Type 0} → (W → A) → Work W A
  see f w = (ok (f w.world), w)

  abbrev pub act : {A : Type 0} → (W → A × W) → Work W A
  act f w = let (a, world) = f w.world in (ok a, record w { world = world })

  abbrev pub run : (W → W) → Work W (Unit {0})
  run f w = (ok tt, record w { world = f w.world })
