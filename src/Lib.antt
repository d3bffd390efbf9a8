-- ===== src/Lib.antt =====
-- quikode drives tasks of a roadmap from planning to a merged pull request. This development models
-- the parts of it that decide what happens to a task, and proves them correct.
--
-- The parts, and how they interact:
-- * quikode/fsm.py is the task's state machine. `Fsm.Table` has its states, events and the listed
--   transitions, `Fsm.Rules` the state sets, the two updates of TRANSITIONS, `target_for_event` and
--   `recover_after_crash`. `Fsm.Gauntlet`, `Fsm.Exits` and `Fsm.Recovery` are proofs.
-- * quikode/state.py, quikode/store_tasks.py and quikode/store_review.py keep the tasks and the log of
--   their states in SQLite. `Store.Rows` has the rows of quikode/state_types.py, `Store.Tasks` one
--   function per operation under the method's name: an action that takes the store and returns a
--   value or an exception, and the store. `Store.Fire`, `Store.Log`, `Store.Orphans` and
--   `Store.History` are proofs; `Store.apply_event` asks the state machine for the target.
-- * quikode/fsm_runtime.py has the helpers by which workers and the daemon fire events.
--   `Runtime.Helpers` models all of them over the store; the other modules of `Runtime` are proofs.
-- * quikode/dag.py is the roadmap graph. `Dag.Graph` models `load`, `_topo_order`, `ready_nodes`,
--   `filter`, `ancestors_of` and `descendants_of`. The loop of `_topo_order` stands in `Topo.Kahn`,
--   since `Plan._topo_order_raise_on_cycle` is the same loop; the walk that `filter` and
--   `ancestors_of` share stands in `Walk.Loop`.
-- * quikode/subtask_schema.py and quikode/planner_validators.py check what a planner agent returns.
--   `Plan.Schema` models the checks after pydantic's, the order of the subtasks and the injected
--   stabilization subtask; `Plan.Validators` the checks against contract, evidence and findings.
-- * quikode/orchestration/stacking_helpers.py walks up the parents of stacked tasks: `Stacking.Walks`.
-- * quikode/orchestration/scheduler.py says which tasks can start and scores them. `Sched.Settings` has
--   the settings it reads, the protocol `_SchedulerStore` and the functions it is given as records,
--   `Sched.Pick` its functions, and `Sched.View` fills the records by the store and the walks.
-- * quikode/merge_node.py, with the parent columns of quikode/store_subtasks.py, keeps the nodes that
--   join several parents: `Merge.Parents` and `Merge.Nodes`.
-- * quikode/orchestration/candidates.py and `_pick_next` of quikode/orchestration/runner.py choose the
--   next task: `Picker.Candidates` and `Picker.Next`, over the scheduler, the walks and merge nodes.
-- * quikode/store_subtasks.py, quikode/store_forensics.py and quikode/store_planning_cycle.py keep the
--   subtasks of a task in planning cycles: `Subtasks.Table` and `Subtasks.Cycles`.
-- * quikode/net_retry.py repeats a process with growing delays: `Retry.Backoff`.
-- * quikode/workers/subtasks.py tries a subtask until it is settled. `Attempt.Loop` models
--   `_attempt_subtask_until_settled` with `_do_subtask` and `_triage_subtask` of
--   quikode/workers/subtask_execution.py and `_handle_subtask_pass` of
--   quikode/workers/subtask_completion.py, and `Attempt.Loop.Notes` its texts and tests;
--   `Attempt.Check` models `_check_subtask`, `Attempt.Classify` quikode/retry_classify.py, and
--   `Attempt.Storms` the checks of quikode/workers/subtask_stop_loss.py. `Attempt.State` has the
--   stores that a worker writes, the settings, and the record `World` of what is outside.
--   `Attempt.Sets` models `_run_subtask_set` and `_block_subtask_set`, with the checks at a boundary
--   in the record `Outside`. The other modules of `Attempt` are proofs.
-- * quikode/workers/audit_driver.py drives the audit cycles before a pull request: `Audit.Cycles`, with
--   `_enter_audit_cycle` and `_settle_pre_pr_cycle` of quikode/workers/pre_pr.py. `Audit.Stages` models
--   quikode/workers/pre_pr_audit_stages.py, which runs the five stages, `Audit.Summary` the summary
--   that quikode/store_planning_cycle.py keeps of them, and `Audit.Findings` the outcomes of
--   quikode/pre_pr_audit.py and the reports of quikode/workers/pre_pr_reports.py. The other modules of
--   `Audit` are proofs; cycles fire their events through the helpers of `Runtime`.
-- `Prelude` has the shared notation and lemmas, `Tests` runs at concrete inputs.
--
-- A Python str is the list of its code points. An exception is a value of a result type, and the
-- store outlives it. A dictionary is a list in the order of insertion or a function, a set a list.
-- The `while` loops run on fuel: as many rounds as there are ids for the topological order and for
-- `descendants_of` (one more for the start), and for the walk the length of its stack plus all that
-- can still be pushed, as it is for the walks up the parents. The depth of a stack runs on fuel for
-- the length of a path, two more than there are tasks. The loop of attempts runs on
-- `Attempt.Ends.rounds_needed` rounds, and each loop of a set of subtasks on
-- `Attempt.Finishes.fuel_needed`. The results below include that this is enough.
--
-- Not modelled: timestamps, log messages and the texts of error messages (their data are kept), the
-- content of block forensics (each call of it is recorded), review threads and agent calls of the
-- store, `topo_layers`, the checks of standards and architecture references, pydantic's own field
-- checks and the regular expression that reads the rubric categories; artifacts; the planners,
-- leftover fixup subtasks, the fixup round and the outcomes of single audit stages other than
-- standards and architecture; and the agents, containers, git, GitHub, configuration and interfaces
-- around these parts, which are input and output.
-- The doer, the checker and triage agents, the container, the gate and the commit are the fields of
-- `World`, the stage runners, the bootstrap, the texts of reports and the fixup round those of
-- `Auditors` and `Driver`; an exception that such a call raises on its own ends a worker and is
-- left out. A search of the patterns of quikode/retry_classify.py and `str.upper` are the fields of
-- `Matcher`.
-- The digest of hashlib that names a merge node, the clock, the times in the state log, the process
-- that is retried and the patterns that classify its output are parameters. Times are whole seconds,
-- and the fraction of subtasks that are done is rounded exactly, where the source uses floats.
-- A candidate with several unmet dependencies waits for a merge node and is not held to the limits on
-- depth and cycles; the result on cycles is about the others.
-- The state column holds a state, as `Store.validate_runtime_states` checks when a store is opened.
-- With foreign keys on, a log entry for a missing task is an integrity error and is rolled back.
pub mod Prelude
pub mod Fsm
pub mod Store
pub mod Runtime
pub mod Topo
pub mod Walk
pub mod Attempt
pub mod Audit
pub mod Dag
pub mod Plan
pub mod Tests
pub mod Stacking
pub mod Sched
pub mod Merge
pub mod Picker
pub mod Subtasks
pub mod Retry
