-- ===== src/Tests/Attempts.antt =====
-- A subtask whose first push fails for a while: the doer edits a file, the checker passes, and the
-- second push lands.
use quikode.Prelude.{
  ℕ, zero, suc, ◌≤◌, true, false, none, some, List, [], ◌∷◌, ◌++◌, Text, codes, ◌≡◌, ◌↔◌, refl,
  arith, pos, ◌==◌, is_pos, ok, map, if◌then◌else◌, ==_iff,
}
use quikode.Fsm.Table.{planning, blocked}
use quikode.Fsm.Rules.{enum, is_active}
use quikode.Store.Rows.{new_row}
use quikode.Store.Tasks.{select}
use quikode.Plan.Schema.{Subtask, subtask_ids}
use quikode.Subtasks.Table.{Table, Planned, planned_row, RetryReason, get_subtask}
use quikode.Subtasks.Cycles.{retry_reasons}
use quikode.Attempt.Classify.{
  Matcher, pass, fail, checker_fail, classify_retry, first_match, patterns, is_content, was_killed,
  joined, sig_default,
}
use quikode.Attempt.Storms.{
  shows_layer, Caps, signatures, max_cap, cannot_reproduce_storm, maybe_signature_stop_loss,
  cannot_reproduce_mark, flatlined,
}
use quikode.Attempt.State.{World, Worker, Settings, ran, Witness}
use quikode.Attempt.Check.{witnesses_all_passed}
use quikode.Attempt.Loop.{Round, attempt_until_settled}
use quikode.Attempt.Steps.{HasTask, IsBounded, returned}
use quikode.Attempt.Sets.{Outside, reason_text, block_subtask_set, run_subtask_set}
use quikode.Attempt.Holds.{later, blocked_or_held, block_subtask_set-outcome}
use quikode.Attempt.Turns.{AreChecked, Turns}
use quikode.Attempt.Finishes.{Finishes, run_subtask_set-Finishes}
use quikode.Subtasks.Keys.{IsKeyed}
use quikode.Store.Fire.{IsAt}
use quikode.Attempt.Ends.{Settles, attempt_until_settled-Settles}
use quikode.Attempt.Window.{cannot_reproduce_stop_loss_iff}
use quikode.Attempt.Layers.{classify_retry-layered_iff, witnesses_all_passed_iff}

abbrev task : Text
task = codes "R-0001"

abbrev subtask : Subtask
subtask = record {
  id = codes "S-01";
  title = codes "slice";
  depends_on = [];
  files_to_touch = [];
  boundary = [];
  acceptance = [];
  notes = [];
  interfaces = [];
  kind = codes "spec";
  rubric_targets = [];
  standards_referenced = [];
  architecture_referenced = [];
  behavior_evidence_advanced = [];
  root_cause_hypothesis = [];
}

-- The world's state is the number of pushes that still fail.
abbrev world : World ℕ
world = record {
  ensure_running = λ w. (some false, w);
  run_doer = λ n t w. w;
  last_diff_text = λ w. codes "diff";
  last_witness_results = λ w. [];
  exec_check = λ t w. (ran (pos 0) [] [], w);
  checker_agent = λ w. (
    record {
      structured = some (record { verdict = pass; rendered = codes "VERDICT: PASS" });
      rc = pos 0;
      transient = false;
      quick = false;
      parse_errors = [];
      stderr_excerpt = [];
      category = codes "none";
    },
    w,
  );
  pre_commit_gate = λ w. ((true, codes "skipped"), w);
  commit_subtask = λ w. elim w [
    | zero ↦ (
      record {
        success = true;
        commit_sha = some (codes "abc");
        transient = false;
        output = [];
        accepted_files = [];
      },
      0,
    )
    | suc k ↦ (
      record {
        success = false;
        commit_sha = none;
        transient = true;
        output = [];
        accepted_files = [];
      },
      k,
    )
  ];
  triage_agent = λ t w. (
    record {
      structured = none;
      rc = pos 1;
      transient = true;
      quick = true;
      parse_errors = [];
      stderr_excerpt = [];
      category = codes "none";
    },
    w,
  );
  progress_check = λ n w. (codes "progressing", w);
  sleep = λ n w. w;
}

commit-le : (w : ℕ) → (world.commit_subtask w).1 ≤ w
commit-le zero = omega arith
commit-le (suc k) = omega arith

transient-lt :
    (w : ℕ)
    → (world.commit_subtask w).0.success ≡ false
    → (world.commit_subtask w).0.transient ≡ true
    → suc (world.commit_subtask w).1 ≤ w
transient-lt zero h k = cc
transient-lt (suc k) h t = omega arith

world-IsBounded : IsBounded world (λ w. w)
world-IsBounded = record {
  ensure_running = λ w. omega arith;
  run_doer = λ n t w. omega arith;
  exec_check = λ t w. omega arith;
  checker_agent = λ w. omega arith;
  pre_commit_gate = λ w. omega arith;
  commit_subtask = commit-le;
  triage_agent = λ t w. omega arith;
  progress_check = λ n w. omega arith;
  sleep = λ n w. omega arith;
  transient_push = transient-lt;
}

-- No pattern matches.
abbrev matcher : Matcher
matcher = record { search = λ p t. none; upper = λ t. t }

abbrev caps : Caps
caps = record { cannot_reproduce = 2; transport = 3; same_signature = 5 }

abbrev settings : Settings
settings = record {
  subtask_hard_max_attempts = 30;
  subtask_progress_check_after = 4;
  subtask_progress_check_every = 3;
  subtask_flatline_block_count = 2;
  subtask_transient_max_retries = 5;
  transient_retry_delays_s = (codes "quota_exhausted", 600) ∷ [];
  stop_loss_caps = caps;
  local_ci_command = none;
  subtask_check_command = some (codes "just check");
}

abbrev planned : Planned
planned = record {
  subtask_id = codes "S-01";
  title = none;
  depends_on = none;
  files_to_touch = none;
  boundary = none;
  acceptance = none;
  notes = none;
  kind = none;
  planning_cycle = none;
  planning_kind = none;
}

abbrev worker : Worker ℕ
worker = record {
  store = record { tasks = new_row task planning ∷ []; log = []; captures = [] };
  subtasks = planned_row task 1 (codes "initial") planned ∷ [];
  world = 1;
}

abbrev first_round : Round
first_round = record {
  attempt = 0;
  triage_notes = none;
  consecutive_transients = 0;
  consecutive_reprovisions = 0;
}

worker-IsAt : IsAt task planning worker.store
unfolding select ◌==◌ new_row
worker-IsAt = record { row = new_row task planning; found = refl; state = refl }

worker-HasTask : HasTask task worker.store
worker-HasTask = (planning, worker-IsAt)

attempt_until_settled-Settles_example :
    Settles world matcher settings task subtask
      (λ w. w)
      world-IsBounded
      first_round
      worker
      worker.world
      (attempt_until_settled world matcher settings task subtask 300 first_round worker)
attempt_until_settled-Settles_example =
    attempt_until_settled-Settles world matcher settings task subtask (λ w. w) world-IsBounded 300
      first_round worker worker-HasTask (omega arith)

-- Two failures that cannot be reproduced, after one that the checker found.
abbrev reason : Text → RetryReason
reason signature = record {
  attempt = 1;
  category = codes "checker_fail";
  signature = signature;
  transient = false;
}

abbrev drift : Text
drift = codes "verdict=FAIL,layer=cannot_reproduce"

abbrev stormy : Table
stormy =
    record (planned_row task 1 (codes "initial") planned) {
      retry_reasons =
          some (reason (codes "verdict=FAIL,layer=rubric") ∷ reason drift ∷ reason drift ∷ []);
    }
    ∷ []

stormy-signatures :
    signatures (retry_reasons task (codes "S-01") stormy)
    ≡ ((codes "checker_fail", codes "verdict=FAIL,layer=rubric") ∷ [])
      ++ ((codes "checker_fail", drift) ∷ (codes "checker_fail", drift) ∷ [])
unfolding retry_reasons get_subtask ◌==◌ planned_row
stormy-signatures = refl

no_layer :
    shows_layer cannot_reproduce_mark (codes "checker_fail", codes "verdict=FAIL,layer=rubric")
    ≡ false
unfolding ◌==◌
no_layer = refl

drift_layer : shows_layer cannot_reproduce_mark (codes "checker_fail", drift) ≡ true
unfolding ◌==◌
drift_layer = refl

cannot_reproduce_stop_loss_iff_example :
    (maybe_signature_stop_loss caps task (codes "S-01") stormy ≡ some (cannot_reproduce_storm 2))
    ↔ (max_cap caps ≤ 2)
cannot_reproduce_stop_loss_iff_example =
    cannot_reproduce_stop_loss_iff caps task (codes "S-01") stormy
      ((codes "checker_fail", codes "verdict=FAIL,layer=rubric") ∷ [])
      ((codes "checker_fail", drift) ∷ (codes "checker_fail", drift) ∷ []) (omega arith)
      stormy-signatures (no_layer, tt) (omega arith) (drift_layer, (drift_layer, tt))

classify_retry-layered_iff_example :
    ((is_content
          (classify_retry matcher none []
            (codes "boom")
            (some (codes "checker"))
            (some (enum fail))
            (some (codes "rubric"))).0
        ≡ true)
      ↔ ((was_killed none ≡ false)
          × (first_match matcher (joined [] (codes "boom")) (sig_default none) patterns ≡ none)))
    × (is_content
            (classify_retry matcher none []
              (codes "boom")
              (some (codes "checker"))
              (some (enum fail))
              (some (codes "rubric"))).0
          ≡ true
        → classify_retry matcher none []
            (codes "boom")
            (some (codes "checker"))
            (some (enum fail))
            (some (codes "rubric"))
          ≡ (checker_fail, codes "verdict=FAIL,layer=" ++ codes "rubric"))
    × (is_content
            (classify_retry matcher none []
              (codes "boom")
              (some (codes "checker"))
              (some (enum fail))
              (some (codes "rubric"))).0
          ≡ false
        → classify_retry matcher none []
            (codes "boom")
            (some (codes "checker"))
            (some (enum fail))
            (some (codes "rubric"))
          ≡ classify_retry matcher none []
              (codes "boom")
              (some (codes "checker"))
              (some (enum fail))
              none)
classify_retry-layered_iff_example =
    classify_retry-layered_iff matcher none [] (codes "boom") b'r' (codes "ubric")

abbrev ran_ok : List Witness
ran_ok = record { rc = some (pos 0); classification = codes "OK" } ∷ []

witnesses_all_passed_iff_example : (witnesses_all_passed ran_ok ≡ true) ↔ (ran_ok ≡ [])
witnesses_all_passed_iff_example = witnesses_all_passed_iff ran_ok

-- A witness that succeeded is taken for one that failed.
witnesses_all_passed_test : witnesses_all_passed ran_ok ≡ false
unfolding witnesses_all_passed is_pos
witnesses_all_passed_test = refl

abbrev outside : Outside ℕ
outside = record {
  repr = λ t. t;
  boundary_checks = λ id w. (ok none, w);
  post_blocked_pr_comment = λ id t w. w;
}

outside-AreChecked : AreChecked world outside matcher settings task (λ w. w) world-IsBounded
outside-AreChecked id n w f = returned none w f

run_subtask_set-Finishes_example :
    Finishes world outside matcher settings task
      (λ w. w)
      world-IsBounded
      (Turns world outside matcher settings task
        (λ w. w)
        world-IsBounded
        (subtask ∷ [])
        (subtask ∷ [])
        worker)
      worker.world
      (run_subtask_set world outside matcher settings task 300 (subtask ∷ []) worker)
run_subtask_set-Finishes_example =
    run_subtask_set-Finishes world outside matcher settings task (λ w. w) world-IsBounded 300
      (subtask ∷ []) worker (omega arith) outside-AreChecked worker-HasTask

-- A set of two, whose first subtask is given up.
abbrev next_subtask : Subtask
next_subtask = record subtask { id = codes "S-02" }

abbrev two_rows : Worker ℕ
two_rows = record worker {
  subtasks =
      planned_row task 1 (codes "initial") planned
      ∷ planned_row task 1 (codes "initial") (record planned { subtask_id = codes "S-02" })
      ∷ [];
}

two_rows-IsKeyed : IsKeyed two_rows.subtasks
unfolding planned_row ◌==◌
two_rows-IsKeyed k i = ground (arith, ==_iff (codes "S-01") i, ==_iff (codes "S-02") i)

block_subtask_set-outcome_example :
    (w' : Worker ℕ) × (block_subtask_set world outside matcher settings task subtask
        (subtask ∷ next_subtask ∷ [])
        (some (flatlined 3))
        two_rows
      ≡ (ok (some blocked), w'))
    × (w'.subtasks
        ≡ map
            (blocked_or_held task subtask.id
              (reason_text
                (λ t. t)
                settings.subtask_hard_max_attempts
                subtask.id
                (some (flatlined 3)))
              (later subtask.id false (subtask_ids (subtask ∷ next_subtask ∷ []))))
            two_rows.subtasks)
    × IsAt task (if is_active planning then blocked else planning) w'.store
block_subtask_set-outcome_example =
    block_subtask_set-outcome world outside matcher settings task subtask
      (subtask ∷ next_subtask ∷ []) (some (flatlined 3)) planning two_rows worker-IsAt
      two_rows-IsKeyed
