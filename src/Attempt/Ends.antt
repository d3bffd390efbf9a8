-- ===== src/Attempt/Ends.antt =====
-- How the attempts at a subtask end.
use quikode.Prelude.{
  ℕ, zero, suc, ◌+◌, ◌-◌, ◌*◌, ◌≤◌, ◌<◌, Bool, true, false, inl, inr, Option, none, some, Text,
  Result, ok, raise, ◌≡◌, refl, arith, ltb, Bool-cases,
}
use quikode.Fsm.Rules.{Failure}
use quikode.Plan.Schema.{Subtask}
use quikode.Attempt.Classify.{Matcher}
use quikode.Attempt.Storms.{Block}
use quikode.Attempt.State.{World, Settings, Worker}
use quikode.Attempt.Loop
use quikode.Attempt.Loop.{Round, Next, finish, again, attempt_until_settled, Ended}
use quikode.Attempt.Steps.{HasTask, Returns, returned, IsBounded}
use quikode.Attempt.Passes.{IsDone}
use quikode.Attempt.Closer.{Closer, attempt_round-Closer}

-- Each attempt and each transient push allows as many transient failures as the limit.
abbrev pub rounds_needed : Settings → ℕ → Round → ℕ
rounds_needed cfg pushes round =
    (cfg.subtask_hard_max_attempts - round.attempt + pushes)
      * (cfg.subtask_transient_max_retries + 2)
    + (cfg.subtask_transient_max_retries + 1 - round.consecutive_transients)

fewer : (a b k i j : ℕ) → a < b → i < k → a * k + i < b * k + j
fewer a b k i j below inner = grind arith

not_more : (a b k i j : ℕ) → a ≤ b → i < j → a * k + i < b * k + j
not_more a b k i j below inner = grind arith

module _ {W : Type 0} (o : World W) (m : Matcher) (cfg : Settings) (task_id : Text)
    (subtask : Subtask) (pushes : W → ℕ) (b : IsBounded o pushes) where
  -- How the attempts from a round on end, and why: that round succeeds, without a reason and with the
  -- row DONE; it gives up with a reason; it is not made, since the ceiling is reached; or it goes on,
  -- and the attempts end from the next round on.
  pub data Outcome : Round → Worker W → Bool → Option Block → Worker W → Type 0 where
    succeeded :
        (round : Round) (before w : Worker W)
        → round.attempt < cfg.subtask_hard_max_attempts
        → Loop.attempt_round o m cfg task_id subtask round before ≡ (ok (finish true none), w)
        → IsDone task_id subtask.id w.subtasks
        → Outcome round before true none w
    given_up :
        (round : Round) (before w : Worker W) (block : Block)
        → round.attempt < cfg.subtask_hard_max_attempts
        → Loop.attempt_round o m cfg task_id subtask round before
          ≡ (ok (finish false (some block)), w)
        → Outcome round before false (some block) w
    at_ceiling :
        (round : Round) (w : Worker W)
        → cfg.subtask_hard_max_attempts ≤ round.attempt
        → Outcome round w false none w
    later :
        (round next : Round) (before w last : Worker W) (success : Bool) (block : Option Block)
        → round.attempt < cfg.subtask_hard_max_attempts
        → Loop.attempt_round o m cfg task_id subtask round before ≡ (ok (again next), w)
        → Outcome next w success block last
        → Outcome round before success block last

  -- The attempts returned with such an outcome, and the task is still there.
  abbrev pub Settles :
      Round → Worker W → ℕ → Option (Result Failure (Bool × Option Block) × Worker W) → Type 0
  Settles round before n x =
      (success : Bool) × (block : Option Block) × (w : Worker W) × (x
        ≡ some (ok (success, block), w))
      × HasTask task_id w.store
      × Outcome round before success block w
      × (pushes w.world ≤ n)

  pub Settles-weaker :
      (round : Round) (before : Worker W) (k n : ℕ)
      (x : Option (Result Failure (Bool × Option Block) × Worker W))
      → k ≤ n
      → Settles round before k x
      → Settles round before n x
  Settles-weaker round before k n x more (success, block, w, e, here, why, below) =
      (success, block, w, e, here, why, omega arith)

  next-fewer :
      (round next : Round) (n : ℕ) (w : Worker W)
      → round.attempt < cfg.subtask_hard_max_attempts
      → Closer o m cfg task_id subtask pushes b n round.attempt round.consecutive_transients
          (again next)
          w
      → rounds_needed cfg (pushes w.world) next < rounds_needed cfg n round
  next-fewer round next n w open_ (f, inl more) =
      fewer (cfg.subtask_hard_max_attempts - next.attempt + pushes w.world)
        (cfg.subtask_hard_max_attempts - round.attempt + n) (cfg.subtask_transient_max_retries + 2)
        (cfg.subtask_transient_max_retries + 1 - next.consecutive_transients)
        (cfg.subtask_transient_max_retries + 1 - round.consecutive_transients) (omega arith)
        (omega arith)
  next-fewer round next n w open_ (f, inr (inl (same, more, within))) =
      not_more (cfg.subtask_hard_max_attempts - next.attempt + pushes w.world)
        (cfg.subtask_hard_max_attempts - round.attempt + n) (cfg.subtask_transient_max_retries + 2)
        (cfg.subtask_transient_max_retries + 1 - next.consecutive_transients)
        (cfg.subtask_transient_max_retries + 1 - round.consecutive_transients) (omega arith)
        (omega arith)
  next-fewer round next n w open_ (f, inr (inr (same, used))) =
      fewer (cfg.subtask_hard_max_attempts - next.attempt + pushes w.world)
        (cfg.subtask_hard_max_attempts - round.attempt + n) (cfg.subtask_transient_max_retries + 2)
        (cfg.subtask_transient_max_retries + 1 - next.consecutive_transients)
        (cfg.subtask_transient_max_retries + 1 - round.consecutive_transients) (omega arith)
        (omega arith)

  after_round-Settles :
      (fuel n : ℕ) (round : Round) (before : Worker W) (out : Result Failure Next × Worker W)
      → round.attempt < cfg.subtask_hard_max_attempts
      → Loop.attempt_round o m cfg task_id subtask round before ≡ out
      → Returns
          (Closer o m cfg task_id subtask pushes b n round.attempt round.consecutive_transients)
          out
      → ((next : Round) (w : Worker W)
          → Closer o m cfg task_id subtask pushes b n round.attempt round.consecutive_transients
              (again next)
              w
          → Settles next w n (attempt_until_settled o m cfg task_id subtask fuel next w))
      → Settles round before n (elim out.0 [
        | raise e ↦ some (raise e, out.1)
        | ok (finish success block) ↦ some (ok (success, block), out.1)
        | ok (again next) ↦ attempt_until_settled o m cfg task_id subtask fuel next out.1
      ])
  after_round-Settles fuel n round before out below e (returned (finish true none) w (f, finished))
        rest =
      (true, none, w, refl, f.1, succeeded round before w below e finished, f.0)
  after_round-Settles fuel n round before out below e (returned (finish true (some block)) w c)
        rest =
      absurd c
  after_round-Settles fuel n round before out below e (returned (finish false none) w c) rest =
      absurd c
  after_round-Settles fuel n round before out below e (returned (finish false (some block)) w f)
        rest =
      (false, some block, w, refl, f.1, given_up round before w block below e, f.0)
  after_round-Settles fuel n round before out below e (returned (again next) w c) rest =
      let (success, block, last, x, here, why, fewer_pushes) = rest next w c in
      (
        success,
        block,
        last,
        x,
        here,
        later round next before w last success block below e why,
        fewer_pushes,
      )

  -- For a task that is in the store, and where only so many pushes still fail as transient, the
  -- attempts at a subtask end within that many rounds: nothing is raised, the task stays in the
  -- store, no such push is added, and the outcome is one of three. They succeed without a reason, in a
  -- round that succeeded and left the subtask's row DONE; they fail with the reason of the round that
  -- gave up; or they fail without a reason, and then the ceiling of attempts was reached. The doer, the
  -- checker, the container and the other agents may do anything.
  pub attempt_until_settled-Settles :
      (fuel : ℕ) (round : Round) (w : Worker W)
      → HasTask task_id w.store
      → rounds_needed cfg (pushes w.world) round < fuel
      → Settles round w
          (pushes w.world)
          (attempt_until_settled o m cfg task_id subtask fuel round w)
  unfolding attempt_until_settled
  attempt_until_settled-Settles zero round w here enough = absurd (omega arith)
  attempt_until_settled-Settles (suc fuel) round w here enough =
      elim (Bool-cases (ltb round.attempt cfg.subtask_hard_max_attempts)) [
        | inl e ↦ simp e (
            after_round-Settles fuel (pushes w.world) round w
              (Loop.attempt_round o m cfg task_id subtask round w) (ground (arith, e)) refl
              (attempt_round-Closer o m cfg task_id subtask pushes b round (pushes w.world) w
                (omega arith, here))
              (λ next w' c.
                let closer = next-fewer round next (pushes w.world) w' (ground (arith, e)) c in
                Settles-weaker next w' _ _ _ c.0.0
                  (attempt_until_settled-Settles fuel next w' c.0.1 (omega arith))))
        | inr e ↦
            simp e (false, none, w, refl, here, at_ceiling round w (ground (arith, e)), omega arith)
      ]
