-- ===== src/Attempt/Finishes.antt =====
-- How a set of subtasks ends.
use quikode.Prelude.{
  ℕ, ◌+◌, ◌-◌, ◌*◌, ◌≤◌, ◌<◌, Bool, true, false, inl, inr, Option, none, some, List, [], ◌∷◌, Text,
  Result, ok, ◌≡◌, refl, arith, Bool-cases, if◌then◌else◌,
}
use quikode.Fsm.Table.{State, blocked}
use quikode.Fsm.Rules.{Failure, is_active}
use quikode.Subtasks.Table.{SubtaskRow, is_done, is_skipped, get_subtask}
use quikode.Plan.Schema.{Subtask}
use quikode.Attempt.Classify.{Matcher}
use quikode.Attempt.Storms.{Block}
use quikode.Attempt.State.{World, Settings, Worker}
use quikode.Attempt.Loop.{Round, attempt_until_settled}
use quikode.Attempt.Sets.{
  Outside, first_round, repaired, or_block, run_if_open, after_checks, run_one_subtask,
  run_subtasks, run_subtask_set, SetEnd, go_on,
}
use quikode.Attempt.Steps.{HasTask, Returns, returned, IsBounded, Fine}
use quikode.Attempt.Turns.{
  AreChecked, Tried, was_done, first_tried, tried_again, Turn, at_boundary, settled, given_up,
  Turns, at_the_end, stops, goes_on,
}
use quikode.Attempt.Ends.{
  Outcome, Settles, Settles-weaker, rounds_needed, attempt_until_settled-Settles,
}
use quikode.Attempt.Holds.{block_subtask_set-BlocksAt}

-- Enough fuel for one subtask while at most `n` pushes are still to fail.
abbrev pub fuel_needed : Settings → ℕ → ℕ
fuel_needed cfg n =
    (cfg.subtask_hard_max_attempts + n) * (cfg.subtask_transient_max_retries + 2)
    + (cfg.subtask_transient_max_retries + 1)

blocked-is_idle : (t : State) → is_active (if is_active t then blocked else t) ≡ false
unfolding is_active
blocked-is_idle t = elim (Bool-cases (is_active t)) [ inl e ↦ rw e refl | inr e ↦ rw e e ]

product-rises : (a b c : ℕ) → a ≤ b → a * c ≤ b * c
product-rises a b c below = grind arith

rounds-enough :
    (cfg : Settings) (existing : Option SubtaskRow) (k n : ℕ)
    → k ≤ n
    → rounds_needed cfg k (first_round existing) ≤ fuel_needed cfg n
rounds-enough cfg existing k n below =
    let product =
      product-rises (cfg.subtask_hard_max_attempts - (first_round existing).attempt + k)
        (cfg.subtask_hard_max_attempts + n) (cfg.subtask_transient_max_retries + 2) (omega arith) in
    omega arith

module _ {W : Type 0} (o : World W) (out : Outside W) (m : Matcher) (cfg : Settings)
    (task_id : Text) (pushes : W → ℕ) (b : IsBounded o pushes) where
  -- `x` returned an outcome with the property; where it goes on, the task is there and no push was
  -- added.
  abbrev pub Finishes : (Option State → Worker W → Type 0) → ℕ → SetEnd o out m cfg task_id → Type 0
  Finishes P n x =
      (outcome : Option State) × (w : Worker W) × (x ≡ some (ok outcome, w))
      × P outcome w
      × (outcome ≡ none → Fine pushes task_id n w)

  or_block-Finishes :
      (subtask : Subtask) (subtasks : List Subtask) (n : ℕ) (before checked start : Worker W)
      (round : Round) (x : Option (Result Failure (Bool × Option Block) × Worker W))
      → out.boundary_checks subtask.id before ≡ (ok none, checked)
      → ((success : Bool) (block : Option Block) (w : Worker W)
          → Outcome o m cfg task_id subtask pushes b round start success block w
          → Tried o out m cfg task_id pushes b subtask checked success block w)
      → Settles o m cfg task_id subtask pushes b round start n x
      → Finishes
          (Turn o out m cfg task_id pushes b subtasks subtask before)
          n
          (or_block o out m cfg task_id subtask subtasks x)
  unfolding or_block
  or_block-Finishes subtask subtasks n before checked start round x ready tried
        (true, block, w, e, here, why, below) =
      rw e (
        none,
        w,
        refl,
        settled subtask before checked w block ready (tried true block w why),
        λ h. (below, here),
      )
  or_block-Finishes subtask subtasks n before checked start round x ready tried
        (false, block, w, e, (t, at), why, below) =
      let (w', blocks, rows, at') =
        block_subtask_set-BlocksAt o out m cfg task_id subtask subtasks block t w at in
      rw (e, blocks)
        (
          some blocked,
          w',
          refl,
          given_up subtask before checked w w' block _ ready (tried false block w why) blocks at'
              (blocked-is_idle t),
          λ h. cc,
        )

  existing-enough :
      (existing : Option SubtaskRow) (k n fuel : ℕ)
      → k ≤ n
      → fuel_needed cfg n < fuel
      → rounds_needed cfg k (first_round existing) < fuel
  existing-enough existing k n fuel below enough =
      let within = rounds-enough cfg existing k n below in omega arith

  attempts-Finishes :
      (fuel n : ℕ) (subtask : Subtask) (subtasks : List Subtask) (existing : Option SubtaskRow)
      (before checked start : Worker W)
      → fuel_needed cfg n < fuel
      → Fine pushes task_id n start
      → out.boundary_checks subtask.id before ≡ (ok none, checked)
      → ((success : Bool) (block : Option Block) (w : Worker W)
          → Outcome o m cfg task_id subtask pushes b (first_round existing) start success block w
          → Tried o out m cfg task_id pushes b subtask checked success block w)
      → Finishes (Turn o out m cfg task_id pushes b subtasks subtask before) n (
          or_block o out m cfg task_id subtask subtasks
            (attempt_until_settled o m cfg task_id subtask fuel (first_round existing) start))
  attempts-Finishes fuel n subtask subtasks existing before checked start enough (below, here) ready
        tried =
      or_block-Finishes subtask subtasks n before checked start (first_round existing) _ ready tried
        (Settles-weaker o m cfg task_id subtask pushes b (first_round existing) start
          (pushes start.world) n _ below
          (attempt_until_settled-Settles o m cfg task_id subtask pushes b fuel
            (first_round existing) start here
            (existing-enough existing (pushes start.world) n fuel below enough)))

  run_if_open-Finishes :
      (fuel n : ℕ) (subtask : Subtask) (subtasks : List Subtask) (existing : Option SubtaskRow)
      (before w : Worker W)
      → fuel_needed cfg n < fuel
      → Fine pushes task_id n w
      → out.boundary_checks subtask.id before ≡ (ok none, w)
      → get_subtask task_id subtask.id w.subtasks ≡ existing
      → Finishes
          (Turn o out m cfg task_id pushes b subtasks subtask before)
          n
          (run_if_open o out m cfg task_id fuel subtask subtasks existing w)
  unfolding run_if_open
  run_if_open-Finishes fuel n subtask subtasks none before w enough f ready found =
      attempts-Finishes fuel n subtask subtasks none before w w enough f ready
        (λ success block v why. first_tried subtask w v success block found why)
  run_if_open-Finishes fuel n subtask subtasks (some r) before w enough f ready found =
      elim (Bool-cases (is_done r.state)) [
        | inl e ↦
            rw (e, run_if_open)
              (
                none,
                w,
                refl,
                settled subtask before w w none ready (was_done subtask w r found e),
                λ h. f,
              )
        | inr e ↦
            rw (e, run_if_open)
              (attempts-Finishes fuel n subtask subtasks (some r) before w
                (repaired o out m cfg task_id subtask.id r w) enough
                (elim (Bool-cases (is_skipped r.state)) [ inl s ↦ rw s f | inr s ↦ rw s f ]) ready
                (λ success block v why. tried_again subtask w v r success block found e why))
      ]

  checked-Finishes :
      (fuel n : ℕ) (subtask : Subtask) (subtasks : List Subtask) (before : Worker W)
      (x : Result Failure (Option State) × Worker W)
      → fuel_needed cfg n < fuel
      → out.boundary_checks subtask.id before ≡ x
      → Returns (λ r. Fine pushes task_id n) x
      → Finishes
          (Turn o out m cfg task_id pushes b subtasks subtask before)
          n
          (after_checks o out m cfg task_id fuel subtask subtasks x)
  unfolding after_checks
  checked-Finishes fuel n subtask subtasks before x enough ready (returned (some final) w f) =
      (some final, w, refl, at_boundary subtask final before w ready, λ h. cc)
  checked-Finishes fuel n subtask subtasks before x enough ready (returned none w f) =
      run_if_open-Finishes fuel n subtask subtasks (get_subtask task_id subtask.id w.subtasks)
        before w enough f ready refl

  run_one_subtask-Finishes :
      (fuel n : ℕ) (subtask : Subtask) (subtasks : List Subtask) (w : Worker W)
      → fuel_needed cfg n < fuel
      → AreChecked o out m cfg task_id pushes b
      → Fine pushes task_id n w
      → Finishes
          (Turn o out m cfg task_id pushes b subtasks subtask w)
          n
          (run_one_subtask o out m cfg task_id fuel subtask subtasks w)
  unfolding run_one_subtask
  run_one_subtask-Finishes fuel n subtask subtasks w enough checked f =
      checked-Finishes fuel n subtask subtasks w _ enough refl (checked subtask.id n w f)

  go_on-Finishes :
      (n : ℕ) (subtask : Subtask) (subtasks left : List Subtask) (before : Worker W)
      (x : SetEnd o out m cfg task_id) (rest : Worker W → SetEnd o out m cfg task_id)
      → Finishes (Turn o out m cfg task_id pushes b subtasks subtask before) n x
      → ((w : Worker W)
          → Fine pushes task_id n w
          → Finishes (Turns o out m cfg task_id pushes b subtasks left w) n (rest w))
      → Finishes
          (Turns o out m cfg task_id pushes b subtasks (subtask ∷ left) before)
          n
          (go_on o out m cfg task_id x rest)
  go_on-Finishes n subtask subtasks left before x rest (some final, w, e, turn, fine) then_ =
      rw e (some final, w, refl, stops subtask left final before w turn, fine)
  go_on-Finishes n subtask subtasks left before x rest (none, w, e, turn, fine) then_ =
      let (outcome, last, e', turns, fine') = then_ w (fine refl) in
      rw (e, e') (outcome, last, refl, goes_on subtask left outcome before w last turn turns, fine')

  run_subtasks-Finishes :
      (fuel n : ℕ) (subtasks left : List Subtask) (w : Worker W)
      → fuel_needed cfg n < fuel
      → AreChecked o out m cfg task_id pushes b
      → Fine pushes task_id n w
      → Finishes
          (Turns o out m cfg task_id pushes b subtasks left w)
          n
          (run_subtasks o out m cfg task_id fuel subtasks left w)
  unfolding run_subtasks
  run_subtasks-Finishes fuel n subtasks [] w enough checked f =
      (none, w, refl, at_the_end w, λ h. f)
  run_subtasks-Finishes fuel n subtasks (subtask ∷ left) w enough checked f =
      go_on-Finishes n subtask subtasks left w _ _
        (run_one_subtask-Finishes fuel n subtask subtasks w enough checked f)
        (λ w' f'. run_subtasks-Finishes fuel n subtasks left w' enough checked f')

  -- For a task in the store, checks at the boundaries that return, and a bound on the pushes that still
  -- fail as transient, `_run_subtask_set` ends within the fuel and raises nothing. It has taken the
  -- subtasks in turn. It returns None after every one was DONE already or succeeded at its turn, with
  -- the task still in the store; it returns BLOCKED after the attempts at one failed, with the rows of
  -- `_block_subtask_set` and the task in a state that is not active; and else it passes on an outcome of
  -- the checks at a boundary. The agents, the container and the commits may do anything.
  pub run_subtask_set-Finishes :
      (fuel : ℕ) (subtasks : List Subtask) (w : Worker W)
      → fuel_needed cfg (pushes w.world) < fuel
      → AreChecked o out m cfg task_id pushes b
      → HasTask task_id w.store
      → Finishes
          (Turns o out m cfg task_id pushes b subtasks subtasks w)
          (pushes w.world)
          (run_subtask_set o out m cfg task_id fuel subtasks w)
  unfolding run_subtask_set
  run_subtask_set-Finishes fuel subtasks w enough checked here =
      run_subtasks-Finishes fuel (pushes w.world) subtasks subtasks w enough checked
        (omega arith, here)
