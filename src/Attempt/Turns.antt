-- ===== src/Attempt/Turns.antt =====
-- The turns that the subtasks of a set take, as relations between the workers before and after.
use quikode.Prelude.{ℕ, Bool, true, false, Option, none, some, List, [], ◌∷◌, Text, ok, ◌≡◌}
use quikode.Fsm.Table.{State, blocked}
use quikode.Fsm.Rules.{is_active}
use quikode.Store.Fire.{IsAt}
use quikode.Subtasks.Table.{SubtaskRow, is_done, get_subtask}
use quikode.Plan.Schema.{Subtask}
use quikode.Attempt.Classify.{Matcher}
use quikode.Attempt.Storms.{Block}
use quikode.Attempt.State.{World, Settings, Worker}
use quikode.Attempt.Sets.{Outside, first_round, repaired, block_subtask_set}
use quikode.Attempt.Steps.{Returns, IsBounded, Fine}
use quikode.Attempt.Ends.{Outcome}

module _ {W : Type 0} (o : World W) (out : Outside W) (m : Matcher) (cfg : Settings)
    (task_id : Text) (pushes : W → ℕ) (b : IsBounded o pushes) where
  -- The checks at a boundary return, keep the task in the store and add no push that will fail.
  abbrev pub AreChecked : Type 0
  AreChecked =
      (id : Text) (n : ℕ) (w : Worker W)
      → Fine pushes task_id n w
      → Returns (λ r. Fine pushes task_id n) (out.boundary_checks id w)

  -- A subtask was DONE, or its attempts ended with an outcome; they start from the row that was there,
  -- which is repaired first if it was SKIPPED.
  pub data Tried : Subtask → Worker W → Bool → Option Block → Worker W → Type 0 where
    was_done :
        (subtask : Subtask) (w : Worker W) (r : SubtaskRow)
        → get_subtask task_id subtask.id w.subtasks ≡ some r
        → is_done r.state ≡ true
        → Tried subtask w true none w
    first_tried :
        (subtask : Subtask) (before w : Worker W) (success : Bool) (block : Option Block)
        → get_subtask task_id subtask.id before.subtasks ≡ none
        → Outcome o m cfg task_id subtask pushes b (first_round none) before success block w
        → Tried subtask before success block w
    tried_again :
        (subtask : Subtask) (before w : Worker W) (r : SubtaskRow) (success : Bool)
        (block : Option Block)
        → get_subtask task_id subtask.id before.subtasks ≡ some r
        → is_done r.state ≡ false
        → Outcome o m cfg task_id subtask pushes b
            (first_round (some r))
            (repaired o out m cfg task_id subtask.id r before)
            success
            block
            w
        → Tried subtask before success block w

  -- The turn of a subtask: the checks at its boundary end it, or it is DONE, or it is given up, which
  -- blocks the set and leaves the task in a state that is not active.
  pub data Turn (subtasks : List Subtask)
      : Subtask → Worker W → Option State → Worker W → Type 0 where
    at_boundary :
        (subtask : Subtask) (final : State) (before w : Worker W)
        → out.boundary_checks subtask.id before ≡ (ok (some final), w)
        → Turn subtasks subtask before (some final) w
    settled :
        (subtask : Subtask) (before checked w : Worker W) (block : Option Block)
        → out.boundary_checks subtask.id before ≡ (ok none, checked)
        → Tried subtask checked true block w
        → Turn subtasks subtask before none w
    given_up :
        (subtask : Subtask) (before checked failed w : Worker W) (block : Option Block) (t : State)
        → out.boundary_checks subtask.id before ≡ (ok none, checked)
        → Tried subtask checked false block failed
        → block_subtask_set o out m cfg task_id subtask subtasks block failed
          ≡ (ok (some blocked), w)
        → IsAt task_id t w.store
        → is_active t ≡ false
        → Turn subtasks subtask before (some blocked) w

  -- The turns of the subtasks that are left, up to the first outcome.
  pub data Turns (subtasks : List Subtask)
      : List Subtask → Worker W → Option State → Worker W → Type 0 where
    at_the_end : (w : Worker W) → Turns subtasks [] w none w
    stops :
        (subtask : Subtask) (left : List Subtask) (final : State) (before w : Worker W)
        → Turn subtasks subtask before (some final) w
        → Turns subtasks (subtask ∷ left) before (some final) w
    goes_on :
        (subtask : Subtask) (left : List Subtask) (outcome : Option State)
        (before w last : Worker W)
        → Turn subtasks subtask before none w
        → Turns subtasks left w outcome last
        → Turns subtasks (subtask ∷ left) before outcome last
