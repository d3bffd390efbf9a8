-- ===== src/Attempt/Rounds.antt =====
-- One round of the attempts: it never raises, and gets closer to the end.
use quikode.Prelude.{ℕ, inl, inr, Option, none, some, List, [], ◌∷◌, Text, arith, Bool-cases, ◌==◌}
use quikode.Fsm.Table.{State}
use quikode.Runtime.Helpers.{Helper, enter_doing_subtask, enter_checking_subtask}
use quikode.Runtime.Safety.{HasValidEvent}
use quikode.Plan.Schema.{Subtask}
use quikode.Attempt.Classify.{Matcher}
use quikode.Attempt.State.{World, Settings, Worker, Witness, enter}
use quikode.Attempt.Check.{
  CheckerOutcome, check_subtask, check_diff, run_subtask_check_command, run_llm_subtask_checker,
  check_command,
}
use quikode.Attempt.Loop
use quikode.Attempt.Loop.{Round, Next, finish, again, PassOutcome, settled, transient_retry, failed}
use quikode.Attempt.Steps.{
  Returns, returned, Returns-bind, Returns-map, IsBounded, Fine, enter-Fine,
}

module _ {W : Type 0} (o : World W) (m : Matcher) (cfg : Settings) (task_id : Text)
    (subtask : Subtask) (pushes : W → ℕ) (b : IsBounded o pushes) where
  pub enter-Fine_alone :
      (h : Helper) (message : Option Text) (n : ℕ) (w : Worker W)
      → ((t : State) → HasValidEvent h t)
      → Fine pushes task_id n w
      → Returns (λ r. Fine pushes task_id n) (enter h task_id message w)
  enter-Fine_alone h message n w valid f =
      Returns-map _ (enter-Fine pushes task_id h message n w valid f) (λ r w' p. p.0)

  pub do_subtask-Fine :
      (attempt : ℕ) (notes : Option Text) (n : ℕ) (w : Worker W)
      → Fine pushes task_id n w
      → Returns
          (λ r. Fine pushes task_id n)
          (Loop.do_subtask o m cfg task_id subtask attempt notes w)
  unfolding Loop.do_subtask
  do_subtask-Fine attempt notes n w f =
      Returns-bind _ _ (enter-Fine_alone enter_doing_subtask _ n w (λ t. tt) f)
        (λ r w' g. returned _ _ (let below = b.run_doer attempt notes w'.world in omega arith, g.1))

  run_subtask_check_command-Fine :
      (n : ℕ) (w : Worker W)
      → Fine pushes task_id n w
      → Returns (λ r. Fine pushes task_id n) (run_subtask_check_command o cfg task_id subtask w)
  unfolding run_subtask_check_command
  run_subtask_check_command-Fine n w f = elim (Bool-cases (check_command cfg subtask == [])) [
    | inl e ↦ rw e (returned _ _ f)
    | inr e ↦ rw e (
        returned _ _
          (let below = b.exec_check (check_command cfg subtask) w.world in omega arith, f.1))
  ]

  check_diff-Fine :
      (objective : Option CheckerOutcome) (diff : Text) (results : List Witness) (n : ℕ)
      (w : Worker W)
      → Fine pushes task_id n w
      → Returns
          (λ r. Fine pushes task_id n)
          (check_diff o cfg task_id subtask objective diff results w)
  unfolding check_diff run_llm_subtask_checker
  check_diff-Fine (some outcome) diff results n w f = returned _ _ f
  check_diff-Fine none [] results n w f = returned _ _ f
  check_diff-Fine none (c ∷ diff) results n w f =
      returned _ _ (let below = b.checker_agent w.world in omega arith, f.1)

  pub check_subtask-Fine :
      (n : ℕ) (w : Worker W)
      → Fine pushes task_id n w
      → Returns (λ r. Fine pushes task_id n) (check_subtask o cfg task_id subtask w)
  unfolding check_subtask
  check_subtask-Fine n w f =
      Returns-bind _ _ (enter-Fine_alone enter_checking_subtask _ n w (λ t. tt) f) (λ r w' g.
        Returns-bind _ _ (run_subtask_check_command-Fine n _ g)
          (λ objective w'' h. check_diff-Fine objective _ _ n w'' h))
