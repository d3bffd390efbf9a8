-- ===== src/Attempt/Steps.antt =====
-- What the steps of an attempt may rely on: the task stays in the store, and the pushes that will
-- still fail for a while do not grow.
use quikode.Prelude.{
  ℕ, ◌≤◌, ◌<◌, true, false, Option, none, some, [], Text, Result, ok, ◌≡◌, refl, inl, inr, All,
}
use quikode.Fsm.Table.{State}
use quikode.Fsm.Rules.{Failure}
use quikode.Store.Rows.{Store}
use quikode.Store.Fire.{IsAt}
use quikode.Runtime.Helpers.{Helper, call}
use quikode.Runtime.Safety.{call-is_safe, HasValidEvent}
use quikode.Subtasks.Table.{SubtaskRow, Table, has_key}
use quikode.Attempt.State.{World, Worker, Work, work_then, enter}

abbrev pub HasTask : Text → Store → Type 0
HasTask task_id s = (t : State) × IsAt task_id t s

-- A step returned a value with the property; it did not raise.
pub data Returns {W A : Type 0} (P : A → Worker W → Type 0)
    : Result Failure A × Worker W → Type 0 where
  returned : (value : A) (w : Worker W) → P value w → Returns P (ok value, w)

pub Returns-bind :
    {W A B : Type 0} {P : A → Worker W → Type 0} {Q : B → Worker W → Type 0}
    (out : Result Failure A × Worker W) (rest : A → Work W B)
    → Returns P out
    → ((value : A) (w : Worker W) → P value w → Returns Q (rest value w))
    → Returns Q (work_then out.0 rest out.1)
Returns-bind out rest (returned value w p) then_ = then_ value w p

-- A weaker property.
pub Returns-map :
    {W A : Type 0} {P Q : A → Worker W → Type 0} (out : Result Failure A × Worker W)
    → Returns P out
    → ((value : A) (w : Worker W) → P value w → Q value w)
    → Returns Q out
Returns-map out (returned value w p) weaker = returned value w (weaker value w p)

-- `pushes` counts the pushes that are still to fail as transient: nothing adds to them, and such a
-- push uses one up.
pub record IsBounded {W : Type 0} (o : World W) (pushes : W → ℕ) : Type 0 where
  pub ensure_running : (w : W) → pushes (o.ensure_running w).1 ≤ pushes w
  pub run_doer : (n : ℕ) (t : Option Text) (w : W) → pushes (o.run_doer n t w) ≤ pushes w
  pub exec_check : (t : Text) (w : W) → pushes (o.exec_check t w).1 ≤ pushes w
  pub checker_agent : (w : W) → pushes (o.checker_agent w).1 ≤ pushes w
  pub pre_commit_gate : (w : W) → pushes (o.pre_commit_gate w).1 ≤ pushes w
  pub commit_subtask : (w : W) → pushes (o.commit_subtask w).1 ≤ pushes w
  pub triage_agent : (t : Text) (w : W) → pushes (o.triage_agent t w).1 ≤ pushes w
  pub progress_check : (n : ℕ) (w : W) → pushes (o.progress_check n w).1 ≤ pushes w
  pub sleep : (n : ℕ) (w : W) → pushes (o.sleep n w) ≤ pushes w
  pub transient_push :
      (w : W)
      → (o.commit_subtask w).0.success ≡ false
      → (o.commit_subtask w).0.transient ≡ true
      → pushes (o.commit_subtask w).1 < pushes w

module _ {W : Type 0} (pushes : W → ℕ) (task_id : Text) where
  -- At most `n` pushes are still to fail, and the task is there.
  abbrev pub Fine : ℕ → Worker W → Type 0
  Fine n w = (pushes w.world ≤ n) × HasTask task_id w.store

  pub call-HasTask :
      (h : Helper) (message : Option Text) (s : Store)
      → ((t : State) → HasValidEvent h t)
      → HasTask task_id s
      → (r : Option State) × (s' : Store) × (call h task_id message [] s ≡ (ok r, s'))
        × HasTask task_id s'
  call-HasTask h message s valid (t, at) = elim (call-is_safe h task_id message [] s at (valid t)) [
    | inl skipped ↦ (none, s, skipped, (t, at))
    | inr (u, reached, a) ↦ (some u, a.after, a.returns, (u, a.at))
  ]

  -- A helper leaves the world and the subtasks as they are.
  pub enter-Fine :
      (h : Helper) (message : Option Text) (n : ℕ) (w : Worker W)
      → ((t : State) → HasValidEvent h t)
      → Fine n w
      → Returns (λ r w'. Fine n w' × (w'.subtasks ≡ w.subtasks)) (enter h task_id message w)
  unfolding enter
  enter-Fine h message n w valid (below, here) =
      let (r, s', e, here') = call-HasTask h message w.store valid here in
      rw e (returned r (record w { store = s' }) ((below, here'), refl))

-- The row of the subtask is DONE.
abbrev pub Holds : (SubtaskRow → Type 0) → Text → Text → Table → Type 0
Holds P task_id subtask_id t = All (λ r. has_key task_id subtask_id r ≡ true → P r) t
