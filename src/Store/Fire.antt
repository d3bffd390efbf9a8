-- ===== src/Store/Fire.antt =====
-- One event, seen from outside: the task's state moves along the table and no other task changes.
use quikode.Prelude.{◌⊎◌, Option, some, Text, ==_iff, ok, ◌≡◌, ◌∙◌, arith, List, ap}
use quikode.Fsm.Table.{State, Event}
use quikode.Fsm.Rules.{transitions, enum}
use quikode.Store.Rows.{TaskRow, Field, Store}
use quikode.Store.Tasks.{select, moved_row, transition, apply_event, or_event}
use quikode.Store.Lookup.{select-transition, moved_row-state, apply_event-moves}

-- The task has a row, in this state.
pub record IsAt (i : Text) (t : State) (s : Store) : Type 0 where
  pub row : TaskRow
  pub found : select i s.tasks ≡ some row
  pub state : row.state ≡ t

-- The rows of the other tasks are the same in both stores.
abbrev pub SameOthers : Text → Store → Store → Type 0
SameOthers i s s' = (j : Text) → (i ≡ j) ⊎ (select j s'.tasks ≡ select j s.tasks)

pub SameOthers-trans :
    (i : Text) (s s' s'' : Store) → SameOthers i s s' → SameOthers i s' s'' → SameOthers i s s''
SameOthers-trans i s s' s'' f g j = ground (arith, f j, g j)

-- The outcome of an action that leaves the task in the state `u`.
pub record Arrives {R : Type 0} (i : Text) (u : State) (s : Store) (result : R) (out : R × Store)
    : Type 0 where
  pub after : Store
  pub returns : out ≡ (result, after)
  pub at : IsAt i u after
  pub others : SameOthers i s after

module _ (i : Text) (message : Option Text) (fields : List Field) (s : Store) where
  pub transition-Arrives :
      {t : State} (u : State) → IsAt i t s → Arrives i u s (ok tt) (transition i u message fields s)
  transition-Arrives u a =
      let after = (transition i u message fields s).1 in
      let moved = λ (j : Text). select-transition i j u message fields s a.found in
      record {
        after = after;
        returns = ground (arith, moved i);
        at = record {
          row = moved_row u fields a.row;
          found = ground (arith, moved i, ==_iff i i);
          state = moved_row-state u fields a.row;
        };
        others = λ j. ground (arith, moved j, ==_iff i j);
      }

  pub apply_event-Arrives :
      {t : State} (e : Event) (u : State)
      → IsAt i t s
      → transitions t e ≡ some u
      → Arrives i u s (ok u) (apply_event i (enum e) message fields s)
  apply_event-Arrives e u a m =
      let after = (transition i u (or_event message (enum e)) fields s).1 in
      let moved =
        λ (j : Text). select-transition i j u (or_event message (enum e)) fields s a.found in
      record {
        after = after;
        returns =
            apply_event-moves i e message fields s a.found (ap (λ x. transitions x e) a.state ∙ m);
        at = record {
          row = moved_row u fields a.row;
          found = ground (arith, moved i, ==_iff i i);
          state = moved_row-state u fields a.row;
        };
        others = λ j. ground (arith, moved j, ==_iff i j);
      }
