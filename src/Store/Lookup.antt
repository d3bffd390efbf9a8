-- ===== src/Store/Lookup.antt =====
-- What a row holds after each statement on the tasks table.
use quikode.Prelude.{
  Option, none, some, List, [], ◌∷◌, ◌++◌, Text, ◌==◌, ==_iff, ok, raise, if◌then◌else◌, foldl, ◌≡◌,
  refl, ◌∙◌, arith,
}
use quikode.Fsm.Table.{State, Event}
use quikode.Fsm.Rules.{transitions, enum, invalid_transition, not_valid}
use quikode.Fsm.Recovery.{target_for_event-text}
use quikode.Store.Rows.{TaskRow, Field, write_field, Store}
use quikode.Store.Tasks.{select, update_rows, moved_row, transition, apply_event, or_event}

abbrev pub map_row : (TaskRow → TaskRow) → Option TaskRow → Option TaskRow
map_row f none = none
map_row f (some r) = some (f r)

pub select-id : (i : Text) (rows : List TaskRow) (r : TaskRow) → select i rows ≡ some r → r.id ≡ i
unfolding select
select-id i [] r h = cc
select-id i (x ∷ rows) r h = ground (arith, ==_iff x.id i, select-id i rows r)

-- An UPDATE that keeps the key changes the selected row, and no other.
pub select-update_rows :
    (i j : Text) (f : TaskRow → TaskRow) (rows : List TaskRow)
    → ((r : TaskRow) → (f r).id ≡ r.id)
    → select j (update_rows i f rows)
      ≡ (if i == j then map_row f (select j rows) else select j rows)
unfolding select update_rows
select-update_rows i j f [] keeps = ground arith
select-update_rows i j f (r ∷ rows) keeps =
    ground (
      arith,
      keeps r,
      ==_iff r.id i,
      ==_iff r.id j,
      ==_iff i j,
      select-update_rows i j f rows keeps,
    )

-- An INSERT of a new key is found under it.
pub select-insert :
    (j : Text) (row : TaskRow) (rows : List TaskRow)
    → select row.id rows ≡ none
    → select j (rows ++ row ∷ []) ≡ (if row.id == j then some row else select j rows)
unfolding select
select-insert j row [] absent = refl
select-insert j row (r ∷ rows) absent =
    ground (arith, ==_iff r.id row.id, ==_iff r.id j, ==_iff row.id j, select-insert j row rows)

write_field-keeps :
    (r : TaskRow) (f : Field) → ((write_field r f).id ≡ r.id) × ((write_field r f).state ≡ r.state)
unfolding write_field
write_field-keeps r f = ground arith

write_fields-keeps :
    (fields : List Field) (r : TaskRow)
    → ((foldl write_field r fields).id ≡ r.id) × ((foldl write_field r fields).state ≡ r.state)
write_fields-keeps [] r = (refl, refl)
write_fields-keeps (f ∷ fields) r =
    let (id, state) = write_fields-keeps fields (write_field r f) in
    let (id', state') = write_field-keeps r f in (id ∙ id', state ∙ state')

-- A transition keeps the key and writes the new state, whatever its other fields are.
pub moved_row-id :
    (t : State) (fields : List Field) (r : TaskRow) → (moved_row t fields r).id ≡ r.id
unfolding moved_row
moved_row-id t fields r = (write_fields-keeps fields (record r { state = t })).0

pub moved_row-state :
    (t : State) (fields : List Field) (r : TaskRow) → (moved_row t fields r).state ≡ t
unfolding moved_row
moved_row-state t fields r = (write_fields-keeps fields (record r { state = t })).1

pub select-transition :
    (i j : Text) (t : State) (message : Option Text) (fields : List Field) (s : Store) {r : TaskRow}
    → select i s.tasks ≡ some r
    → ((transition i t message fields s).0 ≡ ok tt)
      × (select j (transition i t message fields s).1.tasks
          ≡ (if i == j then some (moved_row t fields r) else select j s.tasks))
unfolding transition
select-transition i j t message fields s {r} h =
    ground (
      arith,
      ==_iff i j,
      select-update_rows i j (moved_row t fields) s.tasks (moved_row-id t fields),
    )

-- An event that the table allows is a transition to its target.
pub apply_event-moves :
    (i : Text) (e : Event) (message : Option Text) (fields : List Field) (s : Store) {r : TaskRow}
    {t : State}
    → select i s.tasks ≡ some r
    → transitions r.state e ≡ some t
    → apply_event i (enum e) message fields s
      ≡ (ok t, (transition i t (or_event message (enum e)) fields s).1)
unfolding apply_event
apply_event-moves i e message fields s {r} {t} h m = ground (
  arith,
  target_for_event-text r.state e,
  select-transition i i t (or_event message (enum e)) fields s h,
)

-- An event that the table does not list raises InvalidTransition, and the store is unchanged.
pub apply_event-refuses :
    (i : Text) (e : Event) (message : Option Text) (fields : List Field) (s : Store) {r : TaskRow}
    → select i s.tasks ≡ some r
    → transitions r.state e ≡ none
    → apply_event i (enum e) message fields s
      ≡ (raise (invalid_transition (not_valid r.state e)), s)
unfolding apply_event
apply_event-refuses i e message fields s {r} h m = ground (arith, target_for_event-text r.state e)
