-- ===== src/Store/Orphans.antt =====
-- Orphan recovery leaves no task in an active state.
use quikode.Prelude.{
  Bool, Option, none, true, false, some, List, [], ◌∷◌, ◌++◌, Text, ◌==◌, ==_iff, ==-true, ==_refl,
  append_assoc, ok, ◌≡◌, refl, ◌⊎◌, inl, inr, arith, ◌∙◌, Bool-cases, All, ◌≢◌, ap, sym,
}
use quikode.Fsm.Table.{State}
use quikode.Fsm.Rules.{is_active}
use quikode.Fsm.Recovery.{recover_after_crash-is_settled}
use quikode.Store.Rows.{TaskRow, Store}
use quikode.Store.Tasks.{
  select, recover_row, has_pr_number, recovery_note, recovery_fields, recover_rows,
  recover_orphan_tasks,
}
use quikode.Store.Fire.{IsAt, Arrives, transition-Arrives, SameOthers}

-- The task `j` has a row, so its recovery raises nothing.
abbrev HasRow : Store → Text → Type 0
HasRow s j = (x : TaskRow) × (select j s.tasks ≡ some x)

recover_row-Arrives :
    (row : TaskRow) (s : Store)
    → HasRow s row.id
    → (t : State) × (is_active t ≡ false)
      × Arrives row.id t s (ok (row.id, row.state, t)) (recover_row row s)
unfolding recover_row
recover_row-Arrives row s (x, found) =
    let (t, updates, runs, idle, again, where_to) =
      recover_after_crash-is_settled row.state (has_pr_number row.pr_number) true in
    let a =
      transition-Arrives row.id (recovery_note row) (recovery_fields updates) s t
        (record { row = x; found = found; state = refl }) in
    (
      t,
      idle,
      record {
        after = a.after;
        returns = ground (arith, runs, a.returns);
        at = a.at;
        others = a.others;
      },
    )

-- The task has a row in an active state.
abbrev row_is_active : Option TaskRow → Bool
row_is_active none = false
row_is_active (some r) = is_active r.state

abbrev pub is_active_at : Text → Store → Bool
is_active_at j s = row_is_active (select j s.tasks)

-- A list of rows holds none of the task `j` that is active.
abbrev NoneActive : Text → List TaskRow → Type 0
NoneActive j rows = All (λ r. r.id ≡ j → is_active r.state ≡ false) rows

-- The loop ends without an exception; a task is idle after it, or is as it was and was not met.
record Recovers (rows : List TaskRow) (s : Store) : Type 0 where
  recovered : List (Text × State × State)
  after : Store
  returns : recover_rows rows s ≡ (ok recovered, after)
  each :
      (j : Text)
      → (is_active_at j after ≡ false)
        ⊎ (select j after.tasks ≡ select j s.tasks) × NoneActive j rows

IsAt-idle :
    (i j : Text) (t : State) (s : Store)
    → IsAt i t s
    → i ≡ j
    → is_active t ≡ false
    → is_active_at j s ≡ false
IsAt-idle i j t s at e idle = ground arith

HasRow-keeps :
    (i j : Text) (t : State) (s s' : Store)
    → IsAt i t s'
    → SameOthers i s s'
    → HasRow s j
    → HasRow s' j
HasRow-keeps i j t s s' at others (x, found) = elim (Bool-cases (i == j)) [
  | inl same ↦ (at.row, rw (← ==-true i j same) at.found)
  | inr other ↦ (x, ground (arith, others j, ==_iff i j, other, found))
]

All-HasRow-keeps :
    (i : Text) (t : State) (s s' : Store) (rows : List TaskRow)
    → IsAt i t s'
    → SameOthers i s s'
    → All (λ r. HasRow s r.id) rows
    → All (λ r. HasRow s' r.id) rows
All-HasRow-keeps i t s s' [] at others h = tt
All-HasRow-keeps i t s s' (r ∷ rows) at others (h, hs) =
    (HasRow-keeps i r.id t s s' at others h, All-HasRow-keeps i t s s' rows at others hs)

recover_rows-Recovers :
    (rows : List TaskRow) (s : Store) → All (λ r. HasRow s r.id) rows → Recovers rows s
unfolding recover_rows
recover_rows-Recovers [] s h = record {
  recovered = [];
  after = s;
  returns = refl;
  each = λ j. inr (refl, tt);
}
recover_rows-Recovers (row ∷ rows) s (h, hs) = elim (Bool-cases (is_active row.state)) [
  | inr idle ↦
      let rest = recover_rows-Recovers rows s hs in
      record {
        recovered = rest.recovered;
        after = rest.after;
        returns = rw (idle, recover_rows) rest.returns;
        each = λ j. elim (rest.each j) [
          | inl settled ↦ inl settled
          | inr (same, none_active) ↦ inr (same, (λ e. idle, none_active))
        ];
      }
  | inl active ↦
      let (t, idle, a) = recover_row-Arrives row s h in
      let rest =
        recover_rows-Recovers rows a.after
          (All-HasRow-keeps row.id t s a.after rows a.at a.others hs) in
      record {
        recovered = (row.id, row.state, t) ∷ rest.recovered;
        after = rest.after;
        returns = ground (arith, a.returns, rest.returns);
        each = λ j. elim (rest.each j) [
          | inl settled ↦ inl settled
          | inr (same, none_active) ↦ elim (Bool-cases (row.id == j)) [
            | inl met ↦ inl (
                ap row_is_active same
                ∙ IsAt-idle row.id j t a.after a.at (==-true row.id j met) idle)
            | inr other ↦
                let apart : row.id ≢ j = λ e. ground (arith, ==_iff row.id j) in
                inr (ground (arith, same, a.others j, apart), (λ e. absurd (apart e), none_active))
          ]
        ];
      }
]

-- A row of the table is found under its key.
select-found :
    (row : TaskRow) (before rows : List TaskRow)
    → (x : TaskRow) × (select row.id (before ++ row ∷ rows) ≡ some x)
unfolding select
select-found row [] rows = (row, rw (==_refl row.id))
select-found row (b ∷ before) rows = elim (Bool-cases (b.id == row.id)) [
  | inl same ↦ (b, rw same)
  | inr other ↦ let (x, found) = select-found row before rows in (x, rw other found)
]

All-HasRow :
    (before rows : List TaskRow) (s : Store)
    → s.tasks ≡ before ++ rows
    → All (λ r. HasRow s r.id) rows
All-HasRow before [] s e = tt
All-HasRow before (r ∷ rows) s e =
    let (x, found) = select-found r before rows in
    (
      (x, ap (select r.id) e ∙ found),
      All-HasRow (before ++ r ∷ []) rows s (e ∙ sym (append_assoc before (r ∷ []) rows)),
    )

NoneActive-select :
    (j : Text) (rows : List TaskRow) → NoneActive j rows → row_is_active (select j rows) ≡ false
unfolding select
NoneActive-select j [] none_active = refl
NoneActive-select j (x ∷ rows) (first, later) = elim (Bool-cases (x.id == j)) [
  | inl same ↦ rw same (first (==-true x.id j same))
  | inr other ↦ rw (other, select) (NoneActive-select j rows later)
]

-- Orphan recovery raises nothing, and after it no task is in an active state.
pub recover_orphan_tasks-is_settled :
    (s : Store)
    → (recovered : List (Text × State × State)) × (after : Store) × (recover_orphan_tasks s
        ≡ (ok recovered, after))
      × ((j : Text) → is_active_at j after ≡ false)
unfolding recover_orphan_tasks
recover_orphan_tasks-is_settled s =
    let all = recover_rows-Recovers s.tasks s (All-HasRow [] s.tasks s refl) in
    (
      all.recovered,
      all.after,
      all.returns,
      λ j. elim (all.each j) [
        | inl idle ↦ idle
        | inr (same, none_active) ↦ ap row_is_active same ∙ NoneActive-select j s.tasks none_active
      ],
    )
