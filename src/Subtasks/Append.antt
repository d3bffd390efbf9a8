-- ===== src/Subtasks/Append.antt =====
-- What `append_subtasks` does: it adds exactly the subtasks that are new, or reports a repeated id.
use quikode.Prelude.{
  ℕ, ◌+◌, ◌≤◌, true, false, not, Option, List, [], ◌∷◌, ◌++◌, Text, ◌==◌, ==_iff, ==_refl, map,
  keep, any, elem, count, IsUnique, if◌then◌else◌, ok, raise, append_assoc, append-nil, ◌≡◌, refl,
  ap, sym, arith, ◌⊎◌, inl, inr, Bool-cases,
}
use quikode.Fsm.Rules.{integrity_error}
use quikode.Subtasks.Table.{
  SubtaskRow, Table, Planned, planned_row, has_key, insert_rows, append_subtasks, existing_ids,
  new_planned, effective_cycle, commit,
}
use quikode.Subtasks.Keys.{count_key, count_key-append, any-key}

abbrev pub planned_ids : List Planned → List Text
planned_ids ps = map (λ p. p.subtask_id) ps

module _ (task_id : Text) (cycle : ℕ) (kind : Text) where
  abbrev rows_of : List Planned → List SubtaskRow
  rows_of ps = map (planned_row task_id cycle kind) ps

  count_planned :
      (i : Text) (p : Planned)
      → count_key task_id i (planned_row task_id cycle kind p ∷ [])
        ≡ (if p.subtask_id == i then 1 else 0)
  unfolding planned_row
  count_planned i p = ground (arith, ==_refl task_id)

  -- The INSERTs go through, or one of the ids is there already or repeated.
  insert-outcome :
      (ps : List Planned) (t : Table)
      → ((insert_rows t (rows_of ps) ≡ ok (t ++ rows_of ps))
          × ((i : Text)
              → (count_key task_id i t + count i (planned_ids ps) ≤ 1)
                ⊎ (count i (planned_ids ps) ≡ 0)))
        ⊎ ((i : Text) × (insert_rows t (rows_of ps) ≡ raise (integrity_error i))
            × (elem i (planned_ids ps) ≡ true)
            × (2 ≤ count_key task_id i t + count i (planned_ids ps)))
  unfolding insert_rows planned_row
  insert-outcome [] t = inl (ap ok (sym (append-nil t)), λ i. inr refl)
  insert-outcome (p ∷ ps) t = elim (Bool-cases (any (has_key task_id p.subtask_id) t)) [
    | inl clash ↦ inr (
      p.subtask_id,
      rw clash refl,
      ground (arith, ==_refl p.subtask_id),
      ground (arith, ==_refl p.subtask_id, any-key task_id p.subtask_id t, clash),
    )
    | inr free ↦
        let row : SubtaskRow = planned_row task_id cycle kind p in
        let sums = λ (i : Text). count_key-append task_id i t (row ∷ []) in
        elim (insert-outcome ps (t ++ row ∷ [])) [
          | inl (e, alone) ↦ inl (
            rw (free, e) (ap ok (append_assoc t (row ∷ []) (rows_of ps))),
            λ i. ground (
              arith,
              alone i,
              sums i,
              count_planned i p,
              ==_iff p.subtask_id i,
              any-key task_id p.subtask_id t,
              free,
            ),
          )
          | inr (i, e, member, twice) ↦ inr (
            i,
            rw (free, e) refl,
            ground (arith, member),
            ground (arith, twice, sums i, count_planned i p),
          )
        ]
  ]

kept-new :
    (i : Text) (old : List Text) (ps : List Planned)
    → elem i (planned_ids (keep (λ p. not (elem p.subtask_id old)) ps)) ≡ true
    → elem i old ≡ false
kept-new i old [] h = cc
kept-new i old (p ∷ ps) h = ground (arith, ==_iff p.subtask_id i, kept-new i old ps, h)

absent-key :
    (task_id i : Text) (t : Table)
    → elem i (existing_ids task_id t) ≡ false
    → count_key task_id i t ≡ 0
absent-key task_id i [] h = refl
absent-key task_id i (r ∷ t) h = ground (arith, h, absent-key task_id i t)

-- `append_subtasks` either adds, behind the rows that are there, one row for each planned subtask
-- whose id the task does not have, which happens exactly when those ids are distinct; or one of those
-- ids stands in the list more than once, the constraint's error is raised, and the table is as before.
pub append_subtasks-outcome :
    (task_id : Text) (planned : List Planned) (cycle : Option ℕ) (kind : Text) (t : Table)
    → (IsUnique (planned_ids (new_planned task_id planned t))
        × (append_subtasks task_id planned cycle kind t ≡ (
          ok tt,
          t
              ++ map
                  (planned_row task_id (effective_cycle task_id cycle t) kind)
                  (new_planned task_id planned t),
        )))
      ⊎ ((i : Text) × (2 ≤ count i (planned_ids (new_planned task_id planned t)))
          × (append_subtasks task_id planned cycle kind t ≡ (raise (integrity_error i), t)))
unfolding append_subtasks
append_subtasks-outcome task_id planned cycle kind t =
    let fresh = new_planned task_id planned t in
    elim (insert-outcome task_id (effective_cycle task_id cycle t) kind fresh t) [
      | inl (e, alone) ↦ inl (λ i. ground (arith, alone i), ap (commit t) e)
      | inr (i, e, member, twice) ↦ inr (
        i,
        omega (
          arith,
          twice,
          absent-key task_id i t (kept-new i (existing_ids task_id t) planned member),
        ),
        ap (commit t) e,
      )
    ]
