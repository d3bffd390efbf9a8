-- ===== src/Subtasks/Replan.antt =====
-- A planning cycle that is deleted leaves the table as it was before the cycle was appended.
use quikode.Prelude.{
  ℕ, suc, ◌≤◌, Bool, true, false, not, Option, none, some, List, [], ◌∷◌, ◌++◌, Text, ==_refl, map,
  keep, all, elem, IsUnique, length, ok, append-nil, ◌≡◌, refl, ap, arith, inl, inr,
}
use quikode.Subtasks.Table.{
  SubtaskRow, Table, Planned, planned_row, max_cycle, append_subtasks, new_planned, existing_ids,
}
use quikode.Subtasks.Cycles.{in_cycle, subtasks_in_cycle, delete_subtasks_in_cycle}
use quikode.Subtasks.Append.{planned_ids, append_subtasks-outcome}

keep-append : (q : SubtaskRow → Bool) (t u : Table) → keep q (t ++ u) ≡ keep q t ++ keep q u
keep-append q [] u = refl
keep-append q (r ∷ t) u = ground (arith, keep-append q t u)

-- No row of the task is in a cycle past the greatest.
keep-old :
    (task_id : Text) (cycle : ℕ) (t : Table)
    → max_cycle task_id t ≤ cycle
    → (keep (in_cycle task_id (suc cycle)) t ≡ [])
      × (keep (λ r. not (in_cycle task_id (suc cycle) r)) t ≡ t)
unfolding max_cycle
keep-old task_id cycle [] h = (refl, refl)
keep-old task_id cycle (r ∷ t) h = ground (arith, h, keep-old task_id cycle t)

abbrev no_cycle : Option ℕ → Bool
no_cycle none = true
no_cycle (some c) = false

-- The planned subtasks name no cycle of their own.
abbrev pub has_no_cycles : List Planned → Bool
has_no_cycles ps = all (λ p. no_cycle p.planning_cycle) ps

keep-new :
    (task_id : Text) (cycle : ℕ) (kind : Text) (ps : List Planned)
    → has_no_cycles ps ≡ true
    → (keep (in_cycle task_id cycle) (map (planned_row task_id cycle kind) ps)
        ≡ map (planned_row task_id cycle kind) ps)
      × (keep (λ r. not (in_cycle task_id cycle r)) (map (planned_row task_id cycle kind) ps) ≡ [])
unfolding planned_row
keep-new task_id cycle kind [] h = (refl, refl)
keep-new task_id cycle kind (p ∷ ps) h =
    ground (arith, h, ==_refl task_id, keep-new task_id cycle kind ps)

no_cycles-keep :
    (q : Planned → Bool) (ps : List Planned)
    → has_no_cycles ps ≡ true
    → has_no_cycles (keep q ps) ≡ true
no_cycles-keep q [] h = refl
no_cycles-keep q (p ∷ ps) h = ground (arith, h, no_cycles-keep q ps)

length-map : {A B : Type 0} (f : A → B) (xs : List A) → length (map f xs) ≡ length xs
length-map f [] = refl
length-map f (x ∷ xs) = ap suc (length-map f xs)

-- Let the planned subtasks whose ids the task does not have be distinct and name no cycle. Then
-- `append_subtasks` without a cycle returns; the rows of the cycle after the greatest one are exactly
-- the rows that it added; and deleting that cycle reports their number and gives back the table from
-- before the call.
pub append-delete_cycle :
    (task_id : Text) (planned : List Planned) (kind : Text) (t : Table)
    → has_no_cycles planned ≡ true
    → IsUnique (planned_ids (new_planned task_id planned t))
    → (t' : Table) × (append_subtasks task_id planned none kind t ≡ (ok tt, t'))
      × (subtasks_in_cycle task_id (suc (max_cycle task_id t)) t'
          ≡ map
              (planned_row task_id (suc (max_cycle task_id t)) kind)
              (new_planned task_id planned t))
      × (delete_subtasks_in_cycle task_id (suc (max_cycle task_id t)) t'
          ≡ (length (new_planned task_id planned t), t))
unfolding subtasks_in_cycle delete_subtasks_in_cycle
append-delete_cycle task_id planned kind t no_cycles unique =
    elim (append_subtasks-outcome task_id planned none kind t) [
      | inr (i, twice, e) ↦ absurd (omega (arith, twice, unique i))
      | inl (distinct, e) ↦
          let cycle = suc (max_cycle task_id t) in
          let fresh = new_planned task_id planned t in
          let added = map (planned_row task_id cycle kind) fresh in
          let old = keep-old task_id (max_cycle task_id t) t (omega arith) in
          let new = keep-new task_id cycle kind fresh (
            no_cycles-keep (λ p. not (elem p.subtask_id (existing_ids task_id t))) planned
              no_cycles) in
          let inside = keep-append (in_cycle task_id cycle) t added in
          let outside = keep-append (λ r. not (in_cycle task_id cycle r)) t added in
          (
            t ++ added,
            e,
            cc (inside, old.0, new.0),
            ground (
              arith,
              inside,
              outside,
              old,
              new,
              append-nil t,
              length-map (planned_row task_id cycle kind) fresh,
            ),
          )
    ]
