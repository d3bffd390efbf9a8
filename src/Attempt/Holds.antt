-- ===== src/Attempt/Holds.antt =====
-- A subtask that is given up: what is written to the rows of its set, and to the task.
use quikode.Prelude.{
  Bool, false, not, ◌&&◌, ◌||◌, Option, none, some, inl, inr, List, [], ◌∷◌, Text, ◌==◌, map, elem,
  if◌then◌else◌, ◌≡◌, refl, ◌∙◌, sym, arith, Bool-cases, ok, ==_iff,
}
use quikode.Fsm.Table.{State, blocked}
use quikode.Fsm.Rules.{is_active}
use quikode.Store.Rows.{Store, Field, set_last_error}
use quikode.Store.Fire.{IsAt}
use quikode.Subtasks.Cycles.{take_text}
use quikode.Runtime.Blocking.{block_current-settles}
use quikode.Subtasks.Table.{SubtaskRow, Table, has_key, get_subtask, update_subtask}
use quikode.Subtasks.Keys.{count_key, IsKeyed, map-IsKeyed}
use quikode.Plan.Schema.{Subtask, subtask_ids}
use quikode.Attempt.Storms.{Block}
use quikode.Attempt.Classify.{Matcher}
use quikode.Attempt.State.{World, Settings, Worker, block_task}
use quikode.Attempt.Sets.{
  Outside, reason_text, is_pending, set_pending, set_blocked, hold_pending_if, hold_pending,
  mark_remaining_pending_after_block, block_subtask_set, blocked_note, mark_subtask_blocked,
}

-- The ids behind the first `after` in a list, without `after` itself.
abbrev pub later : Text → Bool → List Text → List Text
later after seen [] = []
later after seen (id ∷ ids) =
    let rest = later after (seen || id == after) ids in
    if seen && not (id == after) then id ∷ rest else rest

-- A row that was PENDING, of one of the ids, says what it waits for.
abbrev pub held : Text → Text → List Text → SubtaskRow → SubtaskRow
held task_id after ids r =
    if r.task_id == task_id && elem r.subtask_id ids && is_pending r.state
    then set_pending after r
    else r

map-same : (f : SubtaskRow → SubtaskRow) (t : Table) → ((r : SubtaskRow) → f r ≡ r) → map f t ≡ t
map-same f [] same = refl
map-same f (r ∷ t) same = cc (same r, map-same f t same)

map-map_as :
    (f g h : SubtaskRow → SubtaskRow) (t : Table)
    → ((r : SubtaskRow) → f (g r) ≡ h r)
    → map f (map g t) ≡ map h t
map-map_as f g h [] same = refl
map-map_as f g h (r ∷ t) same = cc (same r, map-map_as f g h t same)

update-absent :
    (task_id id : Text) (f : SubtaskRow → SubtaskRow) (t : Table)
    → count_key task_id id t ≡ 0
    → update_subtask task_id id f t ≡ t
unfolding update_subtask
update-absent task_id id f [] h = refl
update-absent task_id id f (r ∷ t) h = ground (arith, update-absent task_id id f t)

held-absent :
    (task_id after id : Text) (t : Table)
    → count_key task_id id t ≡ 0
    → map (held task_id after (id ∷ [])) t ≡ t
held-absent task_id after id [] h = refl
held-absent task_id after id (r ∷ t) h =
    ground (arith, held-absent task_id after id t, ==_iff r.subtask_id id, ==_iff id r.subtask_id)

held-one :
    (task_id after id : Text) (r : SubtaskRow)
    → held task_id after (id ∷ []) r ≡ (
        if has_key task_id id r then (if is_pending r.state then set_pending after r else r) else r)
held-one task_id after id r = ground (arith, ==_iff r.subtask_id id, ==_iff id r.subtask_id)

hold-other :
    (task_id after id : Text) (r : SubtaskRow) (t : Table) (x : Option SubtaskRow)
    → has_key task_id id r ≡ false
    → hold_pending_if task_id after id (r ∷ t) x ≡ r ∷ hold_pending_if task_id after id t x
unfolding update_subtask
hold-other task_id after id r t none other = refl
hold-other task_id after id r t (some x) other = ground (arith, other)

-- The row that `get_subtask` finds is the only one of its key.
hold_pending-held :
    (task_id after id : Text) (t : Table)
    → IsKeyed t
    → hold_pending task_id after id t ≡ map (held task_id after (id ∷ [])) t
unfolding hold_pending get_subtask update_subtask
hold_pending-held task_id after id [] keyed = refl
hold_pending-held task_id after id (r ∷ t) keyed = elim (Bool-cases (has_key task_id id r)) [
  | inl here ↦
      let none_left : count_key task_id id t ≡ 0 = ground (arith, here, keyed task_id id) in
      rw here (
        ground (
          arith,
          here,
          held-one task_id after id r,
          update-absent task_id id (set_pending after) t none_left,
          held-absent task_id after id t none_left,
        ))
  | inr other ↦
      rw (other, hold-other task_id after id r t (get_subtask task_id id t) other)
        (ground (
          arith,
          other,
          held-one task_id after id r,
          hold_pending-held task_id after id t (λ k i. ground (arith, keyed k i)),
        ))
]

-- `held` for one id and then for others.
held-cons :
    (task_id after id : Text) (ids : List Text) (r : SubtaskRow)
    → held task_id after ids (held task_id after (id ∷ []) r) ≡ held task_id after (id ∷ ids) r
held-cons task_id after id ids r = ground arith

held-IsKeyed :
    (task_id after : Text) (ids : List Text) (t : Table)
    → IsKeyed t
    → IsKeyed (map (held task_id after ids) t)
held-IsKeyed task_id after ids t keyed =
    map-IsKeyed (held task_id after ids) t (λ r. ground arith) keyed

mark_remaining-held :
    (task_id after : Text) (seen : Bool) (ids : List Text) (t : Table)
    → IsKeyed t
    → mark_remaining_pending_after_block task_id after seen ids t
      ≡ map (held task_id after (later after seen ids)) t
unfolding mark_remaining_pending_after_block
mark_remaining-held task_id after seen [] t keyed = sym (map-same _ t (λ r. ground arith))
mark_remaining-held task_id after seen (id ∷ ids) t keyed =
    elim (Bool-cases (seen && not (id == after))) [
      | inl behind ↦
          rw (behind, hold_pending-held task_id after id t keyed)
            (mark_remaining-held task_id after (seen || id == after) ids
                (map (held task_id after (id ∷ [])) t)
                (held-IsKeyed task_id after (id ∷ []) t keyed)
              ∙ map-map_as _ _ _ t
                  (held-cons task_id after id (later after (seen || id == after) ids)))
      | inr not_behind ↦
          rw not_behind (mark_remaining-held task_id after (seen || id == after) ids t keyed)
    ]

-- The row of the subtask that is given up, and the rows of the set.
abbrev pub blocked_or_held : Text → Text → Text → List Text → SubtaskRow → SubtaskRow
blocked_or_held task_id id reason ids r =
    if has_key task_id id r then set_blocked reason r else held task_id id ids r

held-set_blocked :
    (task_id id reason : Text) (ids : List Text) (r : SubtaskRow)
    → held task_id id ids (if has_key task_id id r then set_blocked reason r else r)
      ≡ blocked_or_held task_id id reason ids r
held-set_blocked task_id id reason ids r = ground arith

marked-blocked_or_held :
    (task_id id reason : Text) (ids : List Text) (t : Table)
    → IsKeyed t
    → mark_remaining_pending_after_block task_id id false ids
        (update_subtask task_id id (set_blocked reason) t)
      ≡ map (blocked_or_held task_id id reason (later id false ids)) t
unfolding update_subtask
marked-blocked_or_held task_id id reason ids t keyed =
    mark_remaining-held task_id id false ids _ (
      map-IsKeyed (λ r. if has_key task_id id r then set_blocked reason r else r) t
        (λ r. ground arith) keyed)
    ∙ map-map_as _ _ _ t (held-set_blocked task_id id reason (later id false ids))

block_task-BlocksAt :
    {W : Type 0} (task_id : Text) (message : Option Text) (fields : List Field) (t : State)
    (w : Worker W)
    → IsAt task_id t w.store
    → (r : Option State) × (s : Store) × (block_task task_id message fields w
        ≡ (ok r, record w { store = s }))
      × IsAt task_id (if is_active t then blocked else t) s
unfolding block_task
block_task-BlocksAt task_id message fields t w at =
    elim (block_current-settles task_id message fields w.store t at) [
      | inl (active, a) ↦ rw (active, a.returns) (some blocked, a.after, refl, a.at)
      | inr (idle, e) ↦ rw (idle, e) (none, w.store, refl, at)
    ]

module _ {W : Type 0} (o : World W) (out : Outside W) (m : Matcher) (cfg : Settings)
    (task_id : Text) (subtask : Subtask) (subtasks : List Subtask) (block : Option Block)
    (t : State) (w : Worker W) (at : IsAt task_id t w.store) where
  abbrev pub reason : Text
  reason = reason_text out.repr cfg.subtask_hard_max_attempts subtask.id block

  pub block_subtask_set-BlocksAt :
      (w' : Worker W) × (block_subtask_set o out m cfg task_id subtask subtasks block w
        ≡ (ok (some blocked), w'))
      × (w'.subtasks
          ≡ mark_remaining_pending_after_block task_id subtask.id false
              (subtask_ids subtasks)
              (update_subtask task_id subtask.id (set_blocked reason) w.subtasks))
      × IsAt task_id (if is_active t then blocked else t) w'.store
  unfolding block_subtask_set mark_subtask_blocked
  block_subtask_set-BlocksAt =
      let w1 = record w {
        subtasks =
            mark_remaining_pending_after_block task_id subtask.id false (subtask_ids subtasks)
              (update_subtask task_id subtask.id (set_blocked reason) w.subtasks);
        world = out.post_blocked_pr_comment subtask.id reason w.world;
      } in
      let (r, s, e, at') =
        block_task-BlocksAt task_id (some (blocked_note subtask.id reason))
          (set_last_error (some (take_text 1000 (blocked_note subtask.id reason))) ∷ []) t w1 at in
      rw e (record w1 { store = s }, refl, refl, at')

  -- For a task in the store and a table without repeated keys, `_block_subtask_set` raises nothing and
  -- returns BLOCKED. It changes each row on its own: the subtask's row becomes BLOCKED with the
  -- reason, the rows of the later subtasks of the set that were PENDING say which subtask they wait
  -- for, and every other row stays as it was. The task is BLOCKED if its state was active, and else
  -- stays where it was.
  pub block_subtask_set-outcome :
      IsKeyed w.subtasks
      → (w' : Worker W) × (block_subtask_set o out m cfg task_id subtask subtasks block w
          ≡ (ok (some blocked), w'))
        × (w'.subtasks
            ≡ map
                (blocked_or_held task_id subtask.id reason
                  (later subtask.id false (subtask_ids subtasks)))
                w.subtasks)
        × IsAt task_id (if is_active t then blocked else t) w'.store
  block_subtask_set-outcome keyed =
      let (w', e, rows, at') = block_subtask_set-BlocksAt in
      (
        w',
        e,
        rows
            ∙ marked-blocked_or_held task_id subtask.id reason (subtask_ids subtasks) w.subtasks
                keyed,
        at',
      )
