-- ===== src/Runtime/Merging.antt =====
-- What `mark_merged`, `block_current` and `enter_rebasing_to_main` do from each state.
use quikode.Prelude.{
  Bool, true, false, Option, none, some, List, [], Text, Result, ok, ◌≡◌, refl, ◌⊎◌, inl, inr,
  arith, Bool-cases,
}
use quikode.Fsm.Table.{
  State, Event, pending, audit_local_ci, audit_rubric, audit_standards, audit_architecture,
  audit_behavior, pending_ci, awaiting_review, rebasing_to_main, conflict_resolving, blocked,
  failed, aborted, ci_passed, unresolved, block_task,
}
use quikode.Fsm.Rules.{transitions, enum, Failure}
use quikode.Store.Rows.{Field, Store, Action, ◌>>=◌, ◌>>◌, return}
use quikode.Store.Tasks.{apply_event}
use quikode.Store.Fire.{IsAt, SameOthers-trans, Arrives, apply_event-Arrives}
use quikode.Runtime.Helpers.{retry_and_mark, mark_merged_from, mark_merged}
use quikode.Runtime.Safety.{current_state-at}

-- `mark_merged` knows a way from these states.
abbrev pub is_mergeable : State → Bool
is_mergeable State.merged = true
is_mergeable pending = true
is_mergeable pending_ci = true
is_mergeable awaiting_review = true
is_mergeable conflict_resolving = true
is_mergeable rebasing_to_main = true
is_mergeable audit_local_ci = true
is_mergeable audit_rubric = true
is_mergeable audit_standards = true
is_mergeable audit_architecture = true
is_mergeable audit_behavior = true
is_mergeable blocked = true
is_mergeable failed = true
is_mergeable aborted = true
is_mergeable _ = false

module _ (i : Text) (message : Option Text) (fields : List Field) (s : Store) {t : State}
    (at : IsAt i t s) where
  -- One event, whose target is returned.
  pub return_event :
      (e : Event) (u : State)
      → transitions t e ≡ some u
      → Arrives i u s
          (ok (some u))
          ((apply_event i (enum e) message fields >>= λ target. return (some target)) s)
  return_event e u m =
      let a = apply_event-Arrives i message fields s e u at m in
      record { after = a.after; returns = ground (arith, a.returns); at = a.at; others = a.others }

  -- One event, and then an action from its target.
  after_event :
      {B : Type 0} {w : State} {y : Result Failure B} (e : Event) (u : State) (k : Action B)
      → transitions t e ≡ some u
      → ((s' : Store) → IsAt i u s' → Arrives i w s' y (k s'))
      → Arrives i w s y ((apply_event i (enum e) message fields >> k) s)
  after_event e u k m rest =
      let a = apply_event-Arrives i message fields s e u at m in
      let b = rest a.after a.at in
      record {
        after = b.after;
        returns = rw a.returns b.returns;
        at = b.at;
        others = SameOthers-trans i s a.after b.after a.others b.others;
      }

module _ (i : Text) (message : Option Text) (fields : List Field) where
  retry_and_mark-Arrives :
      (bridge : Option Text) {t : State} (s : Store)
      → IsAt i t s
      → transitions t Event.retry_task ≡ some pending
      → Arrives i State.merged s (ok (some State.merged)) (retry_and_mark i bridge message fields s)
  unfolding retry_and_mark
  retry_and_mark-Arrives bridge s at m =
      after_event i bridge [] s at Event.retry_task pending _ m (λ s' at'.
        return_event i message fields s' at' Event.mark_merged State.merged
          (unfold transitions in refl))

  mark_merged_from-Arrives :
      (t : State) (s : Store)
      → IsAt i t s
      → is_mergeable t ≡ true
      → Arrives i State.merged s (ok (some State.merged)) (mark_merged_from i message fields t s)
  unfolding mark_merged_from
  mark_merged_from-Arrives State.merged s at h = record {
    after = s;
    returns = refl;
    at = at;
    others = λ j. inr refl;
  }
  mark_merged_from-Arrives pending s at h =
      return_event i message fields s at _ State.merged (unfold transitions in refl)
  mark_merged_from-Arrives awaiting_review s at h =
      return_event i message fields s at _ State.merged (unfold transitions in refl)
  mark_merged_from-Arrives pending_ci s at h =
      after_event i message [] s at ci_passed awaiting_review _ (unfold transitions in refl)
        (λ s' at'.
          return_event i message fields s' at' Event.merged State.merged
            (unfold transitions in refl))
  mark_merged_from-Arrives conflict_resolving s at h =
      after_event i _ [] s at unresolved blocked _ (unfold transitions in refl)
        (λ s' at'. retry_and_mark-Arrives _ s' at' (unfold transitions in refl))
  mark_merged_from-Arrives rebasing_to_main s at h =
      after_event i _ [] s at block_task blocked _ (unfold transitions in refl)
        (λ s' at'. retry_and_mark-Arrives _ s' at' (unfold transitions in refl))
  mark_merged_from-Arrives blocked s at h =
      retry_and_mark-Arrives _ s at (unfold transitions in refl)
  mark_merged_from-Arrives failed s at h =
      retry_and_mark-Arrives _ s at (unfold transitions in refl)
  mark_merged_from-Arrives aborted s at h =
      retry_and_mark-Arrives _ s at (unfold transitions in refl)
  mark_merged_from-Arrives audit_local_ci s at h =
      after_event i _ [] s at block_task blocked _ (unfold transitions in refl)
        (λ s' at'. retry_and_mark-Arrives _ s' at' (unfold transitions in refl))
  mark_merged_from-Arrives audit_rubric s at h =
      after_event i _ [] s at block_task blocked _ (unfold transitions in refl)
        (λ s' at'. retry_and_mark-Arrives _ s' at' (unfold transitions in refl))
  mark_merged_from-Arrives audit_standards s at h =
      after_event i _ [] s at block_task blocked _ (unfold transitions in refl)
        (λ s' at'. retry_and_mark-Arrives _ s' at' (unfold transitions in refl))
  mark_merged_from-Arrives audit_architecture s at h =
      after_event i _ [] s at block_task blocked _ (unfold transitions in refl)
        (λ s' at'. retry_and_mark-Arrives _ s' at' (unfold transitions in refl))
  mark_merged_from-Arrives audit_behavior s at h =
      after_event i _ [] s at block_task blocked _ (unfold transitions in refl)
        (λ s' at'. retry_and_mark-Arrives _ s' at' (unfold transitions in refl))
  mark_merged_from-Arrives _ s at h = cc

  mark_merged_from-skips :
      (t : State) (s : Store)
      → is_mergeable t ≡ false
      → mark_merged_from i message fields t s ≡ (ok none, s)
  unfolding mark_merged_from
  mark_merged_from-skips State.merged s h = cc
  mark_merged_from-skips _ s h = ground arith

-- `mark_merged` of a task that exists never raises. From PENDING, the post-PR states, the audit
-- stages, the rebase and conflict states and the retryable states it ends in MERGED, whatever
-- bridge it takes; from every other state it skips and the store is unchanged. The rows of
-- the other tasks are unchanged.
pub mark_merged-settles :
    (i : Text) (message : Option Text) (fields : List Field) (s : Store) (t : State)
    → IsAt i t s
    → ((is_mergeable t ≡ true)
        × Arrives i State.merged s (ok (some State.merged)) (mark_merged i message fields s))
      ⊎ ((is_mergeable t ≡ false) × (mark_merged i message fields s ≡ (ok none, s)))
unfolding mark_merged
mark_merged-settles i message fields s t at = elim (Bool-cases (is_mergeable t)) [
  | inl can ↦
      inl (can, rw (current_state-at i s at) (mark_merged_from-Arrives i message fields t s at can))
  | inr cannot ↦
      inr
        (cannot, rw (current_state-at i s at) (mark_merged_from-skips i message fields t s cannot))
]
