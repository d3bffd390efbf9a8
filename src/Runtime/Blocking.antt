-- ===== src/Runtime/Blocking.antt =====
-- What `block_current` and `enter_rebasing_to_main` do from each state.
use quikode.Prelude.{
  Bool, true, false, ◌||◌, Option, none, some, List, Text, Result, ok, ◌≡◌, refl, ◌⊎◌, ◌≢◌, inl,
  inr, ◌∙◌, arith, ap, Bool-cases, if◌then◌else◌,
}
use quikode.Fsm.Table.{
  State, Event, blocked, rebasing_to_main, conflict_resolving, resolved, parent_merged_or_conflict,
}
use quikode.Fsm.Rules.{transitions, enum, Failure, is_active, is_post_pr}
use quikode.Store.Rows.{Field, Store}
use quikode.Store.Tasks.{apply_event}
use quikode.Store.Lookup.{apply_event-refuses}
use quikode.Store.Fire.{IsAt, Arrives, apply_event-Arrives}
use quikode.Runtime.Helpers.{
  enter_rebasing_from, enter_rebasing_to_main, block_current, blocking_event_of, or_skip,
}
use quikode.Runtime.Safety.{current_state-at}
use quikode.Runtime.Merging.{return_event}

module _ (i : Text) (message : Option Text) (fields : List Field) (s : Store) {t : State}
    (at : IsAt i t s) where
  or_skip-Arrives :
      (e : Event) (u : State)
      → transitions t e ≡ some u
      → Arrives i u s (ok (some u)) (or_skip (apply_event i (enum e) message fields s))
  unfolding or_skip
  or_skip-Arrives e u m =
      let a = apply_event-Arrives i message fields s e u at m in
      record { after = a.after; returns = ground (arith, a.returns); at = a.at; others = a.others }

  or_skip-skips :
      (e : Event)
      → transitions t e ≡ none
      → or_skip (apply_event i (enum e) message fields s) ≡ (ok none, s)
  unfolding or_skip
  or_skip-skips e m =
      rw
        (apply_event-refuses i e message fields s at.found (ap (λ x. transitions x e) at.state ∙ m))

blocking_event_of-blocks :
    (t : State) → transitions t (blocking_event_of t) ≡ (if is_active t then some blocked else none)
unfolding transitions blocking_event_of
blocking_event_of-blocks t = ground arith

-- `block_current` of a task that exists never raises: from an active state it ends in BLOCKED,
-- from any other it skips and the store is unchanged.
pub block_current-settles :
    (i : Text) (message : Option Text) (fields : List Field) (s : Store) (t : State)
    → IsAt i t s
    → ((is_active t ≡ true)
        × Arrives i blocked s (ok (some blocked)) (block_current i message fields s))
      ⊎ ((is_active t ≡ false) × (block_current i message fields s ≡ (ok none, s)))
unfolding block_current
block_current-settles i message fields s t at = elim (Bool-cases (is_active t)) [
  | inl active ↦ inl (
    active,
    rw (current_state-at i s at) (
        or_skip-Arrives i message fields s at _ blocked
          (rw active at (blocking_event_of-blocks t))),
  )
  | inr idle ↦ inr (
    idle,
    rw (current_state-at i s at)
        (or_skip-skips i message fields s at _ (rw idle at (blocking_event_of-blocks t))),
  )
]

abbrev pub can_rebase : State → Bool
can_rebase t = is_active t || is_post_pr t

-- What PARENT_MERGED_OR_CONFLICT does in a state but the target.
abbrev RebaseCase : State → Type 0
RebaseCase t =
    (can_rebase t ≡ true) × (transitions t parent_merged_or_conflict ≡ some rebasing_to_main)
    ⊎ (can_rebase t ≡ false) × (transitions t parent_merged_or_conflict ≡ none)

rebase_case : (t : State) → t ≢ rebasing_to_main → RebaseCase t
unfolding transitions
rebase_case t other = ground arith

-- The two outcomes of `enter_rebasing_to_main`.
abbrev RebaseOutcome : Text → State → Store → Result Failure (Option State) × Store → Type 0
RebaseOutcome i t s out =
    (can_rebase t ≡ true) × Arrives i rebasing_to_main s (ok (some rebasing_to_main)) out
    ⊎ (can_rebase t ≡ false) × (out ≡ (ok none, s))

module _ (i : Text) (message : Option Text) (fields : List Field) (s : Store) where
  or_skip-settles :
      (t : State)
      → IsAt i t s
      → RebaseCase t
      → RebaseOutcome i t s
          (or_skip (apply_event i (enum parent_merged_or_conflict) message fields s))
  or_skip-settles t at (inl (can, m)) =
      inl (can, or_skip-Arrives i message fields s at parent_merged_or_conflict rebasing_to_main m)
  or_skip-settles t at (inr (cannot, m)) =
      inr (cannot, or_skip-skips i message fields s at parent_merged_or_conflict m)

  enter_rebasing_from-settles :
      (t : State) → IsAt i t s → RebaseOutcome i t s (enter_rebasing_from i message fields t s)
  unfolding enter_rebasing_from is_active is_post_pr
  enter_rebasing_from-settles rebasing_to_main at =
      inl (refl, record { after = s; returns = refl; at = at; others = λ j. inr refl })
  enter_rebasing_from-settles conflict_resolving at = inl (
    refl,
    return_event i message fields s at resolved rebasing_to_main (unfold transitions in refl),
  )
  enter_rebasing_from-settles t at = or_skip-settles t at (rebase_case t (λ e. cc))

-- `enter_rebasing_to_main` of a task that exists never raises: from an active or a post-PR state
-- it ends in REBASING_TO_MAIN, from any other it skips and the store is unchanged.
enter_rebasing_to_main-settles :
    (i : Text) (message : Option Text) (fields : List Field) (s : Store) (t : State)
    → IsAt i t s
    → (can_rebase t ≡ true)
        × Arrives i rebasing_to_main s
            (ok (some rebasing_to_main))
            (enter_rebasing_to_main i message fields s)
      ⊎ (can_rebase t ≡ false) × (enter_rebasing_to_main i message fields s ≡ (ok none, s))
unfolding enter_rebasing_to_main
enter_rebasing_to_main-settles i message fields s t at =
    rw (current_state-at i s at) (enter_rebasing_from-settles i message fields s t at)
