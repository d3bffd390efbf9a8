-- ===== src/Sched/Best.antt =====
-- `best_queued_priority` gives the candidate that a plain order of the candidates puts first.
use quikode.Prelude.{
  ℕ, Bool, true, false, not, ◌&&◌, ◌||◌, Option, none, some, List, [], ◌∷◌, ◌++◌, Text, keep, all,
  ◌≡◌, refl, sym, ap, subst, arith, ◌⊎◌, inl, inr, Bool-cases, List-cases,
}
use quikode.Dag.Graph.{Dag, node_ids}
use quikode.Sched.Settings.{Config, SchedulerStore, StackFns}
use quikode.Sched.Rank.{before, sort_ranked, sort_ranked-first}
use quikode.Sched.Pick.{
  Candidate, first_of, prefer_primary_candidates, score_of, or_every, queued, best_queued_priority,
}

-- The element stands in the list.
abbrev pub StandsIn {ℓ} : {A : Type ℓ} → A → List A → Type ℓ
StandsIn {A = A} a xs = (front : List A) × (back : List A) × (xs ≡ front ++ a ∷ back)

StandsIn-cons : {A : Type 0} (x a : A) (xs : List A) → StandsIn a (x ∷ xs) → (a ≡ x) ⊎ StandsIn a xs
StandsIn-cons x a xs ([], back, e) = inl (cc e)
StandsIn-cons x a xs (y ∷ front, back, e) = inr (front, back, cc e)

StandsIn-later : {A : Type 0} (x a : A) (xs : List A) → StandsIn a xs → StandsIn a (x ∷ xs)
StandsIn-later x a xs (front, back, e) = (x ∷ front, back, cc e)

StandsIn-keep :
    {A : Type 0} (p : A → Bool) (a : A) (xs : List A)
    → StandsIn a (keep p xs)
    → StandsIn a xs × (p a ≡ true)
StandsIn-keep p a [] ([], back, e) = cc
StandsIn-keep p a [] (b ∷ front, back, e) = cc
StandsIn-keep p a (x ∷ xs) s = elim (Bool-cases (p x)) [
  | inl kept ↦ elim (StandsIn-cons x a (keep p xs) (rw kept at s)) [
    | inl same ↦ (([], xs, cc same), cc (same, kept))
    | inr below ↦
        let (there, holds) = StandsIn-keep p a xs below in (StandsIn-later x a xs there, holds)
  ]
  | inr dropped ↦
      let (there, holds) = StandsIn-keep p a xs (rw dropped at s) in
      (StandsIn-later x a xs there, holds)
]

-- Tiers first: a candidate that is not stacked is ahead of every stacked one; in a tier the higher
-- score, and then the lower id.
abbrev pub is_ahead : Dag → List Text → Candidate → Candidate → Bool
is_ahead dag scope a b =
    not a.is_stacked && b.is_stacked
    || (not a.is_stacked || b.is_stacked) && before (score_of dag scope) (λ c. c.task_id) a b

all-ahead :
    (dag : Dag) (scope : List Text) (best : Candidate) (cs : List Candidate)
    → best.is_stacked ≡ false
    → all (before (score_of dag scope) (λ c. c.task_id) best) (keep (λ c. not c.is_stacked) cs)
      ≡ true
    → all (is_ahead dag scope best) cs ≡ true
all-ahead dag scope best [] primary h = refl
all-ahead dag scope best (c ∷ cs) primary h = elim (Bool-cases c.is_stacked) [
  | inl stacked ↦ ground (arith, all-ahead dag scope best cs primary (rw stacked at h))
  | inr fresh ↦ ground (arith, rw fresh at h, all-ahead dag scope best cs primary)
]

all-ahead_stacked :
    (dag : Dag) (scope : List Text) (best : Candidate) (cs : List Candidate)
    → keep (λ c. not c.is_stacked) cs ≡ []
    → all (before (score_of dag scope) (λ c. c.task_id) best) cs ≡ true
    → all (is_ahead dag scope best) cs ≡ true
all-ahead_stacked dag scope best [] none_fresh h = refl
all-ahead_stacked dag scope best (c ∷ cs) none_fresh h = elim (Bool-cases c.is_stacked) [
  | inl stacked ↦ ground (arith, h, all-ahead_stacked dag scope best cs (rw stacked at none_fresh))
  | inr fresh ↦ cc (rw fresh at none_fresh)
]

-- The first of the preferred candidates is ahead of every candidate.
pub preferred-first :
    (dag : Dag) (scope : List Text) (c : Candidate) (cs : List Candidate)
    → (best : Candidate) × (rest : List Candidate) × (sort_ranked
          (score_of dag scope)
          (λ c. c.task_id)
          (prefer_primary_candidates (c ∷ cs))
        ≡ best ∷ rest)
      × StandsIn best (c ∷ cs)
      × (all (is_ahead dag scope best) (c ∷ cs) ≡ true)
unfolding prefer_primary_candidates
preferred-first dag scope c cs = elim (List-cases (keep (λ c. not c.is_stacked) (c ∷ cs))) [
  | inl none_fresh ↦
      let (best, rest, e, there, least) =
        sort_ranked-first (score_of dag scope) (λ c. c.task_id) c cs in
      (
        best,
        rest,
        rw none_fresh e,
        there,
        all-ahead_stacked dag scope best (c ∷ cs) none_fresh least,
      )
  | inr (p, ps, fresh) ↦
      let (best, rest, e, there, least) =
        sort_ranked-first (score_of dag scope) (λ c. c.task_id) p ps in
      let (back, primary) =
        StandsIn-keep (λ c. not c.is_stacked) best (c ∷ cs) (rw (sym fresh) at there) in
      (
        best,
        rest,
        rw fresh e,
        back,
        all-ahead dag scope best (c ∷ cs) (ground (arith, primary)) (
            subst (λ l. all (before (score_of dag scope) (λ c. c.task_id) best) l ≡ true)
              (sym fresh) least),
      )
]

-- The picker implements a plain order: it gives nothing exactly when there is no candidate, and
-- otherwise the id and the score of a candidate that is ahead of every candidate, where one that is
-- not stacked is ahead of a stacked one, then a higher score, and then a lower id.
pub best_queued_priority-is_ahead :
    (cfg : Config) (dag : Dag) (store : SchedulerStore) (scope in_flight : Option (List Text))
    (fns : Option StackFns) (now : ℕ)
    → ((queued cfg dag store (or_every (node_ids dag) scope) (or_every [] in_flight) fns now ≡ [])
        × (best_queued_priority cfg dag store scope in_flight fns now ≡ none))
      ⊎ ((best : Candidate) × StandsIn best
            (queued cfg dag store (or_every (node_ids dag) scope) (or_every [] in_flight) fns now)
          × (best_queued_priority cfg dag store scope in_flight fns now
              ≡ some (best.task_id, score_of dag (or_every (node_ids dag) scope) best))
          × (all (is_ahead dag (or_every (node_ids dag) scope) best) (
                queued cfg dag store
                  (or_every (node_ids dag) scope)
                  (or_every [] in_flight)
                  fns
                  now)
              ≡ true))
unfolding best_queued_priority prefer_primary_candidates sort_ranked
best_queued_priority-is_ahead cfg dag store scope in_flight fns now =
    elim (List-cases
      (queued cfg dag store (or_every (node_ids dag) scope) (or_every [] in_flight) fns now)) [
        | inl empty ↦ inl (
          empty,
          ap
              (λ l. first_of dag (or_every (node_ids dag) scope) (
                sort_ranked (score_of dag (or_every (node_ids dag) scope)) (λ c. c.task_id)
                  (prefer_primary_candidates l)))
              empty,
        )
        | inr (c, cs, e) ↦
            let (best, rest, f, there, ahead) =
              preferred-first dag (or_every (node_ids dag) scope) c cs in
            inr (best, rw e there, rw (e, f) refl, rw e ahead)
      ]
