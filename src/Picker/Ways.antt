-- ===== src/Picker/Ways.antt =====
-- Ways up from tasks to their parents when one task's parents change.
use quikode.Prelude.{
  true, List, [], ◌∷◌, Text, ==_iff, ==_refl, elem, ◌≡◌, sym, arith, ◌⊎◌, inl, inr,
}
use quikode.Walk.Closure.{Reach, here, step}

-- No task is among its own ancestors.
abbrev pub IsAcyclic : (Text → List Text) → Type 0
IsAcyclic parents = (m : Text) → ¬ (Reach parents (parents m) m)

module _ (old new : Text → List Text) (nid : Text) where
  from-seed :
      (seed : List Text) (n : Text)
      → Reach old seed n
      → (u : Text) × (elem u seed ≡ true) × Reach old (u ∷ []) n
  from-seed seed n (here _ h) = (n, h, here n (ground (arith, ==_refl n)))
  from-seed seed n (step m _ r h) =
      let (u, member, up) = from-seed seed m r in (u, member, step m n up h)

  Reach-trans : (u m n : Text) → Reach old (u ∷ []) m → Reach old (old m) n → Reach old (u ∷ []) n
  Reach-trans u m n up (here _ h) = step m n up h
  Reach-trans u m n up (step k _ r h) = step k n (Reach-trans u m k up r) h

  -- A way up by the new parents is a way by the old ones, or it passes the changed task.
  abbrev Passes : List Text → Text → Type 0
  Passes seed n =
      Reach new seed nid × ((u : Text) × (elem u (new nid) ≡ true) × Reach old (u ∷ []) n)

  way-up :
      ((n : Text) → (nid ≡ n) ⊎ (new n ≡ old n))
      → (seed : List Text) (n : Text) → Reach new seed n
      → Reach old seed n ⊎ Passes seed n
  way-up same seed n (here _ h) = inl (here n h)
  way-up same seed n (step m _ r h) = elim (same m) [
    | inl e ↦ inr (rw e r, (n, rw e h, here n (ground (arith, ==_refl n))))
    | inr e ↦ elim (way-up same seed m r) [
      | inl o ↦ inl (step m n o (rw e at h))
      | inr (back, (u, member, up)) ↦ inr (back, (u, member, step m n up (rw e at h)))
    ]
  ]

  -- If no new parent leads back to the task, a cycle cannot have come up.
  pub step-IsAcyclic :
      IsAcyclic old
      → ((n : Text) → (nid ≡ n) ⊎ (new n ≡ old n))
      → ((u : Text) → elem u (new nid) ≡ true → ¬ (Reach old (u ∷ []) nid))
      → IsAcyclic new
  step-IsAcyclic acyclic same fresh m loop = elim (same m) [
    | inl e ↦ elim (way-up same (new nid) nid (rw (sym e) at loop)) [
      | inl o ↦ let (u, member, up) = from-seed (new nid) nid o in fresh u member up
      | inr (back, (u, member, up)) ↦ fresh u member up
    ]
    | inr e ↦ elim (way-up same (new m) m loop) [
      | inl o ↦ acyclic m (rw e at o)
      | inr (back, (u, member, up)) ↦ elim (way-up same (new m) nid back) [
        | inl o ↦ fresh u member (Reach-trans u m nid up (rw e at o))
        | inr (again, (v, member', up')) ↦ fresh v member' up'
      ]
    ]
  ]

pub Reach-mono :
    (old : Text → List Text) (u : Text) (seed : List Text) (n : Text)
    → elem u seed ≡ true
    → Reach old (u ∷ []) n
    → Reach old seed n
Reach-mono old u seed n member (here _ h) = here n (ground (arith, h, member, ==_iff u n))
Reach-mono old u seed n member (step m _ r h) = step m n (Reach-mono old u seed m member r) h
