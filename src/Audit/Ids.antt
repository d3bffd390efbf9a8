-- ===== src/Audit/Ids.antt =====
-- The ids of the findings that a fixup round has to cover.
use quikode.Prelude.{
  ℕ, suc, ◌||◌, List, [], ◌∷◌, ◌++◌, Text, ◌==◌, ==_iff, map, elem, elem-append, elem_iff_count,
  count-append, IsUnique, ◌≡◌, arith, Bool-cases, inl, inr,
}
use quikode.Audit.Findings.{
  StageName, Finding, StageOutcome, namespaced, auto_id, raw_id, add_id, add_ids, add_findings,
  add_stages, collect_finding_ids,
}

-- The ids of one finding: its gaps', and its own or one from its place.
abbrev pub ids_of : StageName → ℕ → Finding → List Text
ids_of name n f =
    map (namespaced name) f.gaps
    ++ (map (namespaced name) f.completeness_gaps ++ namespaced name (auto_id n (raw_id f)) ∷ [])

abbrev pub ids_from : StageName → ℕ → List Finding → List Text
ids_from name n [] = []
ids_from name n (f ∷ findings) = ids_of name n f ++ ids_from name (suc n) findings

-- The ids of all findings of the stages.
abbrev pub stage_ids : List StageOutcome → List Text
stage_ids [] = []
stage_ids (s ∷ failed) = ids_from s.name 0 s.findings ++ stage_ids failed

elem-add_id : (i j : Text) (ids : List Text) → elem i (add_id j ids) ≡ (elem i ids || j == i)
elem-add_id i j ids = elim (Bool-cases (elem j ids)) [
  | inl e ↦ rw e (ground (arith, ==_iff j i, e))
  | inr e ↦ rw e (ground (arith, elem-append i ids (j ∷ [])))
]

IsUnique-add_id : (j : Text) (ids : List Text) → IsUnique ids → IsUnique (add_id j ids)
IsUnique-add_id j ids u i = elim (Bool-cases (elem j ids)) [
  | inl e ↦ rw e (u i)
  | inr e ↦
      rw e (ground (arith, u i, count-append i ids (j ∷ []), ==_iff j i, elem_iff_count j ids, e))
]

-- What adding a list of ids does: they are there, and none twice.
abbrev Adds : List Text → List Text → List Text → Type 0
Adds new ids ids' =
    ((i : Text) → elem i ids' ≡ (elem i ids || elem i new)) × (IsUnique ids → IsUnique ids')

Adds-trans :
    (new more ids ids' ids'' : List Text)
    → Adds new ids ids'
    → Adds more ids' ids''
    → Adds (new ++ more) ids ids''
Adds-trans new more ids ids' ids'' f g =
    ((λ i. ground (arith, f.0 i, g.0 i, elem-append i new more)), λ u. g.1 (f.1 u))

add_ids-Adds :
    (name : StageName) (gaps ids : List Text)
    → Adds (map (namespaced name) gaps) ids (add_ids name gaps ids)
unfolding add_ids
add_ids-Adds name [] ids = ((λ i. ground arith), λ u. u)
add_ids-Adds name (g ∷ gaps) ids =
    let rest = add_ids-Adds name gaps (add_id (namespaced name g) ids) in
    (
      (λ i. ground (arith, rest.0 i, elem-add_id i (namespaced name g) ids)),
      λ u. rest.1 (IsUnique-add_id (namespaced name g) ids u),
    )

add_id-Adds : (j : Text) (ids : List Text) → Adds (j ∷ []) ids (add_id j ids)
add_id-Adds j ids = ((λ i. ground (arith, elem-add_id i j ids)), IsUnique-add_id j ids)

add_findings-Adds :
    (name : StageName) (n : ℕ) (findings : List Finding) (ids : List Text)
    → Adds (ids_from name n findings) ids (add_findings name n findings ids)
unfolding add_findings
add_findings-Adds name n [] ids = ((λ i. ground arith), λ u. u)
add_findings-Adds name n (f ∷ findings) ids =
    let a = add_ids name f.gaps ids in
    let b = add_ids name f.completeness_gaps a in
    let own = namespaced name (auto_id n (raw_id f)) in
    Adds-trans (ids_of name n f) (ids_from name (suc n) findings) ids (add_id own b) _
      (Adds-trans (map (namespaced name) f.gaps) _ ids a (add_id own b)
        (add_ids-Adds name f.gaps ids)
        (Adds-trans (map (namespaced name) f.completeness_gaps) (own ∷ []) a b (add_id own b)
          (add_ids-Adds name f.completeness_gaps a) (add_id-Adds own b)))
      (add_findings-Adds name (suc n) findings (add_id own b))

add_stages-Adds :
    (failed : List StageOutcome) (ids : List Text)
    → Adds (stage_ids failed) ids (add_stages failed ids)
unfolding add_stages
add_stages-Adds [] ids = ((λ i. ground arith), λ u. u)
add_stages-Adds (s ∷ failed) ids =
    Adds-trans (ids_from s.name 0 s.findings) (stage_ids failed) ids
      (add_findings s.name 0 s.findings ids) _ (add_findings-Adds s.name 0 s.findings ids)
      (add_stages-Adds failed (add_findings s.name 0 s.findings ids))

-- The ids that a fixup round is to cover are those of all findings of the failed stages and of their
-- gaps, under the stage's name, and no id stands twice.
pub collect_finding_ids-is_exact :
    (failed : List StageOutcome)
    → IsUnique (collect_finding_ids failed)
      × ((i : Text) → elem i (collect_finding_ids failed) ≡ elem i (stage_ids failed))
unfolding collect_finding_ids
collect_finding_ids-is_exact failed =
    let all = add_stages-Adds failed [] in (all.1 (λ i. omega arith), λ i. all.0 i)
