-- ===== src/Audit/Citations.antt =====
-- The comparisons of `AuditLog._validate_policy_inputs` of src/quantforge/audit/log.py that go through lists: what unresolved
-- findings there are, and what evidence is cited.
use quantforge_ai.Common.{
  ◌≡◌, ◌↔◌, refl, sym, ap, ◌∙◌, Bool, true, false, inl, inr, List, [], ◌∷◌, map, ok, raise_if-eq-ok,
  for_each, >>-eq-ok, >>=-eq-ok, ◌==◌, ==→≡, ≡→==, any, contains, is_subset, bool_eq, string_eq,
  Bool-cases, All, arith,
}
use mathlib.Core.List.{Memᴰ}
use quantforge_ai.Domain.Enums.{
  FindingSeverity, finding_severity_eq, EvidenceRelationship, evidence_relationship_eq,
  ValidationStatus, statuses_eq, review_decision_eq, corrected_inference_eq, expected_direction_eq,
  effect_direction_eq, gate_status_eq, sensitivity_eq, stability_eq, reproducibility_status_eq,
}
use quantforge_ai.Domain.Evidence.{EvidenceObject}
use quantforge_ai.Domain.Reviews.{EvidenceReference, ReviewerFinding}
use quantforge_ai.Domain.Validate.{is_unresolved, evidence_ids_of}
use quantforge_ai.Evidence.Ledger.{
  EvidenceLedger, id_of, fact_ids_of, validate_reference, validate_references,
}
use quantforge_ai.Evidence.Ledger.Binding.{IsBound}
use quantforge_ai.Evidence.Ledger.References.{validate_reference_iff}
use quantforge_ai.Audit.Policy.{contradicting, check_contradictory}

-- The evidence that a reference cites: it is among the evidence, is validated, and has the facts.
abbrev pub Cites : List EvidenceObject → EvidenceReference → EvidenceObject → Type 0
Cites es r e =
    Memᴰ e es
    × (e.evidence_id ≡ r.evidence_id)
    × (e.validation_status ≡ ValidationStatus.validated)
    × (is_subset r.numeric_fact_ids (fact_ids_of e) ≡ true)

-- Some reference has the identifier of the evidence.
abbrev pub IsCited : List EvidenceReference → EvidenceObject → Type 0
IsCited rs e = (r : EvidenceReference) × Memᴰ r rs × (r.evidence_id ≡ e.evidence_id)

-- A finding of the severity is not resolved.
abbrev pub HasUnresolved : FindingSeverity → List ReviewerFinding → Type 0
HasUnresolved severity findings =
    (f : ReviewerFinding) × Memᴰ f findings × (f.severity ≡ severity) × (f.resolved ≡ false)

unresolved_of_any :
    (s : FindingSeverity) (fs : List ReviewerFinding)
    → any (is_unresolved s) fs ≡ true
    → HasUnresolved s fs
unfolding any is_unresolved
unresolved_of_any s [] h = cc
unresolved_of_any s (x ∷ fs) h = elim (Bool-cases (is_unresolved s x)) [
  | inl p ↦ (x, Memᴰ.head refl, ==→≡ x.severity s (ground (arith, p)), ground (arith, p))
  | inr n ↦
      let (f, m, q, k) = unresolved_of_any s fs (ground (arith, h, n)) in (f, Memᴰ.tail m, q, k)
]

any_of_member :
    (s : FindingSeverity) (fs : List ReviewerFinding) (f : ReviewerFinding)
    → Memᴰ f fs
    → f.severity ≡ s
    → f.resolved ≡ false
    → any (is_unresolved s) fs ≡ true
unfolding any is_unresolved
any_of_member s [] f m q k = elim m [ ]
any_of_member s (x ∷ fs) f (Memᴰ.head p) q k =
    let same = ≡→== x.severity s (ap (λ (z : ReviewerFinding). z.severity) (sym p) ∙ q) in
    let left : x.resolved ≡ false = ap (λ (z : ReviewerFinding). z.resolved) (sym p) ∙ k in
    ground (arith, same, left)
any_of_member s (x ∷ fs) f (Memᴰ.tail m) q k = ground (arith, any_of_member s fs f m q k)

pub flag-HasUnresolved :
    (s : FindingSeverity) (fs : List ReviewerFinding) (flag : Bool)
    → flag ≡ any (is_unresolved s) fs
    → (flag ≡ true) ↔ HasUnresolved s fs
flag-HasUnresolved s fs flag q =
    (λ h. unresolved_of_any s fs (sym q ∙ h), λ (f, m, a, b). q ∙ any_of_member s fs f m a b)

IsCited-of_contains :
    (rs : List EvidenceReference) (e : EvidenceObject)
    → contains e.evidence_id (evidence_ids_of rs) ≡ true
    → IsCited rs e
unfolding contains
IsCited-of_contains [] e h = cc
IsCited-of_contains (r ∷ rs) e h = elim (Bool-cases (e.evidence_id == r.evidence_id)) [
  | inl p ↦ (r, Memᴰ.head refl, sym (==→≡ e.evidence_id r.evidence_id p))
  | inr n ↦ let (d, m, q) = IsCited-of_contains rs e (ground (arith, h, n)) in (d, Memᴰ.tail m, q)
]

pub covered_of_subset :
    (rs : List EvidenceReference) (es : List EvidenceObject)
    → is_subset (map id_of es) (evidence_ids_of rs) ≡ true
    → All (IsCited rs) es
unfolding is_subset
covered_of_subset rs [] h = tt
covered_of_subset rs (e ∷ es) h =
    (IsCited-of_contains rs e (ground arith), covered_of_subset rs es (ground arith))

pub contradictions_covered :
    (rs : List EvidenceReference) (es : List EvidenceObject)
    → is_subset (contradicting es) (evidence_ids_of rs) ≡ true
    → All
        (λ (e : EvidenceObject). e.relationship ≡ EvidenceRelationship.contradicts → IsCited rs e)
        es
unfolding is_subset contradicting
contradictions_covered rs [] h = tt
contradictions_covered rs (e ∷ es) h = (
  λ q.
      let same = ≡→== e.relationship EvidenceRelationship.contradicts q in
      IsCited-of_contains rs e (ground (arith, h, same)),
  contradictions_covered rs es (ground (arith, h)),
)

module _ (l : EvidenceLedger) (b : IsBound l) where
  reference-Cites :
      (r : EvidenceReference) (e : EvidenceObject)
      → validate_reference l r true ≡ ok e
      → Cites l.items r e
  reference-Cites r e h = let ((m, q), v, s) = (validate_reference_iff l r e b).0 h in (m, q, v, s)

  pub references-Cites :
      (rs : List EvidenceReference)
      → validate_references l rs ≡ ok tt
      → All (λ r. (e : EvidenceObject) × Cites l.items r e) rs
  unfolding validate_references
  references-Cites [] h = tt
  references-Cites (r ∷ rs) h =
      let (e, made, rest) = >>=-eq-ok (validate_reference l r true) _ h in
      ((e, reference-Cites r e made), references-Cites rs rest)

  pub contradictory-Cites :
      (rs : List EvidenceReference)
      → for_each (check_contradictory l) rs ≡ ok tt
      → All
          (λ r.
            (e : EvidenceObject) × Cites l.items r e
            × (e.relationship ≡ EvidenceRelationship.contradicts))
          rs
  unfolding for_each check_contradictory
  contradictory-Cites [] h = tt
  contradictory-Cites (r ∷ rs) h =
      let (here, rest) = >>-eq-ok (check_contradictory l r) _ h in
      let (e, made, k) = >>=-eq-ok (validate_reference l r true) _ here in
      (
        (
          e,
          reference-Cites r e made,
          ==→≡ e.relationship EvidenceRelationship.contradicts
              (ground (arith, raise_if-eq-ok _ _ k)),
        ),
        contradictory-Cites rs rest,
      )
