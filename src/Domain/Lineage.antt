-- ===== src/Domain/Lineage.antt =====
-- The amendments of a case that passes its validation (src/quantforge/domain/models.py).
use quantforge_ai.Common.{
  ℕ, ◌<◌, ◌≡◌, refl, not, String, List, [], ◌∷◌, Option, none, some, ok, raise_if, raise_if-eq-ok,
  for_each, >>-eq-ok, leb, ◌==◌, ==→≡, string_eq, arith,
}
use quantforge_ai.Domain.Proposal.{ExperimentProposal}
use quantforge_ai.Domain.Constitution.{HumanApproval, ExperimentConstitution, ConstitutionAmendment}
use quantforge_ai.Domain.Platform.{Platform}
use quantforge_ai.Domain.Locked.{amendment_integrity}
use quantforge_ai.Domain.Case.{TribunalCase}
use quantforge_ai.Domain.Visibility.{
  is_same_proposal, is_same_approval, amendment_lineage, constitution_agrees, governed_visibility,
  validate_parts, validate_case,
}
use quantforge_ai.Domain.Amendments.{IsAdmissible, amendment_integrity-IsAdmissible}

-- Each amendment names the hash of the one before it, is later than it, and is admissible.
abbrev pub IsLineage : Platform → String → ℕ → List ConstitutionAmendment → Type 0
IsLineage p parent_hash time [] = Unit
IsLineage p parent_hash time (a ∷ rest) =
    (a.parent_constitution_hash ≡ parent_hash)
    × (time < a.created_at)
    × IsAdmissible p a
    × IsLineage p a.amendment_hash a.created_at rest

amendment_lineage-IsLineage :
    (p : Platform) (parent_hash : String) (time : ℕ) (as' : List ConstitutionAmendment)
    → for_each (amendment_integrity p) as' ≡ ok tt
    → amendment_lineage parent_hash time as' ≡ ok tt
    → IsLineage p parent_hash time as'
unfolding for_each amendment_lineage
amendment_lineage-IsLineage p parent_hash time [] i h = tt
amendment_lineage-IsLineage p parent_hash time (a ∷ rest) i h =
    let (admissible, i') = >>-eq-ok (amendment_integrity p a) _ i in
    let (hash, h1) = >>-eq-ok (raise_if (not (a.parent_constitution_hash == parent_hash)) _) _ h in
    let (later, h2) = >>-eq-ok (raise_if (leb a.created_at time) _) _ h1 in
    (
      ==→≡ a.parent_constitution_hash parent_hash (ground (arith, raise_if-eq-ok _ _ hash)),
      ground (arith, raise_if-eq-ok _ _ later),
      amendment_integrity-IsAdmissible p a admissible,
      amendment_lineage-IsLineage p a.amendment_hash a.created_at rest i' h2,
    )

-- What the amendments are, with a constitution and without one
abbrev pub HasLineage :
    Platform → Option ExperimentConstitution → List ConstitutionAmendment → Type 0
HasLineage p none as' = as' ≡ []
HasLineage p (some k) as' = IsLineage p k.constitution_hash k.locked_at as'

constitution_agrees-HasLineage :
    (p : Platform) (o : Option ExperimentConstitution) (x : Option ExperimentProposal)
    (a : Option HumanApproval) (as' : List ConstitutionAmendment)
    → for_each (amendment_integrity p) as' ≡ ok tt
    → constitution_agrees o x a as' ≡ ok tt
    → HasLineage p o as'
unfolding constitution_agrees
constitution_agrees-HasLineage p none x a [] i h = refl
constitution_agrees-HasLineage p none x a (b ∷ as') i h = cc
constitution_agrees-HasLineage p (some k) x a as' i h =
    let (_, h1) = >>-eq-ok (raise_if (not (is_same_proposal k.proposal x)) _) _ h in
    let (_, h2) = >>-eq-ok (raise_if (not (is_same_approval k.human_approval a)) _) _ h1 in
    amendment_lineage-IsLineage p k.constitution_hash k.locked_at as' i h2

-- The amendments of a valid case form a chain from its constitution: each names the hash of the one before
-- it, the first the constitution's hash, each is later than the one before it, and each is
-- admissible. A valid case without a constitution has no amendments.
pub validate_case-HasLineage :
    (p : Platform) (c : TribunalCase)
    → validate_case p c ≡ ok tt
    → HasLineage p c.constitution c.amendments
unfolding validate_case validate_parts governed_visibility
validate_case-HasLineage p c h =
    let integrity : for_each (amendment_integrity p) c.amendments ≡ ok tt = ground arith in
    let agrees : constitution_agrees c.constitution c.proposal c.human_approval c.amendments
        ≡ ok tt =
      ground arith in
    constitution_agrees-HasLineage p c.constitution c.proposal c.human_approval c.amendments
      integrity agrees
