-- ===== src/Domain/CatchCase.antt =====
-- The validators of evidence and of the whole case (src/quantforge/domain/models.py) raise nothing but
-- `ValueError`.
use quantforge_ai.Common.{ℕ, List, [], ◌∷◌, Option, none, some, String, true}
use quantforge_ai.Common.Catchable.{
  Catchable, catch_rules, returned, value, Catchable-bind, if-Catchable,
}
use quantforge_ai.Domain.Decimal.{Decimal, is_zero}
use quantforge_ai.Domain.Json.{JsonValue, JsonFields}
use quantforge_ai.Domain.Proposal.{ResearchClaim, ExperimentProposal}
use quantforge_ai.Domain.Constitution.{HumanApproval, ExperimentConstitution, ConstitutionAmendment}
use quantforge_ai.Domain.Reviews.{MethodologyReview, VerdictEligibility, ChairExplanation}
use quantforge_ai.Domain.Evidence.{NumericFact, EvidenceObject}
use quantforge_ai.Domain.Case.{TribunalCase}
use quantforge_ai.Domain.Platform.{Platform}
use quantforge_ai.Domain.Locked.{has_fact, have_facts, facts_match, evidence_integrity}
use quantforge_ai.Domain.Visibility.{
  staged, staged_fields, staged_evidence, proposal_agrees, methodology_agrees, approval_agrees,
  amendment_lineage, constitution_agrees, chair_agrees, governed_visibility, validate_parts,
  validate_case, validated_model_update,
}
use quantforge_ai.Domain.Catch.{
  validate_claim-Catchable, scientific_identity-Catchable, approved_review_is_complete-Catchable,
  constitution_integrity-Catchable, amendment_integrity-Catchable,
  validate_statistical_review-Catchable, challenge_summary_is_consistent-Catchable,
  verified_review_is_complete-Catchable, validate_eligibility-Catchable,
  validate_explanation-Catchable,
}
use quantforge_ai.Serialization.CanonicalDecimal.{canonical_decimal}

pub canonical_decimal-Catchable : (d : Decimal) → Catchable (canonical_decimal d)
unfolding canonical_decimal
canonical_decimal-Catchable d =
    if-Catchable (is_zero d) _ _ (returned _) (if-Catchable _ _ _ (value _) (returned _))

pub has_fact-Catchable : (fields : JsonFields) (f : NumericFact) → Catchable (has_fact fields f)
unfolding has_fact
has_fact-Catchable fields f = search (catch_rules, canonical_decimal-Catchable) depth 24

pub have_facts-Catchable :
    (fields : JsonFields) (fs : List NumericFact) → Catchable (have_facts fields fs)
unfolding have_facts
have_facts-Catchable fields [] = returned true
have_facts-Catchable fields (f ∷ fs) =
    Catchable-bind _ _ (has_fact-Catchable fields f)
      (λ _. Catchable-bind _ _ (have_facts-Catchable fields fs) (λ _. returned _))

pub facts_match-Catchable :
    (o : Option JsonValue) (fs : List NumericFact) → Catchable (facts_match o fs)
unfolding facts_match
facts_match-Catchable (some (JsonValue.object fields)) fs =
    search (catch_rules, have_facts-Catchable) depth 24
facts_match-Catchable _ fs = search (catch_rules, have_facts-Catchable) depth 24

pub evidence_integrity-Catchable :
    (p : Platform) (e : EvidenceObject) → Catchable (evidence_integrity p e)
unfolding evidence_integrity
evidence_integrity-Catchable p e = search (catch_rules, facts_match-Catchable) depth 24

pub staged-Catchable {ℓ} :
    {A : Type ℓ} (index introduced_at : ℕ) (o : Option A) → Catchable (staged index introduced_at o)
unfolding staged
staged-Catchable index introduced_at o = search catch_rules

pub staged_fields-Catchable : (c : TribunalCase) → Catchable (staged_fields c)
unfolding staged_fields
staged_fields-Catchable c = search (catch_rules, staged-Catchable) depth 24

pub staged_evidence-Catchable : (c : TribunalCase) → Catchable (staged_evidence c)
unfolding staged_evidence
staged_evidence-Catchable c = search (catch_rules) depth 24

pub proposal_agrees-Catchable :
    (claim : ResearchClaim) (o : Option ExperimentProposal) → Catchable (proposal_agrees claim o)
unfolding proposal_agrees
proposal_agrees-Catchable claim none = returned tt
proposal_agrees-Catchable claim (some x) = search (catch_rules) depth 24

pub methodology_agrees-Catchable :
    (index : ℕ) (o : Option MethodologyReview) (x : Option ExperimentProposal)
    → Catchable (methodology_agrees index o x)
unfolding methodology_agrees
methodology_agrees-Catchable index (some r) (some x) = search (catch_rules) depth 24
methodology_agrees-Catchable index _ _ = returned tt

pub approval_agrees-Catchable :
    (o : Option HumanApproval) (x : Option ExperimentProposal) → Catchable (approval_agrees o x)
unfolding approval_agrees
approval_agrees-Catchable (some r) (some x) = search (catch_rules) depth 24
approval_agrees-Catchable _ _ = returned tt

pub amendment_lineage-Catchable :
    (h : String) (t : ℕ) (l : List ConstitutionAmendment) → Catchable (amendment_lineage h t l)
unfolding amendment_lineage
amendment_lineage-Catchable h t [] = returned tt
amendment_lineage-Catchable h t (a ∷ l) =
    search (catch_rules, amendment_lineage-Catchable a.amendment_hash a.created_at l) depth 24

pub constitution_agrees-Catchable :
    (c : Option ExperimentConstitution) (x : Option ExperimentProposal) (h : Option HumanApproval)
    (l : List ConstitutionAmendment)
    → Catchable (constitution_agrees c x h l)
unfolding constitution_agrees
constitution_agrees-Catchable none x h l = search (catch_rules) depth 24
constitution_agrees-Catchable (some c) x h l =
    search (catch_rules, amendment_lineage-Catchable) depth 24

pub chair_agrees-Catchable :
    (x : Option ChairExplanation) (e : Option VerdictEligibility) → Catchable (chair_agrees x e)
unfolding chair_agrees
chair_agrees-Catchable none e = returned tt
chair_agrees-Catchable (some x) none = value _
chair_agrees-Catchable (some x) (some e) = search (catch_rules) depth 24

pub governed_visibility-Catchable : (c : TribunalCase) → Catchable (governed_visibility c)
unfolding governed_visibility
governed_visibility-Catchable c =
    search
      (
        catch_rules, staged_fields-Catchable, staged_evidence-Catchable, proposal_agrees-Catchable,
        methodology_agrees-Catchable, approval_agrees-Catchable, constitution_agrees-Catchable,
        chair_agrees-Catchable,
      )
      depth 24

pub validate_parts-Catchable : (p : Platform) (c : TribunalCase) → Catchable (validate_parts p c)
unfolding validate_parts
validate_parts-Catchable p c =
    search
      (
        catch_rules, validate_claim-Catchable, scientific_identity-Catchable,
        approved_review_is_complete-Catchable, constitution_integrity-Catchable,
        amendment_integrity-Catchable, validate_statistical_review-Catchable,
        challenge_summary_is_consistent-Catchable, verified_review_is_complete-Catchable,
        validate_eligibility-Catchable, validate_explanation-Catchable,
      )
      depth 30

pub validate_case-Catchable : (p : Platform) (c : TribunalCase) → Catchable (validate_case p c)
unfolding validate_case
validate_case-Catchable p c =
    search (catch_rules, validate_parts-Catchable, governed_visibility-Catchable) depth 24

pub validated_model_update-Catchable :
    (p : Platform) (c : TribunalCase) → Catchable (validated_model_update p c)
unfolding validated_model_update
validated_model_update-Catchable p c = search (catch_rules, validate_case-Catchable) depth 24
