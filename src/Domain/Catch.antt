-- ===== src/Domain/Catch.antt =====
-- The validators of src/quantforge/domain/models.py raise nothing but `ValueError`.
use quantforge_ai.Common.{ℕ, List, Option, none, some}
use quantforge_ai.Common.Catchable.{Catchable, catch_rules, returned, value}
use quantforge_ai.Domain.Decimal.{Rate, valid_cost_rate, Money, positive_amount}
use quantforge_ai.Domain.Proposal.{
  ClaimScope, ResearchClaim, ExecutionAssumption, ExperimentProposal,
}
use quantforge_ai.Domain.Constitution.{ExperimentConstitution, ConstitutionAmendment}
use quantforge_ai.Domain.Reviews.{
  EvidenceReference, ReviewerFinding, MethodologyReview, StatisticalReview, AdversarialChallenge,
  AdversarialReview, ReproducibilityReview, VerdictEligibility, ChairExplanation,
}
use quantforge_ai.Domain.Platform.{Platform}
use quantforge_ai.Domain.Validate.{
  parsed_date, valid_period, validate_claim, validate_assumption, scientific_identity, unique_facts,
  validate_finding, approved_review_is_complete, validate_statistical_review, validate_challenge,
  challenge_summary_is_consistent, verified_review_is_complete, evidence_sets_are_consistent,
  validate_eligibility, validate_explanation,
}
use quantforge_ai.Domain.Locked.{constitution_integrity, amendment_integrity}

pub valid_cost_rate-Catchable : (r : Rate) → Catchable (valid_cost_rate r)
unfolding valid_cost_rate
valid_cost_rate-Catchable r = search (catch_rules) depth 24

pub positive_amount-Catchable : (r : Money) → Catchable (positive_amount r)
unfolding positive_amount
positive_amount-Catchable r = search (catch_rules) depth 24

pub parsed_date-Catchable : (o : Option ℕ) → Catchable (parsed_date o)
parsed_date-Catchable none = value _
parsed_date-Catchable (some n) = returned n

pub valid_period-Catchable : (p : Platform) (s : ClaimScope) → Catchable (valid_period p s)
unfolding valid_period
valid_period-Catchable p s = search (catch_rules, parsed_date-Catchable) depth 24

pub validate_claim-Catchable : (p : Platform) (c : ResearchClaim) → Catchable (validate_claim p c)
unfolding validate_claim
validate_claim-Catchable p c = search (catch_rules, valid_period-Catchable) depth 24

pub validate_assumption-Catchable : (a : ExecutionAssumption) → Catchable (validate_assumption a)
unfolding validate_assumption
validate_assumption-Catchable a =
    search (catch_rules, valid_cost_rate-Catchable, positive_amount-Catchable) depth 24

pub scientific_identity-Catchable : (x : ExperimentProposal) → Catchable (scientific_identity x)
unfolding scientific_identity
scientific_identity-Catchable x = search (catch_rules, validate_assumption-Catchable) depth 24

pub unique_facts-Catchable : (r : EvidenceReference) → Catchable (unique_facts r)
unfolding unique_facts
unique_facts-Catchable r = search (catch_rules) depth 24

pub validate_finding-Catchable : (f : ReviewerFinding) → Catchable (validate_finding f)
unfolding validate_finding
validate_finding-Catchable f = search (catch_rules, unique_facts-Catchable) depth 24

pub approved_review_is_complete-Catchable :
    (r : MethodologyReview) → Catchable (approved_review_is_complete r)
unfolding approved_review_is_complete
approved_review_is_complete-Catchable r = search (catch_rules, validate_finding-Catchable) depth 24

pub validate_statistical_review-Catchable :
    (r : StatisticalReview) → Catchable (validate_statistical_review r)
unfolding validate_statistical_review
validate_statistical_review-Catchable r = search (catch_rules, validate_finding-Catchable) depth 24

pub validate_challenge-Catchable : (c : AdversarialChallenge) → Catchable (validate_challenge c)
unfolding validate_challenge
validate_challenge-Catchable c = search (catch_rules, unique_facts-Catchable) depth 24

pub challenge_summary_is_consistent-Catchable :
    (r : AdversarialReview) → Catchable (challenge_summary_is_consistent r)
unfolding challenge_summary_is_consistent
challenge_summary_is_consistent-Catchable r =
    search (catch_rules, validate_finding-Catchable, validate_challenge-Catchable) depth 24

pub verified_review_is_complete-Catchable :
    (r : ReproducibilityReview) → Catchable (verified_review_is_complete r)
unfolding verified_review_is_complete
verified_review_is_complete-Catchable r = search (catch_rules, validate_finding-Catchable) depth 24

pub evidence_sets_are_consistent-Catchable :
    (d : List EvidenceReference) (c : List EvidenceReference)
    → Catchable (evidence_sets_are_consistent d c)
unfolding evidence_sets_are_consistent
evidence_sets_are_consistent-Catchable d c = search (catch_rules) depth 24

pub validate_eligibility-Catchable : (e : VerdictEligibility) → Catchable (validate_eligibility e)
unfolding validate_eligibility
validate_eligibility-Catchable e =
    search (catch_rules, unique_facts-Catchable, evidence_sets_are_consistent-Catchable) depth 24

pub validate_explanation-Catchable : (e : ChairExplanation) → Catchable (validate_explanation e)
unfolding validate_explanation
validate_explanation-Catchable e = search (catch_rules, unique_facts-Catchable) depth 24

pub constitution_integrity-Catchable :
    (p : Platform) (c : ExperimentConstitution) → Catchable (constitution_integrity p c)
unfolding constitution_integrity
constitution_integrity-Catchable p c = search (catch_rules, scientific_identity-Catchable) depth 24

pub amendment_integrity-Catchable :
    (p : Platform) (a : ConstitutionAmendment) → Catchable (amendment_integrity p a)
unfolding amendment_integrity
amendment_integrity-Catchable p a = search (catch_rules) depth 24
