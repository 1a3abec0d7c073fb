-- ===== src/Domain/Reviews.antt =====
-- The reviews, the verdict eligibility and the Chair's explanation, of src/quantforge/domain/models.py.
-- `VerdictEligibility.policy_version` is `Literal["1.0"]` and is left out.
use quantforge_ai.Common.{ℕ, Bool, String, List, Eq, ℕ_discrete, String-discrete}
use quantforge_ai.Domain.Enums.{
  FindingSeverity, FindingSeverity-discrete, ReviewDecision, ReviewDecision-discrete,
  EffectDirection, EffectDirection-discrete, CorrectedInference, CorrectedInference-discrete,
  ChallengeType, ChallengeType-discrete, ChallengeStatus, ChallengeStatus-discrete, GateStatus,
  GateStatus-discrete, Sensitivity, Sensitivity-discrete, Stability, Stability-discrete,
  ReproducibilityStatus, ReproducibilityStatus-discrete, Verdict, Verdict-discrete,
}

pub record EvidenceReference : Type 0 where
  pub evidence_id : String
  pub numeric_fact_ids : List String

unfoldable pub EvidenceReference-discrete : Discrete EvidenceReference
EvidenceReference-discrete = hlevel String-discrete

instance abbrev pub evidence_reference_eq : Eq EvidenceReference
evidence_reference_eq = record { dec = EvidenceReference-discrete }

pub record ReviewerFinding : Type 0 where
  pub finding_id : String
  pub severity : FindingSeverity
  pub summary : String
  pub evidence_references : List EvidenceReference
  pub resolved : Bool

unfoldable pub ReviewerFinding-discrete : Discrete ReviewerFinding
ReviewerFinding-discrete =
    hlevel (String-discrete, FindingSeverity-discrete, EvidenceReference-discrete)

pub record MethodologyReview : Type 0 where
  pub review_id : String
  pub experiment_id : String
  pub decision : ReviewDecision
  pub causality_checked : Bool
  pub leakage_checked : Bool
  pub benchmark_parity_checked : Bool
  pub execution_assumptions_checked : Bool
  pub multiple_testing_checked : Bool
  pub evaluable : Bool
  pub findings : List ReviewerFinding
  pub reviewed_at : ℕ

unfoldable pub MethodologyReview-discrete : Discrete MethodologyReview
MethodologyReview-discrete =
    hlevel (String-discrete, ReviewDecision-discrete, ReviewerFinding-discrete, ℕ_discrete)

pub record StatisticalReview : Type 0 where
  pub review_id : String
  pub effect_direction : EffectDirection
  pub corrected_inference : CorrectedInference
  pub practical_significance : Bool
  pub findings : List ReviewerFinding
  pub sample_limitations : List String
  pub reviewed_at : ℕ

unfoldable pub StatisticalReview-discrete : Discrete StatisticalReview
StatisticalReview-discrete = hlevel (
  String-discrete, EffectDirection-discrete, CorrectedInference-discrete, ReviewerFinding-discrete,
  ℕ_discrete,
)

pub record AdversarialChallenge : Type 0 where
  pub challenge_id : String
  pub challenge_type : ChallengeType
  pub description : String
  pub status : ChallengeStatus
  pub evidence_references : List EvidenceReference

unfoldable pub AdversarialChallenge-discrete : Discrete AdversarialChallenge
AdversarialChallenge-discrete =
    hlevel (
      String-discrete, ChallengeType-discrete, ChallengeStatus-discrete, EvidenceReference-discrete,
    )

pub record AdversarialReview : Type 0 where
  pub review_id : String
  pub challenges : List AdversarialChallenge
  pub robustness_status : GateStatus
  pub cost_sensitivity : Sensitivity
  pub parameter_stability : Stability
  pub regime_stability : Stability
  pub concentration_risk : Sensitivity
  pub findings : List ReviewerFinding
  pub reviewed_at : ℕ

unfoldable pub AdversarialReview-discrete : Discrete AdversarialReview
AdversarialReview-discrete = hlevel (
  String-discrete, AdversarialChallenge-discrete, GateStatus-discrete, Sensitivity-discrete,
  Stability-discrete, ReviewerFinding-discrete, ℕ_discrete,
)

pub record ReproducibilityReview : Type 0 where
  pub review_id : String
  pub status : ReproducibilityStatus
  pub configuration_verified : Bool
  pub manifests_verified : Bool
  pub hashes_verified : Bool
  pub software_identity_verified : Bool
  pub data_lineage_verified : Bool
  pub evidence_complete : Bool
  pub reconstruction_status : String
  pub findings : List ReviewerFinding
  pub reviewed_at : ℕ

unfoldable pub ReproducibilityReview-discrete : Discrete ReproducibilityReview
ReproducibilityReview-discrete =
    hlevel (String-discrete, ReproducibilityStatus-discrete, ReviewerFinding-discrete, ℕ_discrete)

pub record VerdictEligibility : Type 0 where
  pub eligibility_id : String
  pub verdict : Verdict
  pub decisive_reasons : List String
  pub decisive_evidence : List EvidenceReference
  pub contradictory_evidence : List EvidenceReference
  pub computed_at : ℕ

unfoldable pub VerdictEligibility-discrete : Discrete VerdictEligibility
VerdictEligibility-discrete =
    hlevel (String-discrete, Verdict-discrete, EvidenceReference-discrete, ℕ_discrete)

instance abbrev pub verdict_eligibility_eq : Eq VerdictEligibility
verdict_eligibility_eq = record { dec = VerdictEligibility-discrete }

pub record ChairExplanation : Type 0 where
  pub explanation_id : String
  pub computed_verdict : Verdict
  pub summary : String
  pub decisive_evidence : List EvidenceReference
  pub contradictory_evidence : List EvidenceReference
  pub limitations : List String
  pub verdict_change_conditions : List String
  pub created_at : ℕ

unfoldable pub ChairExplanation-discrete : Discrete ChairExplanation
ChairExplanation-discrete =
    hlevel (String-discrete, Verdict-discrete, EvidenceReference-discrete, ℕ_discrete)

unfoldable pub references-discrete : Discrete (List EvidenceReference)
references-discrete = hlevel EvidenceReference-discrete

instance abbrev pub references_eq : Eq (List EvidenceReference)
references_eq = record { dec = references-discrete }
