-- ===== src/Domain/Validate.antt =====
-- The validators of the claim, the proposal and the reviews, of src/quantforge/domain/models.py: the
-- `model_validator` of each, after the `min_length=1` of its tuples and after the validators of the
-- models that it holds, in the order of the fields.
use quantforge_ai.Common.{
  ℕ, Bool, not, ◌&&◌, ◌||◌, String, List, [], ◌∷◌, ◌++◌, map, Option, none, some, value_error,
  Result, ok, err, raise_if, for_each, ◌>>=◌, ◌>>◌, ltb, if◌then◌else◌, ◌==◌, any, all, contains,
  is_empty, is_unique, is_subset, bool_eq, string_eq,
}
use quantforge_ai.Domain.Enums.{
  ReviewDecision, review_decision_eq, FindingSeverity, finding_severity_eq, ChallengeStatus,
  challenge_status_eq, ChallengeType, challenge_type_eq, GateStatus, gate_status_eq, Sensitivity,
  sensitivity_eq, ReproducibilityStatus, reproducibility_status_eq,
}
use quantforge_ai.Domain.Decimal.{valid_cost_rate, positive_amount}
use quantforge_ai.Domain.Text.{is_blank}
use quantforge_ai.Domain.Proposal.{
  ClaimScope, ResearchClaim, MetricDefinition, DataRequirement, ExecutionAssumption,
  BenchmarkDefinition, FailureCriterion, ExperimentProposal,
}
use quantforge_ai.Domain.Reviews.{
  EvidenceReference, ReviewerFinding, MethodologyReview, StatisticalReview, AdversarialChallenge,
  AdversarialReview, ReproducibilityReview, VerdictEligibility, ChairExplanation,
}
use quantforge_ai.Domain.Platform.{Platform}

-- `Field(min_length=1)` of a tuple
abbrev pub min_length {ℓ} : {A : Type ℓ} → List A → Result (Unit {0})
min_length xs = raise_if (is_empty xs) (value_error "tuple should have at least 1 item")

-- The `except ValueError` around the two `date.fromisoformat` calls
abbrev pub parsed_date : Option ℕ → Result ℕ
parsed_date none = err (value_error "claim scope dates must use ISO calendar dates")
parsed_date (some n) = ok n

unfoldable pub valid_period : Platform → ClaimScope → Result (Unit {0})
valid_period p s = do
  min_length s.asset_classes
  min_length s.universe
  start ← parsed_date (p.from_iso_format s.start_date)
  end ← parsed_date (p.from_iso_format s.end_date)
  raise_if (ltb end start) (value_error "claim scope start date must not follow end date")
  raise_if (not (is_unique s.asset_classes) || not (is_unique s.universe))
      (value_error "claim scope collections must be unique")
  raise_if (any is_blank (s.asset_classes ++ s.universe))
      (value_error "claim scope collections cannot contain empty values")

unfoldable pub validate_claim : Platform → ResearchClaim → Result (Unit {0})
unfolding valid_period
validate_claim p c = valid_period p c.scope

unfoldable pub validate_assumption : ExecutionAssumption → Result (Unit {0})
validate_assumption a = do
  valid_cost_rate a.commission
  valid_cost_rate a.slippage
  positive_amount a.starting_capital

-- The list `identifiers` of `scientific_identity`
unfoldable pub component_identifiers : ExperimentProposal → List String
component_identifiers p =
    p.primary_hypothesis.hypothesis_id
    ∷ p.null_hypothesis.hypothesis_id
    ∷ (map (λ (m : MetricDefinition). m.metric_id) p.metrics
        ++ (map (λ (r : DataRequirement). r.requirement_id) p.data_requirements
            ++ (map (λ (a : ExecutionAssumption). a.assumption_id) p.execution_assumptions
                ++ (map (λ (b : BenchmarkDefinition). b.benchmark_id) p.benchmarks
                    ++ map (λ (c : FailureCriterion). c.criterion_id) p.failure_criteria))))

unfoldable pub scientific_identity : ExperimentProposal → Result (Unit {0})
unfolding component_identifiers validate_assumption
scientific_identity p = do
  min_length p.metrics
  min_length p.data_requirements
  min_length p.execution_assumptions
  for_each validate_assumption p.execution_assumptions
  min_length p.benchmarks
  min_length p.periods
  min_length p.failure_criteria
  raise_if (not (is_unique (component_identifiers p)))
      (value_error "proposal component identifiers must be unique")
  raise_if (not (any (λ (m : MetricDefinition). m.primary) p.metrics))
      (value_error "proposal requires at least one primary metric")

unfoldable pub unique_facts : EvidenceReference → Result (Unit {0})
unique_facts r =
    raise_if (not (is_unique r.numeric_fact_ids))
      (value_error "numeric fact references must be unique")

unfoldable pub validate_finding : ReviewerFinding → Result (Unit {0})
unfolding unique_facts
validate_finding f = for_each unique_facts f.evidence_references

-- `finding.severity is FindingSeverity.CRITICAL and not finding.resolved`
unfoldable pub is_unresolved : FindingSeverity → ReviewerFinding → Bool
is_unresolved severity f = f.severity == severity && not f.resolved

unfoldable pub approved_review_is_complete : MethodologyReview → Result (Unit {0})
unfolding validate_finding is_unresolved
approved_review_is_complete r = do
  for_each validate_finding r.findings
  raise_if
      (r.decision == ReviewDecision.approved
        && not (
            r.causality_checked && r.leakage_checked && r.benchmark_parity_checked
            && r.execution_assumptions_checked && r.multiple_testing_checked && r.evaluable))
      (value_error "approved methodology review requires every governance check")
  raise_if
      (r.decision == ReviewDecision.approved
        && any (is_unresolved FindingSeverity.critical) r.findings)
      (value_error "approved methodology cannot retain an unresolved critical finding")

unfoldable pub validate_statistical_review : StatisticalReview → Result (Unit {0})
unfolding validate_finding
validate_statistical_review r = for_each validate_finding r.findings

unfoldable pub validate_challenge : AdversarialChallenge → Result (Unit {0})
unfolding unique_facts
validate_challenge c = for_each unique_facts c.evidence_references

-- The summary that `challenge_summary_is_consistent` expects
unfoldable pub expected_robustness : List AdversarialChallenge → GateStatus
expected_robustness challenges =
    let statuses = map (λ (c : AdversarialChallenge). c.status) challenges in
    if contains ChallengeStatus.failed statuses
    then GateStatus.fail
    else if contains ChallengeStatus.unresolved statuses
    then GateStatus.unresolved
    else GateStatus.pass

unfoldable pub failed_cost : AdversarialChallenge → Bool
failed_cost c = c.challenge_type == ChallengeType.cost && c.status == ChallengeStatus.failed

unfoldable pub challenge_summary_is_consistent : AdversarialReview → Result (Unit {0})
unfolding validate_challenge validate_finding expected_robustness failed_cost
challenge_summary_is_consistent r = do
  min_length r.challenges
  for_each validate_challenge r.challenges
  for_each validate_finding r.findings
  raise_if (not (r.robustness_status == expected_robustness r.challenges))
      (value_error "adversarial robustness summary contradicts challenge statuses")
  raise_if (not (any failed_cost r.challenges == (r.cost_sensitivity == Sensitivity.high)))
      (value_error "cost sensitivity contradicts the cost challenge")

-- The tuple `checks` of `verified_review_is_complete`
unfoldable pub reconstruction_checks : ReproducibilityReview → List Bool
reconstruction_checks r =
    r.configuration_verified ∷ r.manifests_verified ∷ r.hashes_verified
    ∷ r.software_identity_verified ∷ r.data_lineage_verified ∷ r.evidence_complete ∷ []

unfoldable pub verified_review_is_complete : ReproducibilityReview → Result (Unit {0})
unfolding validate_finding reconstruction_checks
verified_review_is_complete r = do
  for_each validate_finding r.findings
  raise_if
      (r.status == ReproducibilityStatus.verified && not (all (λ b. b) (reconstruction_checks r)))
      (value_error "verified reproducibility requires every reconstruction check")

abbrev pub evidence_ids_of : List EvidenceReference → List String
evidence_ids_of = map (λ (r : EvidenceReference). r.evidence_id)

-- The body that `VerdictEligibility` and `VerdictInputs` share
unfoldable pub evidence_sets_are_consistent :
    List EvidenceReference → List EvidenceReference → Result (Unit {0})
evidence_sets_are_consistent decisive contradictory = do
  raise_if (not (is_unique (evidence_ids_of decisive)))
      (value_error "decisive evidence references must be unique")
  raise_if (not (is_unique (evidence_ids_of contradictory)))
      (value_error "contradictory evidence references must be unique")
  raise_if (not (is_subset (evidence_ids_of contradictory) (evidence_ids_of decisive)))
      (value_error "contradictory evidence must also be decisive evidence")

unfoldable pub validate_eligibility : VerdictEligibility → Result (Unit {0})
unfolding unique_facts evidence_sets_are_consistent
validate_eligibility e = do
  min_length e.decisive_reasons
  min_length e.decisive_evidence
  for_each unique_facts e.decisive_evidence
  for_each unique_facts e.contradictory_evidence
  evidence_sets_are_consistent e.decisive_evidence e.contradictory_evidence

unfoldable pub validate_explanation : ChairExplanation → Result (Unit {0})
unfolding unique_facts
validate_explanation e = do
  min_length e.decisive_evidence
  for_each unique_facts e.decisive_evidence
  for_each unique_facts e.contradictory_evidence
  min_length e.verdict_change_conditions
