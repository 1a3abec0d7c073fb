-- ===== src/Verdict.antt =====
-- src/quantforge/verdict/policy.py: the inputs of the verdict policy, their validator, and the policy.
pub mod Gates
pub mod Eligibility
use quantforge_ai.Common.{
  ℕ, Bool, true, false, not, ◌&&◌, ◌||◌, String, List, [], ◌∷◌, value_error, Result, ok, raise_if,
  for_each, ◌>>◌, if◌then◌else◌, ◌==◌, any, is_empty, is_unique, string_eq,
}
use quantforge_ai.Domain.Enums.{
  ReviewDecision, review_decision_eq, ValidationStatus, validation_status_eq, CorrectedInference,
  corrected_inference_eq, ExpectedDirection, expected_direction_eq, EffectDirection,
  effect_direction_eq, GateStatus, gate_status_eq, Sensitivity, sensitivity_eq, Stability,
  stability_eq, ReproducibilityStatus, reproducibility_status_eq, Verdict,
}
use quantforge_ai.Domain.Reviews.{EvidenceReference, VerdictEligibility}
use quantforge_ai.Domain.Validate.{
  min_length, unique_facts, evidence_sets_are_consistent, validate_eligibility,
}

pub record VerdictInputs : Type 0 where
  pub methodology_status : ReviewDecision
  pub primary_experiment_complete : Bool
  pub evidence_validation_statuses : List ValidationStatus
  pub corrected_inference : CorrectedInference
  pub expected_direction : ExpectedDirection
  pub effect_direction : EffectDirection
  pub practical_significance : Bool
  pub robustness_status : GateStatus
  pub cost_sensitivity : Sensitivity
  pub parameter_stability : Stability
  pub regime_stability : Stability
  pub concentration_risk : Sensitivity
  pub reproducibility_status : ReproducibilityStatus
  pub unresolved_critical_findings : Bool
  pub contradictory_evidence : List EvidenceReference
  pub unresolved_noncritical_limitations : Bool
  pub decisive_evidence : List EvidenceReference
  pub provider_semantic_hashes : List String

unfoldable pub validate_inputs : VerdictInputs → Result (Unit {0})
validate_inputs i = do
  min_length i.evidence_validation_statuses
  for_each unique_facts i.contradictory_evidence
  min_length i.decisive_evidence
  for_each unique_facts i.decisive_evidence
  evidence_sets_are_consistent i.decisive_evidence i.contradictory_evidence
  raise_if (not (is_unique i.provider_semantic_hashes))
      (value_error "provider semantic identities must be unique")

-- `status is not ValidationStatus.VALIDATED`
abbrev pub not_validated : ValidationStatus → Bool
not_validated s = not (s == ValidationStatus.validated)

-- The conditions of the chain of `if` and `elif` in `compute`, in its order
unfoldable pub is_rejected : VerdictInputs → Bool
is_rejected i = i.methodology_status == ReviewDecision.rejected || i.unresolved_critical_findings

unfoldable pub is_incomplete : VerdictInputs → Bool
is_incomplete i =
    i.methodology_status == ReviewDecision.revision_requested
    || not i.primary_experiment_complete
    || is_empty i.evidence_validation_statuses
    || any not_validated i.evidence_validation_statuses
    || i.robustness_status == GateStatus.unresolved
    || not (i.reproducibility_status == ReproducibilityStatus.verified)

unfoldable pub is_unresolved_inference : VerdictInputs → Bool
is_unresolved_inference i =
    not (i.corrected_inference == CorrectedInference.pass)
    || not i.practical_significance
    || (i.effect_direction == EffectDirection.null || i.effect_direction == EffectDirection.mixed)

unfoldable pub is_contradicted : VerdictInputs → Bool
is_contradicted i =
    (i.expected_direction == ExpectedDirection.positive
      && i.effect_direction == EffectDirection.negative)
    || (i.expected_direction == ExpectedDirection.negative
        && i.effect_direction == EffectDirection.positive)

unfoldable pub is_fragile : VerdictInputs → Bool
is_fragile i =
    i.robustness_status == GateStatus.fail
    || i.cost_sensitivity == Sensitivity.high
    || i.parameter_stability == Stability.unstable
    || i.regime_stability == Stability.unstable
    || i.concentration_risk == Sensitivity.high
    || not (is_empty i.contradictory_evidence)

unfoldable pub is_supported : VerdictInputs → Bool
is_supported i =
    i.methodology_status == ReviewDecision.approved
    && i.robustness_status == GateStatus.pass
    && i.cost_sensitivity == Sensitivity.low
    && i.parameter_stability == Stability.stable
    && i.regime_stability == Stability.stable
    && i.concentration_risk == Sensitivity.low
    && is_empty i.contradictory_evidence
    && not i.unresolved_noncritical_limitations

-- The verdict and the reason that `compute` arrives at
unfoldable pub decide : VerdictInputs → Verdict × String
decide i =
    if is_rejected i
    then (Verdict.rejected, "methodology rejection or unresolved critical finding")
    else if is_incomplete i
    then (
      Verdict.inconclusive,
      "methodology, experiment, evidence integrity, or reproducibility gate is incomplete",
    )
    else if is_unresolved_inference i
    then (
      Verdict.inconclusive,
      "corrected inference, direction, or practical significance is unresolved",
    )
    else if is_contradicted i
    then (Verdict.rejected, "validated effect direction contradicts the primary hypothesis")
    else if is_fragile i
    then (
      Verdict.fragile, "material robustness, sensitivity, stability, or concentration gate failed",
    )
    else if is_supported i
    then (
      Verdict.supported,
      "all strict methodology, evidence, inference, robustness, and replication gates pass",
    )
    else (
      Verdict.provisionally_supported, "primary gates pass with unresolved noncritical limitations",
    )

-- The object that `compute` hands to the constructor of `VerdictEligibility`
unfoldable pub eligibility_of : VerdictInputs → String → ℕ → VerdictEligibility
eligibility_of i eligibility_id computed_at = record {
  eligibility_id = eligibility_id;
  verdict = (decide i).0;
  decisive_reasons = (decide i).1 ∷ [];
  decisive_evidence = i.decisive_evidence;
  contradictory_evidence = i.contradictory_evidence;
  computed_at = computed_at;
}

unfoldable pub compute : VerdictInputs → String → ℕ → Result VerdictEligibility
unfolding eligibility_of
compute i eligibility_id computed_at = do
  validate_eligibility (eligibility_of i eligibility_id computed_at)
  ok (eligibility_of i eligibility_id computed_at)
