-- ===== src/Audit/Policy.antt =====
-- `AuditLog._validate_policy_inputs` of src/quantforge/audit/log.py: the inputs of the verdict policy must
-- be those that the governed state of the case gives.
use quantforge_ai.Common.{
  true, not, String, List, [], ◌∷◌, ◌++◌, map, Option, none, some, value_error, Result, err,
  raise_if, for_each, ◌>>=◌, ◌>>◌, if◌then◌else◌, ◌==◌, any, same_set, bool_eq, string_eq,
}
use quantforge_ai.Domain.Enums.{
  FindingSeverity, statuses_eq, EvidenceRelationship, evidence_relationship_eq, review_decision_eq,
  corrected_inference_eq, expected_direction_eq, effect_direction_eq, gate_status_eq,
  sensitivity_eq, stability_eq, reproducibility_status_eq,
}
use quantforge_ai.Domain.Proposal.{ExperimentProposal}
use quantforge_ai.Domain.Evidence.{EvidenceObject}
use quantforge_ai.Domain.Reviews.{
  EvidenceReference, ReviewerFinding, MethodologyReview, StatisticalReview, AdversarialReview,
  ReproducibilityReview,
}
use quantforge_ai.Domain.Validate.{is_unresolved, evidence_ids_of}
use quantforge_ai.Domain.Case.{TribunalCase}
use quantforge_ai.Verdict.{VerdictInputs}
use quantforge_ai.Evidence.Ledger.{
  EvidenceLedger, id_of, snapshot, validate_reference, validate_references,
}

-- What must be there before the inputs are compared
pub record Governed : Type 0 where
  pub ledger : EvidenceLedger
  pub proposal : ExperimentProposal
  pub methodology : MethodologyReview
  pub statistical : StatisticalReview
  pub adversarial : AdversarialReview
  pub reproducibility : ReproducibilityReview

abbrev pub gather :
    Option EvidenceLedger
    → Option ExperimentProposal
    → Option MethodologyReview
    → Option StatisticalReview
    → Option AdversarialReview
    → Option ReproducibilityReview
    → Option Governed
gather (some l) (some p) (some m) (some s) (some a) (some r) = some (record {
  ledger = l;
  proposal = p;
  methodology = m;
  statistical = s;
  adversarial = a;
  reproducibility = r;
})
gather _ _ _ _ _ _ = none

unfoldable pub all_findings : Governed → List ReviewerFinding
all_findings g =
    g.methodology.findings
    ++ (g.statistical.findings ++ (g.adversarial.findings ++ g.reproducibility.findings))

-- `actual[name] != value` for the entries of `expected`, in their order
unfoldable pub compare_inputs : Governed → List EvidenceObject → VerdictInputs → Result (Unit {0})
unfolding all_findings
compare_inputs g evidence i = do
  raise_if (not (i.methodology_status == g.methodology.decision))
      (value_error "verdict input methodology_status is not derived from governed state")
  raise_if (not (i.primary_experiment_complete == true))
      (value_error "verdict input primary_experiment_complete is not derived from governed state")
  raise_if
      (not (
        i.evidence_validation_statuses
        == map (λ (e : EvidenceObject). e.validation_status) evidence))
      (value_error "verdict input evidence_validation_statuses is not derived from governed state")
  raise_if (not (i.corrected_inference == g.statistical.corrected_inference))
      (value_error "verdict input corrected_inference is not derived from governed state")
  raise_if (not (i.expected_direction == g.proposal.primary_hypothesis.expected_direction))
      (value_error "verdict input expected_direction is not derived from governed state")
  raise_if (not (i.effect_direction == g.statistical.effect_direction))
      (value_error "verdict input effect_direction is not derived from governed state")
  raise_if (not (i.practical_significance == g.statistical.practical_significance))
      (value_error "verdict input practical_significance is not derived from governed state")
  raise_if (not (i.robustness_status == g.adversarial.robustness_status))
      (value_error "verdict input robustness_status is not derived from governed state")
  raise_if (not (i.cost_sensitivity == g.adversarial.cost_sensitivity))
      (value_error "verdict input cost_sensitivity is not derived from governed state")
  raise_if (not (i.parameter_stability == g.adversarial.parameter_stability))
      (value_error "verdict input parameter_stability is not derived from governed state")
  raise_if (not (i.regime_stability == g.adversarial.regime_stability))
      (value_error "verdict input regime_stability is not derived from governed state")
  raise_if (not (i.concentration_risk == g.adversarial.concentration_risk))
      (value_error "verdict input concentration_risk is not derived from governed state")
  raise_if (not (i.reproducibility_status == g.reproducibility.status))
      (value_error "verdict input reproducibility_status is not derived from governed state")
  raise_if
      (not (
        i.unresolved_critical_findings
        == any (is_unresolved FindingSeverity.critical) (all_findings g)))
      (value_error "verdict input unresolved_critical_findings is not derived from governed state")
  raise_if
      (not (
        i.unresolved_noncritical_limitations
        == any (is_unresolved FindingSeverity.noncritical) (all_findings g)))
      (value_error
        "verdict input unresolved_noncritical_limitations is not derived from governed state")

-- The identifiers of the ledger's contradicting evidence
unfoldable pub contradicting : List EvidenceObject → List String
contradicting [] = []
contradicting (e ∷ es) =
    if e.relationship == EvidenceRelationship.contradicts
    then e.evidence_id ∷ contradicting es
    else contradicting es

-- One round of the last loop
unfoldable pub check_contradictory : EvidenceLedger → EvidenceReference → Result (Unit {0})
check_contradictory l r = do
  e ← validate_reference l r true
  raise_if (not (e.relationship == EvidenceRelationship.contradicts))
      (value_error "noncontradictory evidence is mislabeled as contradictory")

unfoldable pub compare_governed : Governed → VerdictInputs → Result (Unit {0})
unfolding compare_inputs contradicting check_contradictory
compare_governed g i = do
  s ← snapshot g.ledger
  compare_inputs g s.evidence i
  raise_if (not (same_set (evidence_ids_of i.decisive_evidence) (map id_of s.evidence)))
      (value_error "decisive policy evidence must cover the audited evidence ledger")
  validate_references g.ledger i.decisive_evidence
  raise_if (not (same_set (evidence_ids_of i.contradictory_evidence) (contradicting s.evidence)))
      (value_error "contradictory policy evidence does not match the ledger")
  for_each (check_contradictory g.ledger) i.contradictory_evidence

abbrev pub compare_gathered : Option Governed → VerdictInputs → Result (Unit {0})
compare_gathered none i = err (value_error "verdict inputs require every governed review")
compare_gathered (some g) i = compare_governed g i

unfoldable pub validate_policy_inputs :
    TribunalCase → Option EvidenceLedger → VerdictInputs → Result (Unit {0})
unfolding compare_governed
validate_policy_inputs c ledger i =
    compare_gathered
      (gather ledger c.proposal c.methodology_review c.statistical_review c.adversarial_review
        c.reproducibility_review)
      i
