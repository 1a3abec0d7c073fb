-- ===== src/Roles/Output.antt =====
-- What a role is asked and what it returns: `RoleAction` of src/quantforge/roles/contracts.py, the fields
-- of `GovernedRoleRequest` of src/quantforge/roles/requests.py that the validation reads, and the
-- outputs of src/quantforge/roles/governance.py, one type of output for each governed action.
use quantforge_ai.Common.{
  ℕ, Bool, true, false, String, List, [], ◌∷◌, ◌++◌, Result, ok, err, value_error,
}
use quantforge_ai.Domain.Enums.{WorkflowState}
use quantforge_ai.Domain.Proposal.{
  ExperimentProposal, MetricDefinition, DataRequirement, ExecutionAssumption, BenchmarkDefinition,
  FailureCriterion,
}
use quantforge_ai.Domain.Reviews.{
  EvidenceReference, ReviewerFinding, MethodologyReview, StatisticalReview, AdversarialChallenge,
  AdversarialReview, ReproducibilityReview, ChairExplanation,
}

pub data RoleAction : Type 0 where
  propose_protocol review_methodology review_statistics request_challenge review_reproducibility
        explain_verdict mutate_locked_protocol invent_numerical_result execute_command
        upgrade_verdict issue_trading_instruction :
      RoleAction

pub record GovernedRoleRequest : Type 0 where
  pub action : RoleAction
  pub case_id : String
  pub workflow_state : WorkflowState
  pub expected_output_id : String
  pub effective_at : ℕ
  pub evidence_references : List String
  pub numeric_fact_references : List String
  pub code_owned_reproducibility_verified : Bool

-- `RoleOutput`
pub data RoleOutput : Type 0 where
  proposal : ExperimentProposal → RoleOutput
  methodology : MethodologyReview → RoleOutput
  statistical : StatisticalReview → RoleOutput
  adversarial : AdversarialReview → RoleOutput
  reproducibility : ReproducibilityReview → RoleOutput
  explanation : ChairExplanation → RoleOutput

-- A loop that collects from each element
unfoldable pub collect {ℓ κ} : {A : Type ℓ} {B : Type κ} → (A → List B) → List A → List B
collect f [] = []
collect f (x ∷ xs) = f x ++ collect f xs

abbrev pub references_of : ReviewerFinding → List EvidenceReference
references_of f = f.evidence_references

-- `_strings`: the texts of an output, in another order. The values of its enumerations and literals, which are texts
-- too, are left out: none has a space or "sk-", and each text that is searched for has one.
abbrev pub reference_strings : EvidenceReference → List String
reference_strings r = r.evidence_id ∷ r.numeric_fact_ids

unfoldable pub finding_strings : ReviewerFinding → List String
unfolding collect
finding_strings f = f.finding_id ∷ f.summary ∷ collect reference_strings f.evidence_references

unfoldable pub challenge_strings : AdversarialChallenge → List String
unfolding collect
challenge_strings c =
    c.challenge_id ∷ c.description ∷ collect reference_strings c.evidence_references

unfoldable pub proposal_strings : ExperimentProposal → List String
unfolding collect
proposal_strings x =
    x.experiment_id
    ∷ x.claim_id
    ∷ x.primary_hypothesis.hypothesis_id
    ∷ x.primary_hypothesis.statement
    ∷ x.null_hypothesis.hypothesis_id
    ∷ x.null_hypothesis.statement
    ∷ (collect (λ (m : MetricDefinition). m.metric_id ∷ m.name ∷ m.calculation ∷ []) x.metrics
        ++ (collect (λ (d : DataRequirement). d.requirement_id ∷ d.description ∷ [])
              x.data_requirements
            ++ (collect
                  (λ (a : ExecutionAssumption).
                    a.assumption_id ∷ a.description ∷ a.starting_capital.currency ∷ [])
                  x.execution_assumptions
                ++ (collect
                      (λ (b : BenchmarkDefinition). b.benchmark_id ∷ b.name ∷ b.parity_rule ∷ [])
                      x.benchmarks
                    ++ (x.periods
                        ++ (x.exclusions
                            ++ collect
                                (λ (f : FailureCriterion). f.criterion_id ∷ f.description ∷ [])
                                x.failure_criteria))))))

unfoldable pub strings : RoleOutput → List String
unfolding proposal_strings finding_strings challenge_strings
strings (RoleOutput.proposal x) = proposal_strings x
strings (RoleOutput.methodology x) =
    x.review_id ∷ x.experiment_id ∷ collect finding_strings x.findings
strings (RoleOutput.statistical x) =
    x.review_id ∷ (collect finding_strings x.findings ++ x.sample_limitations)
strings (RoleOutput.adversarial x) =
    x.review_id ∷ (collect challenge_strings x.challenges ++ collect finding_strings x.findings)
strings (RoleOutput.reproducibility x) =
    x.review_id ∷ x.reconstruction_status ∷ collect finding_strings x.findings
strings (RoleOutput.explanation x) =
    x.explanation_id
    ∷ x.summary
    ∷ (collect reference_strings x.decisive_evidence
        ++ (collect reference_strings x.contradictory_evidence
            ++ (x.limitations ++ x.verdict_change_conditions)))

-- `type(output) is contract.output_type`
abbrev pub has_type : RoleAction → RoleOutput → Bool
has_type RoleAction.propose_protocol (RoleOutput.proposal _) = true
has_type RoleAction.review_methodology (RoleOutput.methodology _) = true
has_type RoleAction.review_statistics (RoleOutput.statistical _) = true
has_type RoleAction.request_challenge (RoleOutput.adversarial _) = true
has_type RoleAction.review_reproducibility (RoleOutput.reproducibility _) = true
has_type RoleAction.explain_verdict (RoleOutput.explanation _) = true
has_type _ _ = false

-- `role_contract`, which raises for an action that has no contract
unfoldable pub role_contract : RoleAction → Result (Unit {0})
role_contract RoleAction.mutate_locked_protocol = err (value_error "no governed role contract")
role_contract RoleAction.invent_numerical_result = err (value_error "no governed role contract")
role_contract RoleAction.execute_command = err (value_error "no governed role contract")
role_contract RoleAction.upgrade_verdict = err (value_error "no governed role contract")
role_contract RoleAction.issue_trading_instruction = err (value_error "no governed role contract")
role_contract _ = ok tt
