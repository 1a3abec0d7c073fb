-- ===== src/Roles/Validation.antt =====
-- src/quantforge/roles/validation.py: the checks on what a role returns. The clauses of
-- `validate_content` are the branches of the chain of `if` and `elif` over the request's action.
use quantforge_ai.Common.{
  ℕ, Bool, true, false, not, ◌&&◌, ◌||◌, String, List, [], ◌∷◌, Option, none, some, value_error,
  permission_error, type_error, Result, ok, err, raise_if, for_each, ◌>>◌, any, is_empty, contains,
  is_subset, ◌==◌, string_eq, eqb,
}
use quantforge_ai.Domain.Enums.{
  workflow_state_eq, ChallengeStatus, challenge_status_eq, ReproducibilityStatus,
  reproducibility_status_eq, verdict_eq,
}
use quantforge_ai.Domain.Text.{codes, has_infix}
use quantforge_ai.Domain.Platform.{Platform}
use quantforge_ai.Domain.Proposal.{ExperimentProposal}
use quantforge_ai.Domain.Reviews.{
  EvidenceReference, references_eq, ReviewerFinding, MethodologyReview, StatisticalReview,
  AdversarialChallenge, AdversarialReview, ReproducibilityReview, VerdictEligibility,
  ChairExplanation,
}
use quantforge_ai.Domain.Case.{TribunalCase}
use quantforge_ai.Roles.Output.{
  GovernedRoleRequest, RoleOutput, collect, references_of, strings, has_type, role_contract,
}

-- `_PROHIBITED_AUTHORITY_CLAIMS`
abbrev pub prohibited_authority_claims : List String
prohibited_authority_claims =
    "human approval granted" ∷ "human approval recorded" ∷ "constitution locked"
    ∷ "constitution amended" ∷ "engine run completed" ∷ "experiment has run"
    ∷ "trusted evidence admitted" ∷ "evidence admission receipt" ∷ "workflow advanced"
    ∷ "verdict upgraded" ∷ "execute command" ∷ "run shell" ∷ "access the filesystem" ∷ "place order"
    ∷ "trading instruction" ∷ []

unfoldable pub claims_authority : List ℕ → Bool
claims_authority folded = any (λ claim. has_infix (codes claim) folded) prohibited_authority_claims

unfoldable pub reject_text : Platform → String → Result (Unit {0})
unfolding claims_authority
reject_text p text = do
  raise_if (has_infix (codes "sk-") (codes (p.casefold text)))
      (value_error "role output contains a prohibited credential-like value")
  raise_if (claims_authority (codes (p.casefold text)))
      (value_error "role output claims authority reserved to QuantForge code")

unfoldable pub reject_authority_claims : Platform → RoleOutput → Result (Unit {0})
unfolding reject_text
reject_authority_claims p output = for_each (reject_text p) (strings output)

-- One round of the loop of `_validate_references`
unfoldable pub check_reference : GovernedRoleRequest → EvidenceReference → Result (Unit {0})
check_reference request r = do
  raise_if (not (contains r.evidence_id request.evidence_references))
      (value_error "role output fabricated or substituted an evidence identifier")
  raise_if (not (is_subset r.numeric_fact_ids request.numeric_fact_references))
      (value_error "role output fabricated or substituted a numeric-fact identifier")

unfoldable pub check_references :
    GovernedRoleRequest → List EvidenceReference → Bool → Result (Unit {0})
unfolding check_reference
check_references request references required = do
  for_each (check_reference request) references
  raise_if (required && is_empty references)
      (value_error "role output omitted required supplied-evidence references")

unfoldable pub check_finding : GovernedRoleRequest → ReviewerFinding → Result (Unit {0})
unfolding check_references
check_finding request f = check_references request f.evidence_references true

unfoldable pub check_challenge : GovernedRoleRequest → AdversarialChallenge → Result (Unit {0})
unfolding check_references
check_challenge request c =
    check_references request c.evidence_references (c.status == ChallengeStatus.failed)

unfoldable pub check_proposal :
    GovernedRoleRequest → TribunalCase → ExperimentProposal → Result (Unit {0})
check_proposal request case x = do
  raise_if
      (not (x.experiment_id == request.expected_output_id)
        || not (x.claim_id == case.claim.claim_id)
        || not (eqb x.proposed_at request.effective_at))
      (value_error "researcher output substituted a code-owned identity or timestamp")
  raise_if (is_empty x.metrics || is_empty x.data_requirements || is_empty x.benchmarks)
      (value_error "researcher output omitted variables, evidence, or controls")
  raise_if (is_empty x.execution_assumptions || is_empty x.failure_criteria)
      (value_error "researcher output omitted assumptions or falsification criteria")

unfoldable pub check_methodology :
    GovernedRoleRequest → Option ExperimentProposal → MethodologyReview → Result (Unit {0})
check_methodology request none x =
    err (value_error "methodology review lacks its governed proposal")
check_methodology request (some proposal) x = do
  raise_if
      (not (x.review_id == request.expected_output_id)
        || not (x.experiment_id == proposal.experiment_id)
        || not (eqb x.reviewed_at request.effective_at))
      (value_error "methodology output substituted a code-owned identity or timestamp")
  check_references request (collect references_of x.findings) false

-- The identity and the time of a review
abbrev pub check_identity : GovernedRoleRequest → String → ℕ → String → Result (Unit {0})
check_identity request output_id at message =
    raise_if (not (output_id == request.expected_output_id) || not (eqb at request.effective_at))
      (value_error message)

unfoldable pub check_statistical : GovernedRoleRequest → StatisticalReview → Result (Unit {0})
check_statistical request x = do
  check_identity request x.review_id x.reviewed_at
      "statistical output substituted a code-owned identity or timestamp"
  raise_if (is_empty x.findings)
      (value_error "statistical output requires at least one evidence-backed finding")
  for_each (check_finding request) x.findings

unfoldable pub check_adversarial : GovernedRoleRequest → AdversarialReview → Result (Unit {0})
check_adversarial request x = do
  check_identity request x.review_id x.reviewed_at
      "adversarial output substituted a code-owned identity or timestamp"
  for_each (check_challenge request) x.challenges
  check_references request (collect references_of x.findings) false

-- `status is VERIFIED or any(checks)`
unfoldable pub asserts_verification : ReproducibilityReview → Bool
asserts_verification x =
    (x.status == ReproducibilityStatus.verified)
    || x.configuration_verified
    || x.manifests_verified
    || x.hashes_verified
    || x.software_identity_verified
    || x.data_lineage_verified
    || x.evidence_complete

unfoldable pub check_reproducibility :
    GovernedRoleRequest → ReproducibilityReview → Result (Unit {0})
check_reproducibility request x = do
  check_identity request x.review_id x.reviewed_at
      "reproducibility output substituted a code-owned identity or timestamp"
  raise_if (asserts_verification x && not request.code_owned_reproducibility_verified)
      (permission_error "provider cannot mark reproducibility without code-owned verification")
  check_references request (collect references_of x.findings) false

unfoldable pub check_explanation :
    GovernedRoleRequest → Option VerdictEligibility → ChairExplanation → Result (Unit {0})
check_explanation request none x =
    err (value_error "Chair output lacks deterministic verdict eligibility")
check_explanation request (some e) x = do
  check_identity request x.explanation_id x.created_at
      "Chair output substituted a code-owned identity or timestamp"
  raise_if (not (x.computed_verdict == e.verdict))
      (permission_error "Chair cannot alter the deterministic verdict")
  raise_if
      (not (x.decisive_evidence == e.decisive_evidence)
        || not (x.contradictory_evidence == e.contradictory_evidence))
      (permission_error "Chair cannot alter deterministic evidence sets")
  check_references request x.decisive_evidence true
  check_references request x.contradictory_evidence false

unfoldable pub validate_content :
    GovernedRoleRequest → TribunalCase → RoleOutput → Result (Unit {0})
unfolding check_proposal check_methodology check_statistical check_adversarial check_reproducibility
    check_explanation
validate_content request case (RoleOutput.proposal x) = check_proposal request case x
validate_content request case (RoleOutput.methodology x) = check_methodology request case.proposal x
validate_content request case (RoleOutput.statistical x) = check_statistical request x
validate_content request case (RoleOutput.adversarial x) = check_adversarial request x
validate_content request case (RoleOutput.reproducibility x) = check_reproducibility request x
validate_content request case (RoleOutput.explanation x) =
    check_explanation request case.verdict_eligibility x

unfoldable pub validate_role_output :
    Platform → GovernedRoleRequest → RoleOutput → TribunalCase → Result RoleOutput
unfolding role_contract reject_authority_claims validate_content
validate_role_output p request output case = do
  role_contract request.action
  raise_if (not (has_type request.action output))
      (type_error "role provider returned an unauthorized structured output type")
  raise_if (not (request.case_id == case.case_id) || not (request.workflow_state == case.state))
      (value_error "role request is bound to a foreign case or workflow state")
  reject_authority_claims p output
  validate_content request case output
  ok output
