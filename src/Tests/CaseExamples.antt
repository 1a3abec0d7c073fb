-- ===== src/Tests/CaseExamples.antt =====
-- The theorems on the schemas, the policy, the ledger and the roles, at the case of `Samples`.
use quantforge_ai.Common.{
  ◌≡◌, refl, ◌↔◌, ◌⊎◌, true, [], ◌∷◌, some, ok, err, permission_error, ◌==◌, string_eq,
  String-discrete, contains, is_unique, is_subset, any, for_each, ◌<◌,
}
use quantforge_ai.Domain.Enums.{
  WorkflowState, RoleName, RoleName-discrete, WorkflowState-discrete, Verdict, Verdict-discrete,
  ReviewDecision,
}
use quantforge_ai.Domain.Text.{codes, has_infix, has_prefix, replace_slash}
use quantforge_ai.Domain.Reviews.{
  VerdictEligibility, EvidenceReference-discrete, references-discrete,
}
use quantforge_ai.Domain.Decimal.{is_zero, is_negative, exceeds, valid_cost_rate, positive_amount}
use quantforge_ai.Domain.Validate.{
  validate_assumption, component_identifiers, scientific_identity, unique_facts,
  evidence_sets_are_consistent, validate_eligibility, validate_explanation,
}
use quantforge_ai.Domain.Locked.{
  normalized_key, top_keys, collect_fields, collect_keys, is_forbidden, is_permitted_key,
  amendment_integrity,
}
use quantforge_ai.Domain.Governance.{IsStaged, validate_case-IsStaged}
use quantforge_ai.Domain.Amendments.{IsAdmissible, amendment_integrity-IsAdmissible}
use quantforge_ai.Domain.Lineage.{HasLineage, validate_case-HasLineage}
use quantforge_ai.Domain.Facts.{IsWitnessed, evidence_integrity-IsWitnessed}
use quantforge_ai.Domain.Factories.{Lockable, lock_constitution, lock_constitution_iff}
use quantforge_ai.Workflow.Rules.{require_transition_authority}
use quantforge_ai.Workflow.Authority.{Authorized, require_transition_authority_iff}
use quantforge_ai.Verdict.{VerdictInputs, validate_inputs, decide, compute}
use quantforge_ai.Verdict.Gates.{
  verdict_of, HasSupport, IsComplete, IsEstablished, IsUnqualified, Opposes, support_iff,
  supported_iff, rejected_iff,
}
use quantforge_ai.Verdict.Eligibility.{compute_total}
use quantforge_ai.Evidence.Ledger.{
  EvidenceLedger, new, append, lookup, store, snapshot_of, from_snapshot, validate_reference,
}
use quantforge_ai.Evidence.Ledger.Binding.{IsBound, new-IsBound, append-IsBound}
use quantforge_ai.Evidence.Ledger.Replay.{from_snapshot-snapshot_of}
use quantforge_ai.Evidence.Ledger.References.{Resolves, validate_reference_iff}
use quantforge_ai.Roles.Chair.{Explains, create_chair_explanation, create_chair_explanation_iff}
use quantforge_ai.Roles.Output.{
  RoleAction, GovernedRoleRequest, RoleOutput, collect, strings, role_contract,
}
use quantforge_ai.Roles.Validation.{
  claims_authority, reject_text, reject_authority_claims, check_reference, check_references,
  check_explanation, validate_content, validate_role_output,
}
use quantforge_ai.Roles.Advisory.{IsAdvisory, validate_role_output-IsAdvisory}
use quantforge_ai.Tests.Samples.{
  platform, proposal, approval, constitution, amendment, evidence, reference, inputs, eligibility,
  explanation,
}
use quantforge_ai.Tests.History.{amended_case, final_case, judged_case}
use quantforge_ai.Tests.Runs.{runs}

validate_case-IsStaged_example : IsStaged final_case
validate_case-IsStaged_example = validate_case-IsStaged platform final_case runs.final_valid

amendment_accepted : amendment_integrity platform amendment ≡ ok tt
unfolding amendment_integrity top_keys collect_fields collect_keys normalized_key is_forbidden
    is_permitted_key any contains codes has_infix has_prefix replace_slash ◌==◌ String-discrete
    RoleName-discrete
amendment_accepted = refl

amendment_integrity-IsAdmissible_example : IsAdmissible platform amendment
amendment_integrity-IsAdmissible_example =
    amendment_integrity-IsAdmissible platform amendment amendment_accepted

evidence_integrity-IsWitnessed_example : IsWitnessed platform evidence
evidence_integrity-IsWitnessed_example =
    evidence_integrity-IsWitnessed platform evidence runs.evidence_accepted

validate_case-HasLineage_example : HasLineage platform (some constitution) (amendment ∷ [])
validate_case-HasLineage_example = validate_case-HasLineage platform amended_case runs.amended_valid

lock_constitution_iff_example :
    (lock_constitution platform "constitution_1" proposal approval 45 ≡ ok constitution)
    ↔ Lockable platform proposal approval × (constitution ≡ constitution)
lock_constitution_iff_example =
    lock_constitution_iff platform "constitution_1" proposal approval 45 constitution

well_formed : scientific_identity proposal ≡ ok tt
unfolding scientific_identity component_identifiers validate_assumption valid_cost_rate
    positive_amount exceeds is_negative is_zero for_each is_unique contains any ◌==◌ String-discrete
well_formed = refl

-- The other proposal is a second experiment.
require_transition_authority_iff_example :
    (require_transition_authority
        (some WorkflowState.methodology_reviewed)
        WorkflowState.human_approval
        RoleName.researcher
        "record_approval"
      ≡ ok tt)
    ↔ Authorized
        (some WorkflowState.methodology_reviewed)
        WorkflowState.human_approval
        RoleName.researcher
        "record_approval"
require_transition_authority_iff_example =
    require_transition_authority_iff (some WorkflowState.methodology_reviewed)
      WorkflowState.human_approval RoleName.researcher "record_approval"

support_iff_example :
    ((verdict_of inputs ≡ Verdict.supported)
      ⊎ (verdict_of inputs ≡ Verdict.provisionally_supported))
    ↔ HasSupport inputs
support_iff_example = support_iff inputs

supported_iff_example :
    (verdict_of inputs ≡ Verdict.supported) ↔ (HasSupport inputs × IsUnqualified inputs)
supported_iff_example = supported_iff inputs

abbrev critical_inputs : VerdictInputs
critical_inputs = record inputs { unresolved_critical_findings = true }

rejected_iff_example : (verdict_of critical_inputs ≡ Verdict.rejected) ↔ (
    (ReviewDecision.approved ≡ ReviewDecision.rejected)
    ⊎ ((true ≡ true)
        ⊎ (IsComplete critical_inputs × IsEstablished critical_inputs × Opposes critical_inputs)))
rejected_iff_example = rejected_iff critical_inputs

inputs_valid : validate_inputs inputs ≡ ok tt
unfolding validate_inputs unique_facts evidence_sets_are_consistent for_each is_unique is_subset
    contains ◌==◌ String-discrete
inputs_valid = refl

compute_total_example :
    (e : VerdictEligibility) × (compute inputs "eligibility_1" 105 ≡ ok e)
    × (validate_eligibility e ≡ ok tt)
    × (e.verdict ≡ (decide inputs).0)
    × (e.decisive_evidence ≡ reference ∷ [])
    × (e.contradictory_evidence ≡ [])
compute_total_example = compute_total inputs "eligibility_1" 105 inputs_valid

abbrev pub empty_ledger : EvidenceLedger
empty_ledger = record {
  case_id = "case_1";
  experiment_id = "experiment_1";
  constitution_hash = "constitution_1";
  claim_ids = "claim_1" ∷ [];
  items = [];
  by_id = [];
}

abbrev pub ledger : EvidenceLedger
ledger = record empty_ledger { items = evidence ∷ []; by_id = ("evidence_1", evidence) ∷ [] }

empty-IsBound : IsBound empty_ledger
unfolding new
empty-IsBound = new-IsBound "case_1" "experiment_1" "constitution_1" ("claim_1" ∷ [])

evidence_appends : append empty_ledger evidence ≡ ok ledger
unfolding append lookup store is_subset contains ◌==◌ String-discrete
evidence_appends = refl

pub ledger-IsBound : IsBound ledger
ledger-IsBound = append-IsBound empty_ledger evidence empty-IsBound evidence_appends

append-IsBound_example : IsBound ledger
append-IsBound_example = append-IsBound empty_ledger evidence empty-IsBound evidence_appends

from_snapshot-snapshot_of_example : from_snapshot (snapshot_of ledger) ("claim_1" ∷ []) ≡ ok ledger
from_snapshot-snapshot_of_example = from_snapshot-snapshot_of ledger ledger-IsBound

validate_reference_iff_example :
    (validate_reference ledger reference true ≡ ok evidence) ↔ Resolves ledger reference evidence
validate_reference_iff_example = validate_reference_iff ledger reference evidence ledger-IsBound

create_chair_explanation_iff_example :
    ((create_chair_explanation "explanation_1" eligibility Verdict.supported "the claim stands" []
          ("a failed replication" ∷ [])
          115
        ≡ ok explanation)
      ↔ ((Verdict.supported ≡ Verdict.supported)
          × (validate_explanation explanation ≡ ok tt)
          × Explains "explanation_1" eligibility "the claim stands" []
              ("a failed replication" ∷ [])
              115
              explanation))
    × (4 < 4
        → create_chair_explanation "explanation_1" eligibility Verdict.supported "the claim stands"
            []
            ("a failed replication" ∷ [])
            115
          ≡ err (permission_error "Chair cannot upgrade the deterministic policy verdict"))
create_chair_explanation_iff_example =
    create_chair_explanation_iff "explanation_1" eligibility Verdict.supported "the claim stands" []
      ("a failed replication" ∷ []) 115 explanation

abbrev request : GovernedRoleRequest
request = record {
  action = RoleAction.explain_verdict;
  case_id = "case_1";
  workflow_state = WorkflowState.verdict_eligibility_computed;
  expected_output_id = "explanation_1";
  effective_at = 115;
  evidence_references = "evidence_1" ∷ [];
  numeric_fact_references = "fact_1" ∷ [];
  code_owned_reproducibility_verified = true;
}

explanation_accepted :
    validate_role_output platform request (RoleOutput.explanation explanation) judged_case
    ≡ ok (RoleOutput.explanation explanation)
unfolding validate_role_output role_contract reject_authority_claims reject_text claims_authority
    strings collect validate_content check_explanation check_references check_reference codes
    has_infix has_prefix any for_each contains is_subset ◌==◌ String-discrete WorkflowState-discrete
    Verdict-discrete EvidenceReference-discrete references-discrete
explanation_accepted = refl

validate_role_output-IsAdvisory_example :
    IsAdvisory platform request judged_case (RoleOutput.explanation explanation)
    × (RoleOutput.explanation explanation ≡ RoleOutput.explanation explanation)
validate_role_output-IsAdvisory_example =
    validate_role_output-IsAdvisory platform request (RoleOutput.explanation explanation)
      (RoleOutput.explanation explanation) judged_case explanation_accepted
