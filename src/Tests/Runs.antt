-- ===== src/Tests/Runs.antt =====
-- What the code does on the log of `History`, computed.
use quantforge_ai.Common.{
  ℕ_discrete, ◌≡◌, refl, true, false, String-discrete, ◌==◌, [], ◌∷◌, ok, err, value_error,
  contains, is_unique, is_subset, same_set, is_monotonic, any, all, for_each,
}
use quantforge_ai.Domain.Enums.{WorkflowState, WorkflowState-discrete, RoleName, RoleName-discrete}
use quantforge_ai.Domain.Text.{codes}
use quantforge_ai.Domain.Locked.{same_text}
use quantforge_ai.Workflow.Rules.{
  source-discrete, rule_by_target, require_rule, require_transition_authority,
}
use quantforge_ai.Audit.Event.{Payload, audit_id}
use quantforge_ai.Audit.Log.{
  append, make_event, event_of, body_of, check_extended, verify, replay_case,
}
use quantforge_ai.Machine.{new_machine, update, validate_prerequisites, prepare, advance}
use quantforge_ai.Workflow.Rules.{next_state, last_target}
use quantforge_ai.Audit.Verify.{check_event, move, check_from, start, check_chain}
use quantforge_ai.Serialization.CanonicalDecimal.{digits}
use quantforge_ai.Domain.Validate.{
  valid_period, validate_claim, validate_assumption, component_identifiers, scientific_identity,
  unique_facts, validate_finding, is_unresolved, approved_review_is_complete,
  validate_statistical_review, validate_challenge, expected_robustness, failed_cost,
  challenge_summary_is_consistent, reconstruction_checks, verified_review_is_complete,
  evidence_sets_are_consistent, validate_eligibility, validate_explanation,
}
use quantforge_ai.Domain.Locked.{
  constitution_integrity, evidence_integrity, get_field, has_fact, have_facts, facts_match,
}
use quantforge_ai.Domain.Visibility.{
  staged, staged_fields, staged_evidence, proposal_agrees, methodology_agrees, approval_agrees,
  amendment_lineage, constitution_agrees, chair_agrees, domain_times, governed_visibility,
  validate_parts, validate_case, validated_model_update,
}
use quantforge_ai.Domain.Decimal.{
  is_zero, is_negative, exceeds, valid_cost_rate, positive_amount, Exponent-discrete,
  Decimal-discrete, Rate-discrete, Money-discrete,
}
use quantforge_ai.Domain.Text.{is_space, is_blank}
use quantforge_ai.Evidence.Ledger.{
  unique_and_bound, new, store, validate_reference, validate_references, append_all, from_snapshot,
}
use quantforge_ai.Verdict.{
  validate_inputs, is_rejected, is_incomplete, is_unresolved_inference, is_contradicted, is_fragile,
  is_supported, decide, eligibility_of, compute,
}
use quantforge_ai.Audit.Event.{
  parse_claim, parse_proposal, parse_methodology, parse_approval, parse_constitution,
  parse_snapshot, parse_statistical, parse_adversarial, parse_reproducibility, parse_inputs,
  parse_eligibility, parse_explanation,
}
use quantforge_ai.Audit.Policy.{
  all_findings, compare_inputs, contradicting, check_contradictory, compare_governed,
  validate_policy_inputs,
}
use quantforge_ai.Audit.Replay.{
  bound_ledger, read_follow_up, read_verdict, read_follow_up_entry, read_update, replay_event,
  replay_from, rebuild_cases,
}
use quantforge_ai.Audit.Log.{replay_cases}
use quantforge_ai.Serialization.CanonicalDecimal.{
  adjusted, format_fixed, strip_leading, strip_fraction, canonical_decimal,
}
use quantforge_ai.Domain.Constitution.{
  HumanApproval-discrete, ConstitutionBody-discrete, ExperimentConstitution-discrete,
  AmendmentBody-discrete, ConstitutionAmendment-discrete,
}
use quantforge_ai.Domain.Case.{TribunalCase-discrete}
use quantforge_ai.Domain.Enums.{
  ReviewDecision-discrete, FindingSeverity-discrete, ValidationStatus-discrete,
  EvidenceRelationship-discrete, AmendmentClassification-discrete, ChallengeType-discrete,
  ChallengeStatus-discrete, ReproducibilityStatus-discrete, GateStatus-discrete,
  Sensitivity-discrete, Stability-discrete, Verdict-discrete, CorrectedInference-discrete,
  ExpectedDirection-discrete, EffectDirection-discrete, MeasureUnit-discrete, Disposition-discrete,
  statuses-discrete,
}
use quantforge_ai.Domain.Locked.{
  amendment_integrity, top_keys, collect_fields, collect_keys, normalized_key, is_forbidden,
  is_permitted_key,
}
use quantforge_ai.Domain.Text.{has_infix, has_prefix, replace_slash}
use quantforge_ai.Domain.Json.{JsonFields-discrete}
use quantforge_ai.Domain.Reviews.{
  EvidenceReference-discrete, ReviewerFinding-discrete, MethodologyReview-discrete,
  StatisticalReview-discrete, AdversarialChallenge-discrete, AdversarialReview-discrete,
  ReproducibilityReview-discrete, VerdictEligibility-discrete, ChairExplanation-discrete,
  references-discrete,
}
use quantforge_ai.Domain.Evidence.{NumericFact-discrete, EvidenceObject-discrete}
use quantforge_ai.Domain.Proposal.{
  ClaimScope-discrete, ResearchClaim-discrete, PrimaryHypothesis-discrete, NullHypothesis-discrete,
  MetricDefinition-discrete, DataRequirement-discrete, ExecutionAssumption-discrete,
  BenchmarkDefinition-discrete, FailureCriterion-discrete, ExperimentProposal-discrete,
}
use quantforge_ai.Evidence.Ledger.{lookup}
use quantforge_ai.Evidence.Ledger.{append as ledger_append}
use quantforge_ai.Evidence.Ledger.{get as ledger_get}
use quantforge_ai.Evidence.Ledger.{snapshot as ledger_snapshot}
use quantforge_ai.Audit.Replay.{received as received_case}
use quantforge_ai.Tests.Samples.{evidence, platform, audit_platform, explanation}
use quantforge_ai.Tests.History.{
  amended_case, received, proposed, explained, judged_history, history, final_case, judged_case,
  judged_machine, final_machine, explanation_update, explanation_entry, downgraded_entry,
  open_history, open_machine,
}

pub record Runs : Type 0 where
  pub history_checks : check_chain audit_platform true history ≡ ok tt
  pub history_replays : replay_case audit_platform false history ≡ ok final_case
  -- The machine opens on the history up to the verdict.
  pub judged_opens : new_machine audit_platform judged_case judged_history ≡ ok judged_machine
  -- `advance` records the Chair's explanation.
  pub chair_advances :
      advance audit_platform judged_machine WorkflowState.chair_explanation RoleName.tribunal_chair
        "explain_verdict" 120
        (Payload.explanation explanation)
        explanation_update
      ≡ (ok final_case, final_machine)
  -- The same call with the event's time in the past raises and leaves the machine.
  pub late_call_raises :
      advance audit_platform judged_machine WorkflowState.chair_explanation RoleName.tribunal_chair
        "explain_verdict" 110
        (Payload.explanation explanation)
        explanation_update
      ≡ (err (value_error "audit timestamps must be strictly increasing"), judged_machine)
  pub judged_replays : replay_case audit_platform false judged_history ≡ ok judged_case
  pub judged_checks : check_chain audit_platform false judged_history ≡ ok tt
  pub first_checks : check_chain audit_platform false (received ∷ proposed ∷ []) ≡ ok tt
  pub explanation_made : make_event audit_platform judged_history explanation_entry ≡ ok explained
  pub explanation_appends :
      append audit_platform judged_history explanation_entry ≡ (ok explained, history)
  pub downgrade_raises :
      append audit_platform judged_history downgraded_entry
      ≡ (err (value_error "Chair cannot alter the computed verdict"), judged_history)
  pub final_valid : validate_case platform final_case ≡ ok tt
  pub evidence_accepted : evidence_integrity platform evidence ≡ ok tt
  pub amended_valid : validate_case platform amended_case ≡ ok tt
  pub open_replays : replay_case audit_platform false open_history ≡ ok open_machine.case

pub runs : Runs
unfolding amendment_integrity top_keys collect_fields collect_keys normalized_key is_forbidden
    is_permitted_key has_infix has_prefix replace_slash advance prepare validate_prerequisites
    update next_state last_target append make_event event_of body_of check_extended verify
    new_machine valid_period validate_claim validate_assumption component_identifiers
    scientific_identity unique_facts validate_finding is_unresolved approved_review_is_complete
    validate_statistical_review validate_challenge expected_robustness failed_cost
    challenge_summary_is_consistent reconstruction_checks verified_review_is_complete
    evidence_sets_are_consistent validate_eligibility validate_explanation constitution_integrity
    evidence_integrity get_field same_text has_fact have_facts facts_match staged staged_fields
    staged_evidence proposal_agrees methodology_agrees approval_agrees amendment_lineage
    constitution_agrees chair_agrees domain_times governed_visibility validate_parts validate_case
    validated_model_update is_zero is_negative exceeds valid_cost_rate positive_amount
    Exponent-discrete Decimal-discrete Rate-discrete Money-discrete codes is_space is_blank
    unique_and_bound new lookup store ledger_append ledger_get validate_reference
    validate_references ledger_snapshot append_all from_snapshot validate_inputs is_rejected
    is_incomplete is_unresolved_inference is_contradicted is_fragile is_supported decide
    eligibility_of compute parse_claim parse_proposal parse_methodology parse_approval
    parse_constitution parse_snapshot parse_statistical parse_adversarial parse_reproducibility
    parse_inputs parse_eligibility parse_explanation audit_id all_findings compare_inputs
    contradicting check_contradictory compare_governed validate_policy_inputs bound_ledger
    read_follow_up read_verdict read_follow_up_entry read_update replay_event replay_from
    received_case rebuild_cases replay_cases replay_case check_event move check_from start
    check_chain source-discrete rule_by_target require_rule require_transition_authority digits
    adjusted format_fixed strip_leading strip_fraction canonical_decimal ◌==◌ String-discrete
    contains is_unique is_subset same_set is_monotonic any all for_each HumanApproval-discrete
    ConstitutionBody-discrete ExperimentConstitution-discrete AmendmentBody-discrete
    ConstitutionAmendment-discrete TribunalCase-discrete WorkflowState-discrete RoleName-discrete
    ReviewDecision-discrete FindingSeverity-discrete ValidationStatus-discrete
    EvidenceRelationship-discrete AmendmentClassification-discrete ChallengeType-discrete
    ChallengeStatus-discrete ReproducibilityStatus-discrete GateStatus-discrete Sensitivity-discrete
    Stability-discrete Verdict-discrete CorrectedInference-discrete ExpectedDirection-discrete
    EffectDirection-discrete MeasureUnit-discrete Disposition-discrete statuses-discrete
    JsonFields-discrete EvidenceReference-discrete ReviewerFinding-discrete
    MethodologyReview-discrete StatisticalReview-discrete AdversarialChallenge-discrete
    AdversarialReview-discrete ReproducibilityReview-discrete VerdictEligibility-discrete
    ChairExplanation-discrete references-discrete NumericFact-discrete EvidenceObject-discrete
    ClaimScope-discrete ResearchClaim-discrete PrimaryHypothesis-discrete NullHypothesis-discrete
    MetricDefinition-discrete DataRequirement-discrete ExecutionAssumption-discrete
    BenchmarkDefinition-discrete FailureCriterion-discrete ExperimentProposal-discrete ℕ_discrete
runs = record {
  history_checks = refl;
  history_replays = refl;
  judged_opens = refl;
  chair_advances = refl;
  late_call_raises = refl;
  judged_replays = refl;
  judged_checks = refl;
  first_checks = refl;
  explanation_made = refl;
  explanation_appends = refl;
  downgrade_raises = refl;
  final_valid = refl;
  evidence_accepted = refl;
  amended_valid = refl;
  open_replays = refl;
}
