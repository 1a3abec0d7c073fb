-- ===== src/Domain/Visibility.antt =====
-- `TribunalCase.governed_visibility` of src/quantforge/domain/models.py: which fields a case may hold in
-- which state, and how they agree. `validate_case` is the whole validation of a case, the models
-- that it holds included, and `validated_model_update` reruns it.
use quantforge_ai.Common.{
  ℕ, Bool, false, not, ◌&&◌, String, List, [], ◌∷◌, Option, none, some, value_error, Result, ok,
  err, raise_if, for_each, for_some, ◌>>◌, leb, ltb, ◌==◌, is_empty, is_unique, is_some, is_none,
  is_monotonic, string_eq,
}
use quantforge_ai.Domain.Enums.{WorkflowState, ReviewDecision, review_decision_eq, verdict_eq}
use quantforge_ai.Domain.Proposal.{ResearchClaim, ExperimentProposal, experiment_proposal_eq}
use quantforge_ai.Domain.Constitution.{
  HumanApproval, human_approval_eq, ExperimentConstitution, ConstitutionAmendment,
}
use quantforge_ai.Domain.Reviews.{
  MethodologyReview, StatisticalReview, AdversarialReview, ReproducibilityReview,
  VerdictEligibility, ChairExplanation, references_eq,
}
use quantforge_ai.Domain.Platform.{Platform}
use quantforge_ai.Domain.Validate.{
  validate_claim, scientific_identity, approved_review_is_complete, validate_statistical_review,
  challenge_summary_is_consistent, verified_review_is_complete, validate_eligibility,
  validate_explanation,
}
use quantforge_ai.Domain.Locked.{constitution_integrity, amendment_integrity}
use quantforge_ai.Domain.Case.{TribunalCase}

-- `list(WorkflowState).index(state)`
abbrev pub state_index : WorkflowState → ℕ
state_index WorkflowState.claim_received = 0
state_index WorkflowState.researcher_protocol_proposed = 1
state_index WorkflowState.methodology_reviewed = 2
state_index WorkflowState.human_approval = 3
state_index WorkflowState.constitution_locked = 4
state_index WorkflowState.experiment_executed = 5
state_index WorkflowState.statistics_reviewed = 6
state_index WorkflowState.adversarial_reviewed = 7
state_index WorkflowState.optional_follow_up = 8
state_index WorkflowState.reproducibility_verified = 9
state_index WorkflowState.verdict_eligibility_computed = 10
state_index WorkflowState.chair_explanation = 11

-- One round of the loop over `staged_fields`
unfoldable pub staged {ℓ} : {A : Type ℓ} → ℕ → ℕ → Option A → Result (Unit {0})
staged index introduced_at value = do
  raise_if (leb introduced_at index && is_none value)
      (value_error "workflow state requires a field")
  raise_if (ltb index introduced_at && is_some value)
      (value_error "workflow state cannot contain a future field")

unfoldable pub staged_fields : TribunalCase → Result (Unit {0})
staged_fields c = do
  staged (state_index c.state) 1 c.proposal
  staged (state_index c.state) 2 c.methodology_review
  staged (state_index c.state) 3 c.human_approval
  staged (state_index c.state) 4 c.constitution
  staged (state_index c.state) 6 c.statistical_review
  staged (state_index c.state) 7 c.adversarial_review
  staged (state_index c.state) 9 c.reproducibility_review
  staged (state_index c.state) 10 c.verdict_eligibility
  staged (state_index c.state) 11 c.chair_explanation

-- The tests of `evidence_ids` and of `follow_up_disposition`
unfoldable pub staged_evidence : TribunalCase → Result (Unit {0})
staged_evidence c = do
  raise_if (leb 5 (state_index c.state) && is_empty c.evidence_ids)
      (value_error "executed experiment requires evidence identifiers")
  raise_if (not (is_unique c.evidence_ids)) (value_error "case evidence identifiers must be unique")
  raise_if (ltb (state_index c.state) 5 && not (is_empty c.evidence_ids))
      (value_error "evidence identifiers cannot exist before experiment execution")
  raise_if (leb 9 (state_index c.state) && is_none c.follow_up_disposition)
      (value_error "reproducibility review requires explicit follow-up disposition")
  raise_if (ltb (state_index c.state) 9 && is_some c.follow_up_disposition)
      (value_error "follow-up disposition is premature")

unfoldable pub proposal_agrees : ResearchClaim → Option ExperimentProposal → Result (Unit {0})
proposal_agrees claim none = ok tt
proposal_agrees claim (some p) =
    raise_if (not (p.claim_id == claim.claim_id))
      (value_error "proposal and claim identifiers do not match")

unfoldable pub methodology_agrees :
    ℕ → Option MethodologyReview → Option ExperimentProposal → Result (Unit {0})
methodology_agrees index (some r) (some p) = do
  raise_if (not (r.experiment_id == p.experiment_id))
      (value_error "methodology review and proposal experiments do not match")
  raise_if (leb 3 index && not (r.decision == ReviewDecision.approved))
      (value_error "nonapproved methodology cannot progress")
methodology_agrees index _ _ = ok tt

unfoldable pub approval_agrees :
    Option HumanApproval → Option ExperimentProposal → Result (Unit {0})
approval_agrees (some a) (some p) = do
  raise_if (not (a.experiment_id == p.experiment_id))
      (value_error "approval and proposal experiments do not match")
  raise_if (not a.approved) (value_error "workflow progression requires positive human approval")
approval_agrees _ _ = ok tt

-- The loop over the amendments, with `parent_hash` and `previous_amendment_time`
unfoldable pub amendment_lineage : String → ℕ → List ConstitutionAmendment → Result (Unit {0})
amendment_lineage parent_hash previous_time [] = ok tt
amendment_lineage parent_hash previous_time (a ∷ rest) = do
  raise_if (not (a.parent_constitution_hash == parent_hash))
      (value_error "amendment lineage parent hash mismatch")
  raise_if (leb a.created_at previous_time)
      (value_error "amendment timestamps must be strictly append-only")
  amendment_lineage a.amendment_hash a.created_at rest

-- `a == b`, where either may be `None`
abbrev pub is_same_proposal : ExperimentProposal → Option ExperimentProposal → Bool
is_same_proposal p none = false
is_same_proposal p (some q) = p == q

abbrev pub is_same_approval : HumanApproval → Option HumanApproval → Bool
is_same_approval a none = false
is_same_approval a (some b) = a == b

unfoldable pub constitution_agrees :
    Option ExperimentConstitution
    → Option ExperimentProposal
    → Option HumanApproval
    → List ConstitutionAmendment
    → Result (Unit {0})
unfolding amendment_lineage
constitution_agrees none p h amendments =
    raise_if (not (is_empty amendments)) (value_error "amendments require a locked constitution")
constitution_agrees (some c) p h amendments = do
  raise_if (not (is_same_proposal c.proposal p))
      (value_error "case constitution does not embed the recorded proposal")
  raise_if (not (is_same_approval c.human_approval h))
      (value_error "case constitution does not embed the recorded approval")
  amendment_lineage c.constitution_hash c.locked_at amendments

unfoldable pub chair_agrees :
    Option ChairExplanation → Option VerdictEligibility → Result (Unit {0})
chair_agrees none e = ok tt
chair_agrees (some x) none =
    err (value_error "Chair explanation requires computed verdict eligibility")
chair_agrees (some x) (some e) = do
  raise_if (not (x.computed_verdict == e.verdict))
      (value_error "Chair cannot alter the computed verdict")
  raise_if (not (x.decisive_evidence == e.decisive_evidence))
      (value_error "Chair cannot change decisive policy evidence")
  raise_if (not (x.contradictory_evidence == e.contradictory_evidence))
      (value_error "Chair cannot omit or change contradictory policy evidence")

-- The time of an item that is present, in front of those that follow
abbrev pub add_time {ℓ} : {A : Type ℓ} → (A → ℕ) → Option A → List ℕ → List ℕ
add_time time none times = times
add_time time (some a) times = time a ∷ times

-- `timestamps` after the claim's
unfoldable pub domain_times : TribunalCase → List ℕ
domain_times c =
    add_time (λ (x : ExperimentProposal). x.proposed_at) c.proposal
      (add_time (λ (x : MethodologyReview). x.reviewed_at) c.methodology_review
        (add_time (λ (x : HumanApproval). x.approved_at) c.human_approval
          (add_time (λ (x : ExperimentConstitution). x.locked_at) c.constitution
            (add_time (λ (x : StatisticalReview). x.reviewed_at) c.statistical_review
              (add_time (λ (x : AdversarialReview). x.reviewed_at) c.adversarial_review
                (add_time (λ (x : ReproducibilityReview). x.reviewed_at) c.reproducibility_review
                  (add_time (λ (x : VerdictEligibility). x.computed_at) c.verdict_eligibility
                    (add_time (λ (x : ChairExplanation). x.created_at) c.chair_explanation
                      []))))))))

unfoldable pub governed_visibility : TribunalCase → Result (Unit {0})
governed_visibility c = do
  staged_fields c
  staged_evidence c
  proposal_agrees c.claim c.proposal
  methodology_agrees (state_index c.state) c.methodology_review c.proposal
  approval_agrees c.human_approval c.proposal
  constitution_agrees c.constitution c.proposal c.human_approval c.amendments
  chair_agrees c.chair_explanation c.verdict_eligibility
  raise_if (not (is_monotonic c.claim.submitted_at (domain_times c)))
      (value_error "workflow domain timestamps are not monotonic")

-- The validators of the models that a case holds
unfoldable pub validate_parts : Platform → TribunalCase → Result (Unit {0})
validate_parts p c = do
  validate_claim p c.claim
  for_some scientific_identity c.proposal
  for_some approved_review_is_complete c.methodology_review
  for_some (constitution_integrity p) c.constitution
  for_each (amendment_integrity p) c.amendments
  for_some validate_statistical_review c.statistical_review
  for_some challenge_summary_is_consistent c.adversarial_review
  for_some verified_review_is_complete c.reproducibility_review
  for_some validate_eligibility c.verdict_eligibility
  for_some validate_explanation c.chair_explanation

unfoldable pub validate_case : Platform → TribunalCase → Result (Unit {0})
validate_case p c = do validate_parts p c; governed_visibility c

-- `validated_model_update`, applied to a case whose changed fields are given anew.
unfoldable pub validated_model_update : Platform → TribunalCase → Result TribunalCase
unfolding validate_case
validated_model_update p changed = do validate_case p changed; ok changed
