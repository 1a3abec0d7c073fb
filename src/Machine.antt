-- ===== src/Machine.antt =====
-- src/quantforge/workflow/machine.py: the state machine over a case and its audit log. A method returns
-- its result beside the machine that it leaves; an exception before `self.case = new_case` leaves
-- the case, and the log as `append` leaves it.
pub mod Coherence
pub mod Progress
pub mod Reach
pub mod Refinement
use quantforge_ai.Common.{
  ℕ, Bool, true, false, not, ◌&&◌, ◌||◌, String, List, Option, none, some, is_none, is_some,
  value_error, Result, ok, err, Error, raise_if, ◌>>=◌, ◌>>◌, if◌then◌else◌, ◌==◌,
}
use quantforge_ai.Domain.Enums.{
  WorkflowState, workflow_state_eq, RoleName, ReviewDecision, review_decision_eq, Disposition,
}
use quantforge_ai.Domain.Text.{is_blank}
use quantforge_ai.Domain.Proposal.{ResearchClaim, ExperimentProposal}
use quantforge_ai.Domain.Constitution.{
  HumanApproval, human_approval_eq, ExperimentConstitution, ConstitutionAmendment,
}
use quantforge_ai.Domain.Reviews.{
  MethodologyReview, StatisticalReview, AdversarialReview, ReproducibilityReview,
  VerdictEligibility, ChairExplanation,
}
use quantforge_ai.Domain.Case.{TribunalCase, tribunal_case_eq}
use quantforge_ai.Domain.Visibility.{validated_model_update}
use quantforge_ai.Workflow.Rules.{next_state, source_eq, require_transition_authority}
use quantforge_ai.Audit.Event.{Payload, follow_up, AuditEvent, AuditPlatform}
use quantforge_ai.Audit.Log.{Entry, replay_case, append}

pub record StateMachine : Type 0 where
  pub case : TribunalCase
  pub audit_log : List AuditEvent

-- One key of the dictionary `updates`: absent, or present with a value, which may be `None`.
pub data Given {ℓ} (A : Type ℓ) : Type ℓ where
  absent : Given A
  given : A → Given A

abbrev pub apply {ℓ} : {A : Type ℓ} → Given A → A → A
apply absent old = old
apply (given new) old = new

-- `updates.get(field)`, for a field that may be `None`
abbrev pub get {ℓ} : {A : Type ℓ} → Given (Option A) → Option A
get absent = none
get (given o) = o

pub record Updates : Type 0 where
  pub case_id : Given String
  pub claim : Given ResearchClaim
  pub proposal : Given (Option ExperimentProposal)
  pub methodology_review : Given (Option MethodologyReview)
  pub human_approval : Given (Option HumanApproval)
  pub constitution : Given (Option ExperimentConstitution)
  pub amendments : Given (List ConstitutionAmendment)
  pub evidence_ids : Given (List String)
  pub statistical_review : Given (Option StatisticalReview)
  pub adversarial_review : Given (Option AdversarialReview)
  pub follow_up_disposition : Given (Option Disposition)
  pub reproducibility_review : Given (Option ReproducibilityReview)
  pub verdict_eligibility : Given (Option VerdictEligibility)
  pub chair_explanation : Given (Option ChairExplanation)

-- `data.update(changes)` of `validated_model_update`, where `changes["state"] = target`
unfoldable pub update : TribunalCase → Updates → WorkflowState → TribunalCase
update c u target = record {
  case_id = apply u.case_id c.case_id;
  state = target;
  claim = apply u.claim c.claim;
  proposal = apply u.proposal c.proposal;
  methodology_review = apply u.methodology_review c.methodology_review;
  human_approval = apply u.human_approval c.human_approval;
  constitution = apply u.constitution c.constitution;
  amendments = apply u.amendments c.amendments;
  evidence_ids = apply u.evidence_ids c.evidence_ids;
  statistical_review = apply u.statistical_review c.statistical_review;
  adversarial_review = apply u.adversarial_review c.adversarial_review;
  follow_up_disposition = apply u.follow_up_disposition c.follow_up_disposition;
  reproducibility_review = apply u.reproducibility_review c.reproducibility_review;
  verdict_eligibility = apply u.verdict_eligibility c.verdict_eligibility;
  chair_explanation = apply u.chair_explanation c.chair_explanation;
}

-- `__init__`
unfoldable pub new_machine : AuditPlatform → TribunalCase → List AuditEvent → Result StateMachine
new_machine p case log = do
  restored ← replay_case p false log
  raise_if (not (restored == case))
      (value_error "state machine case does not match its complete audited history")
  ok (record { case = case; audit_log = log })

abbrev pub is_approved_review : Option MethodologyReview → Bool
is_approved_review none = false
is_approved_review (some r) = r.decision == ReviewDecision.approved

abbrev pub is_positive : Option HumanApproval → Bool
is_positive none = false
is_positive (some a) = a.approved

unfoldable pub uses_approval :
    Option ExperimentConstitution → Option HumanApproval → Result (Unit {0})
uses_approval none recorded = err (value_error "a valid locked constitution is required")
uses_approval (some c) none = err (value_error "constitution must use the recorded approval")
uses_approval (some c) (some a) =
    raise_if (not (c.human_approval == a))
      (value_error "constitution must use the recorded approval")

abbrev pub require_field {ℓ} : {A : Type ℓ} → Given (Option A) → Result (Unit {0})
require_field g = raise_if (is_none (get g)) (value_error "transition requires a field")

-- `_validate_prerequisites`; the last clauses are the table `required_fields`
unfoldable pub validate_prerequisites : TribunalCase → WorkflowState → Updates → Result (Unit {0})
unfolding uses_approval
validate_prerequisites c WorkflowState.human_approval u = do
  raise_if (not (is_approved_review c.methodology_review))
      (value_error "human approval requires an approved methodology review")
  raise_if (not (is_positive (get u.human_approval)))
      (value_error "explicit positive human approval is required")
validate_prerequisites c WorkflowState.constitution_locked u =
    uses_approval (get u.constitution) c.human_approval
validate_prerequisites c WorkflowState.researcher_protocol_proposed u = require_field u.proposal
validate_prerequisites c WorkflowState.methodology_reviewed u = require_field u.methodology_review
validate_prerequisites c WorkflowState.statistics_reviewed u = require_field u.statistical_review
validate_prerequisites c WorkflowState.adversarial_reviewed u = require_field u.adversarial_review
validate_prerequisites c WorkflowState.reproducibility_verified u =
    require_field u.reproducibility_review
validate_prerequisites c WorkflowState.verdict_eligibility_computed u =
    require_field u.verdict_eligibility
validate_prerequisites c WorkflowState.chair_explanation u = require_field u.chair_explanation
validate_prerequisites c _ u = ok tt

-- The call of `append` and the assignment after it
abbrev commit :
    StateMachine
    → TribunalCase
    → Result AuditEvent × List AuditEvent
    → Result TribunalCase × StateMachine
commit m c (ok e, log) = (ok c, record { case = c; audit_log = log })
commit m c (err x, log) = (err x, record { case = m.case; audit_log = log })

abbrev record_case :
    AuditPlatform
    → StateMachine
    → Result TribunalCase
    → WorkflowState
    → RoleName
    → String
    → ℕ
    → Payload
    → Result TribunalCase × StateMachine
record_case p m (err x) target actor action timestamp payload = (err x, m)
record_case p m (ok c) target actor action timestamp payload = commit m c (
    append p m.audit_log (record {
      timestamp = timestamp;
      case_id = m.case.case_id;
      workflow_state = target;
      actor = actor;
      action = action;
      payload = payload;
      expected_case = some c;
    }))

-- The part of `advance` before the log is touched
unfoldable pub prepare :
    AuditPlatform → TribunalCase → WorkflowState → RoleName → String → Updates → Result TribunalCase
unfolding validate_prerequisites
prepare p c target actor action u = do
  raise_if (not (next_state c.state == some target)) (value_error "illegal workflow transition")
  raise_if (target == WorkflowState.reproducibility_verified)
      (value_error "use an explicit follow-up completion or skip operation")
  require_transition_authority (some c.state) target actor action
  validate_prerequisites c target u
  validated_model_update p.domain (update c u target)

unfoldable pub advance :
    AuditPlatform
    → StateMachine
    → WorkflowState
    → RoleName
    → String
    → ℕ
    → Payload
    → Updates
    → Result TribunalCase × StateMachine
unfolding prepare
advance p m target actor action timestamp payload u =
    record_case p m (prepare p m.case target actor action u) target actor action timestamp payload

abbrev pub follow_up_action : Disposition → String
follow_up_action Disposition.skipped = "skip_follow_up"
follow_up_action Disposition.completed = "complete_follow_up"

unfoldable pub prepare_follow_up :
    AuditPlatform
    → TribunalCase
    → Disposition
    → RoleName
    → String
    → ReproducibilityReview
    → Result TribunalCase
prepare_follow_up p c disposition actor reason review = do
  raise_if (not (c.state == WorkflowState.optional_follow_up))
      (value_error "follow-up can be resolved only from OPTIONAL_FOLLOW_UP")
  raise_if (is_blank reason) (value_error "follow-up disposition requires an explicit reason")
  require_transition_authority (some c.state) WorkflowState.reproducibility_verified actor
      (follow_up_action disposition)
  validated_model_update p.domain (record c {
    state = WorkflowState.reproducibility_verified;
    follow_up_disposition = some disposition;
    reproducibility_review = some review;
  })

unfoldable pub record_follow_up :
    AuditPlatform
    → StateMachine
    → Disposition
    → RoleName
    → String
    → ℕ
    → ReproducibilityReview
    → Result TribunalCase × StateMachine
unfolding prepare_follow_up
record_follow_up p m disposition actor reason timestamp review =
    record_case p m (prepare_follow_up p m.case disposition actor reason review)
      WorkflowState.reproducibility_verified actor (follow_up_action disposition) timestamp
      (follow_up disposition reason review)

unfoldable pub skip_follow_up :
    AuditPlatform
    → StateMachine
    → RoleName
    → String
    → ℕ
    → ReproducibilityReview
    → Result TribunalCase × StateMachine
unfolding record_follow_up
skip_follow_up p m actor reason timestamp review =
    if not (m.case.state == WorkflowState.optional_follow_up)
    then (err (value_error "follow-up can be skipped only from OPTIONAL_FOLLOW_UP"), m)
    else if is_blank reason
    then (err (value_error "follow-up skip requires an explicit reason"), m)
    else record_follow_up p m Disposition.skipped actor reason timestamp review

unfoldable pub complete_follow_up :
    AuditPlatform
    → StateMachine
    → RoleName
    → String
    → ℕ
    → ReproducibilityReview
    → Result TribunalCase × StateMachine
unfolding record_follow_up
complete_follow_up p m actor reason timestamp review =
    record_follow_up p m Disposition.completed actor reason timestamp review
