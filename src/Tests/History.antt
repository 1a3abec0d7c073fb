-- ===== src/Tests/History.antt =====
-- A whole audit log, from the claim to the Chair, its cases and its machines.
use quantforge_ai.Common.{ℕ, ◌*◌, false, String, List, [], ◌∷◌, ◌++◌, none, some, take}
use quantforge_ai.Domain.Enums.{WorkflowState, RoleName, Disposition, Verdict}
use quantforge_ai.Audit.Event.{Payload, AuditEvent, audit_id}
use quantforge_ai.Domain.Case.{TribunalCase}
use quantforge_ai.Audit.Log.{Entry}
use quantforge_ai.Machine.{StateMachine, Updates, absent, given}
use quantforge_ai.Audit.Verify.{genesis_hash}
use quantforge_ai.Tests.Samples.{
  amendment, claim, proposal, methodology, approval, constitution, snapshot, statistical,
  adversarial, reproducibility, inputs, eligibility, explanation,
}

abbrev pub event : ℕ → WorkflowState → RoleName → String → Payload → String → AuditEvent
event n state actor action payload previous = record {
  body = record {
    event_id = audit_id n;
    sequence = n;
    timestamp = 10 * n;
    case_id = "case_1";
    workflow_state = state;
    actor = actor;
    action = action;
    payload = payload;
    payload_hash = "payload";
    previous_event_hash = previous;
  };
  current_event_hash = action;
}

abbrev pub received : AuditEvent
received =
    event 1 WorkflowState.claim_received RoleName.system "receive_claim" (Payload.claim claim)
      genesis_hash

abbrev pub proposed : AuditEvent
proposed =
    event 2 WorkflowState.researcher_protocol_proposed RoleName.researcher "propose_protocol"
      (Payload.proposal proposal) "receive_claim"

-- The events after the proposal, up to the verdict
abbrev pub later : List AuditEvent
later =
    event 3 WorkflowState.methodology_reviewed RoleName.methodology_auditor "review_methodology"
      (Payload.methodology methodology) "propose_protocol"
    ∷ event 4 WorkflowState.human_approval RoleName.human_approver "record_approval"
        (Payload.approval approval) "review_methodology"
    ∷ event 5 WorkflowState.constitution_locked RoleName.system "lock_constitution"
        (Payload.constitution constitution) "record_approval"
    ∷ event 6 WorkflowState.experiment_executed RoleName.system "admit_engine_evidence"
        (Payload.ledger snapshot) "lock_constitution"
    ∷ event 7 WorkflowState.statistics_reviewed RoleName.statistical_reviewer "review_statistics"
        (Payload.statistical statistical) "admit_engine_evidence"
    ∷ event 8 WorkflowState.adversarial_reviewed RoleName.adversarial_reviewer
        "review_adversarially" (Payload.adversarial adversarial) "review_statistics"
    ∷ event 9 WorkflowState.optional_follow_up RoleName.system "enter_follow_up"
        (Payload.follow_up_entry false) "review_adversarially"
    ∷ event 10 WorkflowState.reproducibility_verified RoleName.reproducibility_reviewer
        "complete_follow_up" (Payload.follow_up Disposition.completed "replicated" reproducibility)
        "enter_follow_up"
    ∷ event 11 WorkflowState.verdict_eligibility_computed RoleName.system "compute_verdict"
        (Payload.verdict inputs eligibility) "complete_follow_up"
    ∷ []

abbrev pub explained : AuditEvent
explained =
    event 12 WorkflowState.chair_explanation RoleName.tribunal_chair "explain_verdict"
      (Payload.explanation explanation) "compute_verdict"

abbrev pub judged_history : List AuditEvent
judged_history = received ∷ proposed ∷ later

abbrev pub history : List AuditEvent
history = judged_history ++ explained ∷ []

-- The case of the whole history
abbrev pub final_case : TribunalCase
final_case = record {
  case_id = "case_1";
  state = WorkflowState.chair_explanation;
  claim = claim;
  proposal = some proposal;
  methodology_review = some methodology;
  human_approval = some approval;
  constitution = some constitution;
  amendments = [];
  evidence_ids = "evidence_1" ∷ [];
  statistical_review = some statistical;
  adversarial_review = some adversarial;
  follow_up_disposition = some Disposition.completed;
  reproducibility_review = some reproducibility;
  verdict_eligibility = some eligibility;
  chair_explanation = some explanation;
}

abbrev pub judged_case : TribunalCase
judged_case = record final_case {
  state = WorkflowState.verdict_eligibility_computed;
  chair_explanation = none;
}

abbrev pub judged_machine : StateMachine
judged_machine = record { case = judged_case; audit_log = judged_history }

abbrev pub final_machine : StateMachine
final_machine = record { case = final_case; audit_log = history }

abbrev pub explanation_update : Updates
explanation_update = record {
  case_id = absent;
  claim = absent;
  proposal = absent;
  methodology_review = absent;
  human_approval = absent;
  constitution = absent;
  amendments = absent;
  evidence_ids = absent;
  statistical_review = absent;
  adversarial_review = absent;
  follow_up_disposition = absent;
  reproducibility_review = absent;
  verdict_eligibility = absent;
  chair_explanation = given (some explanation);
}

abbrev pub explanation_entry : Entry
explanation_entry = record {
  timestamp = 120;
  case_id = "case_1";
  workflow_state = WorkflowState.chair_explanation;
  actor = RoleName.tribunal_chair;
  action = "explain_verdict";
  payload = Payload.explanation explanation;
  expected_case = some final_case;
}

-- A Chair that reports less than the computed verdict: the event is made, and the replay refuses it.
abbrev pub downgraded_entry : Entry
downgraded_entry = record explanation_entry {
  payload = Payload.explanation (record explanation { computed_verdict = Verdict.fragile });
}

-- The log up to the optional follow-up
abbrev pub open_history : List AuditEvent
open_history = take 9 judged_history

abbrev pub open_machine : StateMachine
open_machine = record {
  case = record judged_case {
    state = WorkflowState.optional_follow_up;
    follow_up_disposition = none;
    reproducibility_review = none;
    verdict_eligibility = none;
  };
  audit_log = open_history;
}

-- The final case with an amendment
abbrev pub amended_case : TribunalCase
amended_case = record final_case { amendments = amendment ∷ [] }
