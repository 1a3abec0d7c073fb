-- ===== src/Audit/Replay.antt =====
-- `AuditLog.replay_cases` of src/quantforge/audit/log.py, after its verification of the chain: each event
-- changes the case that is rebuilt, and the ledger beside it.
use quantforge_ai.Common.{
  ℕ, false, not, ◌||◌, String, List, [], ◌∷◌, map, Option, none, some, value_error, Result, ok, err,
  raise_if, ◌>>=◌, ◌>>◌, ltb, if◌then◌else◌, ◌==◌, any, string_eq, nat_eq, eqb,
}
use quantforge_ai.Domain.Enums.{WorkflowState, Disposition, disposition_eq}
use quantforge_ai.Domain.Text.{is_blank}
use quantforge_ai.Domain.Proposal.{ResearchClaim, ExperimentProposal}
use quantforge_ai.Domain.Constitution.{ExperimentConstitution}
use quantforge_ai.Domain.Evidence.{EvidenceObject}
use quantforge_ai.Domain.Reviews.{verdict_eligibility_eq}
use quantforge_ai.Domain.Case.{TribunalCase}
use quantforge_ai.Domain.Visibility.{validated_model_update}
use quantforge_ai.Verdict.{compute}
use quantforge_ai.Evidence.Ledger.{EvidenceLedger, EvidenceLedgerSnapshot, id_of, from_snapshot}
use quantforge_ai.Audit.Event.{
  Payload, AuditEvent, AuditPlatform, follow_up_entry, follow_up, verdict, parse_claim,
  parse_proposal, parse_methodology, parse_approval, parse_constitution, parse_snapshot,
  parse_statistical, parse_adversarial, parse_reproducibility, parse_inputs, parse_eligibility,
  parse_explanation,
}
use quantforge_ai.Audit.Policy.{validate_policy_inputs}

-- The local variables `case` and `ledger` of the loop
pub record Rebuilt : Type 0 where
  pub case : TribunalCase
  pub ledger : Option EvidenceLedger

-- What a branch of the loop finds: `updates`, as the case with those fields, `ledger`, and
-- `domain_timestamps`
pub record Update : Type 0 where
  pub changed : TribunalCase
  pub ledger : Option EvidenceLedger
  pub timestamps : List ℕ

abbrev with_times : Rebuilt → TribunalCase → List ℕ → Update
with_times r c ts = record { changed = c; ledger = r.ledger; timestamps = ts }

unfoldable pub bound_ledger :
    Rebuilt
    → Option ExperimentConstitution
    → Option ExperimentProposal
    → EvidenceLedgerSnapshot
    → Result Update
bound_ledger r (some c) (some x) s = do
  raise_if
      (not (s.case_id == r.case.case_id)
        || not (s.experiment_id == x.experiment_id)
        || not (s.constitution_hash == c.constitution_hash))
      (value_error "audited evidence ledger is bound to a foreign case")
  l ← from_snapshot s (r.case.claim.claim_id ∷ [])
  ok (record {
    changed = record r.case { evidence_ids = map id_of s.evidence };
    ledger = some l;
    timestamps = map (λ (e : EvidenceObject). e.created_at) s.evidence;
  })
bound_ledger r _ _ s = err (value_error "evidence replay requires a locked constitution")

unfoldable pub read_follow_up : Rebuilt → String → Payload → Result Update
read_follow_up r action (follow_up disposition reason review) = do
  raise_if
      (not (
          disposition
          == (if action == "skip_follow_up" then Disposition.skipped else Disposition.completed))
        || is_blank reason)
      (value_error "follow-up disposition is not explicit or action-consistent")
  v ← parse_reproducibility review
  ok (
      with_times r
        (record r.case {
          follow_up_disposition = some disposition;
          reproducibility_review = some v;
        })
        (v.reviewed_at ∷ []))
read_follow_up r action _ = err (value_error "follow-up disposition payload must be an object")

unfoldable pub read_verdict : Rebuilt → Payload → Result Update
read_verdict r (verdict raw_inputs raw_eligibility) = do
  i ← parse_inputs raw_inputs
  e ← parse_eligibility raw_eligibility
  validate_policy_inputs r.case r.ledger i
  recomputed ← compute i e.eligibility_id e.computed_at
  raise_if (not (recomputed == e))
      (value_error "audited verdict does not match deterministic policy")
  ok (with_times r (record r.case { verdict_eligibility = some e }) (e.computed_at ∷ []))
read_verdict r _ = err (value_error "verdict computation payload must be an object")

unfoldable pub read_follow_up_entry : Rebuilt → Payload → Result Update
read_follow_up_entry r (follow_up_entry false) = ok (with_times r r.case [])
read_follow_up_entry r _ = err (value_error "optional follow-up entry payload is invalid")

-- The chain of `if` and `elif` over the event's state
unfoldable pub read_update :
    AuditPlatform → Rebuilt → WorkflowState → String → Payload → Result Update
unfolding bound_ledger read_follow_up read_verdict read_follow_up_entry
read_update p r WorkflowState.researcher_protocol_proposed action payload = do
  x ← parse_proposal payload
  ok (with_times r (record r.case { proposal = some x }) (x.proposed_at ∷ []))
read_update p r WorkflowState.methodology_reviewed action payload = do
  x ← parse_methodology payload
  ok (with_times r (record r.case { methodology_review = some x }) (x.reviewed_at ∷ []))
read_update p r WorkflowState.human_approval action payload = do
  x ← parse_approval payload
  ok (with_times r (record r.case { human_approval = some x }) (x.approved_at ∷ []))
read_update p r WorkflowState.constitution_locked action payload = do
  x ← parse_constitution p.domain payload
  ok (with_times r (record r.case { constitution = some x }) (x.locked_at ∷ []))
read_update p r WorkflowState.experiment_executed action payload = do
  s ← parse_snapshot p.domain payload
  bound_ledger r r.case.constitution r.case.proposal s
read_update p r WorkflowState.statistics_reviewed action payload = do
  x ← parse_statistical payload
  ok (with_times r (record r.case { statistical_review = some x }) (x.reviewed_at ∷ []))
read_update p r WorkflowState.adversarial_reviewed action payload = do
  x ← parse_adversarial payload
  ok (with_times r (record r.case { adversarial_review = some x }) (x.reviewed_at ∷ []))
read_update p r WorkflowState.optional_follow_up action payload = read_follow_up_entry r payload
read_update p r WorkflowState.reproducibility_verified action payload =
    read_follow_up r action payload
read_update p r WorkflowState.verdict_eligibility_computed action payload = read_verdict r payload
read_update p r WorkflowState.chair_explanation action payload = do
  x ← parse_explanation payload
  ok (with_times r (record r.case { chair_explanation = some x }) (x.created_at ∷ []))
read_update p r WorkflowState.claim_received action payload =
    err (value_error "unsupported workflow state during replay")

-- One round of the loop
unfoldable pub replay_event : AuditPlatform → Rebuilt → AuditEvent → Result Rebuilt
replay_event p r e = do
  u ← read_update p r e.workflow_state e.action e.payload
  raise_if (any (λ t. ltb e.timestamp t) u.timestamps)
      (value_error "audited domain object postdates its recording event")
  c ← validated_model_update p.domain (record u.changed { state = e.workflow_state })
  ok (record { case = c; ledger = u.ledger })

-- The loop; it returns the cases that it appends.
unfoldable pub replay_from : AuditPlatform → Rebuilt → List AuditEvent → Result (List TribunalCase)
replay_from p r [] = ok []
replay_from p r (e ∷ es) = do
  r' ← replay_event p r e
  cases ← replay_from p r' es
  ok (r'.case ∷ cases)

-- `TribunalCase(case_id=…, state=CLAIM_RECEIVED, claim=claim)`
unfoldable pub received : String → ResearchClaim → TribunalCase
received case_id claim = record {
  case_id = case_id;
  state = WorkflowState.claim_received;
  claim = claim;
  proposal = none;
  methodology_review = none;
  human_approval = none;
  constitution = none;
  amendments = [];
  evidence_ids = [];
  statistical_review = none;
  adversarial_review = none;
  follow_up_disposition = none;
  reproducibility_review = none;
  verdict_eligibility = none;
  chair_explanation = none;
}

-- `replay_cases` without its verification
unfoldable pub rebuild_cases : AuditPlatform → List AuditEvent → Result (List TribunalCase)
unfolding received replay_from
rebuild_cases p [] = ok []
rebuild_cases p (first ∷ es) = do
  claim ← parse_claim p.domain first.payload
  raise_if (not (eqb first.timestamp claim.submitted_at))
      (value_error "claim receipt timestamp does not match the audited claim")
  c ← validated_model_update p.domain (received first.case_id claim)
  cases ← replay_from p (record { case = c; ledger = none }) es
  ok (c ∷ cases)
