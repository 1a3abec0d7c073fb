-- ===== src/Audit/Event.antt =====
-- The audit event of src/quantforge/domain/models.py and its payload. The payload of the source is a
-- JSON value that is read as one model or another; here it is the value that it is read as, and
-- `other` where it is none. Reading reruns the validators of the model (`_parse_model` of
-- src/quantforge/audit/log.py).
use quantforge_ai.Common.{
  ℕ, Bool, String, List, ◌++◌, value_error, Result, ok, err, for_each, ◌>>◌, length, replicate, ◌-◌,
}
use quantforge_ai.Domain.Enums.{WorkflowState, RoleName, Disposition}
use quantforge_ai.Domain.Json.{JsonValue}
use quantforge_ai.Domain.Text.{codes}
use quantforge_ai.Domain.Proposal.{ResearchClaim, ExperimentProposal}
use quantforge_ai.Domain.Constitution.{HumanApproval, ExperimentConstitution}
use quantforge_ai.Domain.Reviews.{
  MethodologyReview, StatisticalReview, AdversarialReview, ReproducibilityReview,
  VerdictEligibility, ChairExplanation,
}
use quantforge_ai.Domain.Platform.{Platform}
use quantforge_ai.Domain.Validate.{
  validate_claim, scientific_identity, approved_review_is_complete, validate_statistical_review,
  challenge_summary_is_consistent, verified_review_is_complete, validate_eligibility,
  validate_explanation,
}
use quantforge_ai.Domain.Locked.{constitution_integrity, evidence_integrity}
use quantforge_ai.Serialization.CanonicalDecimal.{digits}
use quantforge_ai.Verdict.{VerdictInputs, validate_inputs}
use quantforge_ai.Evidence.Ledger.{EvidenceLedgerSnapshot, unique_and_bound}

pub data Payload : Type 0 where
  claim : ResearchClaim → Payload
  proposal : ExperimentProposal → Payload
  methodology : MethodologyReview → Payload
  approval : HumanApproval → Payload
  constitution : ExperimentConstitution → Payload
  ledger : EvidenceLedgerSnapshot → Payload
  statistical : StatisticalReview → Payload
  adversarial : AdversarialReview → Payload
  -- An object with the one key "follow_up_required"; its value is `False`, or the number 0, which Python holds equal to
  -- it, or else is another value.
  follow_up_entry : Bool → Payload
  -- `{"disposition": d, "reason": r, "reproducibility_review": v}`
  follow_up : Disposition → String → ReproducibilityReview → Payload
  -- `{"inputs": i, "eligibility": e}`
  verdict : VerdictInputs → VerdictEligibility → Payload
  explanation : ChairExplanation → Payload
  other : JsonValue → Payload

-- An event without `current_event_hash`, which is the hash of the rest. `event_id` is the list of its
-- code points.
pub record EventBody : Type 0 where
  pub event_id : List ℕ
  pub sequence : ℕ
  pub timestamp : ℕ
  pub case_id : String
  pub workflow_state : WorkflowState
  pub actor : RoleName
  pub action : String
  pub payload : Payload
  pub payload_hash : String
  pub previous_event_hash : String

pub record AuditEvent : Type 0 where
  pub body : EventBody
  pub open body use *
  pub current_event_hash : String

-- What the log takes from outside: `canonical_sha256` of a payload and of an event, and the passage
-- of a payload through JSON text, `safe_parse_json(canonical_json(payload))`, and what the constructor of
-- `AuditEvent` makes of a payload: it strips the texts in it, or refuses it.
pub record AuditPlatform : Type 0 where
  pub domain : Platform
  pub sha_payload : Payload → String
  pub sha_event : EventBody → String
  pub normalize_payload : Payload → Result Payload
  pub validate_payload : Payload → Result Payload

-- `f"audit_{sequence:06d}"`
unfoldable pub audit_id : ℕ → List ℕ
audit_id sequence =
    let ds = digits sequence in codes "audit_" ++ (replicate (6 - length ds) b'0' ++ ds)

abbrev mismatch {ℓ} : {A : Type ℓ} → Result A
mismatch = err (value_error "validation error")

unfoldable pub parse_claim : Platform → Payload → Result ResearchClaim
parse_claim p (claim x) = validate_claim p x >> ok x
parse_claim p _ = mismatch

unfoldable pub parse_proposal : Payload → Result ExperimentProposal
parse_proposal (proposal x) = scientific_identity x >> ok x
parse_proposal _ = mismatch

unfoldable pub parse_methodology : Payload → Result MethodologyReview
parse_methodology (methodology x) = approved_review_is_complete x >> ok x
parse_methodology _ = mismatch

unfoldable pub parse_approval : Payload → Result HumanApproval
parse_approval (approval x) = ok x
parse_approval _ = mismatch

unfoldable pub parse_constitution : Platform → Payload → Result ExperimentConstitution
parse_constitution p (constitution x) = constitution_integrity p x >> ok x
parse_constitution p _ = mismatch

unfoldable pub parse_snapshot : Platform → Payload → Result EvidenceLedgerSnapshot
parse_snapshot p (ledger x) =
    for_each (evidence_integrity p) x.evidence >> (unique_and_bound x >> ok x)
parse_snapshot p _ = mismatch

unfoldable pub parse_statistical : Payload → Result StatisticalReview
parse_statistical (statistical x) = validate_statistical_review x >> ok x
parse_statistical _ = mismatch

unfoldable pub parse_adversarial : Payload → Result AdversarialReview
parse_adversarial (adversarial x) = challenge_summary_is_consistent x >> ok x
parse_adversarial _ = mismatch

unfoldable pub parse_reproducibility : ReproducibilityReview → Result ReproducibilityReview
parse_reproducibility x = verified_review_is_complete x >> ok x

unfoldable pub parse_inputs : VerdictInputs → Result VerdictInputs
parse_inputs x = validate_inputs x >> ok x

unfoldable pub parse_eligibility : VerdictEligibility → Result VerdictEligibility
parse_eligibility x = validate_eligibility x >> ok x

unfoldable pub parse_explanation : Payload → Result ChairExplanation
parse_explanation (explanation x) = validate_explanation x >> ok x
parse_explanation _ = mismatch
