-- ===== src/Audit/Verify.antt =====
-- `AuditLog.verify` of src/quantforge/audit/log.py, without the replay at its end.
use quantforge_ai.Common.{
  ℕ, suc, Bool, false, not, ◌&&◌, ◌||◌, String, List, [], ◌∷◌, Option, none, some, value_error,
  Result, ok, raise_if, ◌>>=◌, ◌>>◌, leb, eqb, ◌==◌, string_eq,
}
use quantforge_ai.Domain.Enums.{WorkflowState, workflow_state_eq}
use quantforge_ai.Domain.Locked.{same_text}
use quantforge_ai.Workflow.Rules.{require_transition_authority, source_eq}
use quantforge_ai.Audit.Event.{AuditEvent, AuditPlatform, audit_id}

-- `GENESIS_HASH`, "0" * 64
abbrev pub genesis_hash : String
genesis_hash = "0000000000000000000000000000000000000000000000000000000000000000"

-- The local variables of the loop
pub record Cursor : Type 0 where
  pub expected_sequence : ℕ
  pub case_id : String
  pub previous_hash : String
  pub previous_state : Option WorkflowState
  pub previous_timestamp : Option ℕ

-- `previous_timestamp is not None and event.timestamp <= previous_timestamp`
abbrev pub not_later : Option ℕ → ℕ → Bool
not_later none t = false
not_later (some u) t = leb t u

unfoldable pub check_event : AuditPlatform → Cursor → AuditEvent → Result (Unit {0})
check_event p c e = do
  raise_if
      (not (eqb e.sequence c.expected_sequence)
        || not (same_text e.event_id (audit_id c.expected_sequence)))
      (value_error "audit sequence gap, identifier alteration, or reordering detected")
  raise_if (not (e.case_id == c.case_id))
      (value_error "audit events from different cases cannot be concatenated")
  raise_if (not_later c.previous_timestamp e.timestamp)
      (value_error "audit timestamps must be strictly increasing")
  require_transition_authority c.previous_state e.workflow_state e.actor e.action
  raise_if (not (e.previous_event_hash == c.previous_hash))
      (value_error "audit previous-hash mismatch")
  raise_if (not (p.sha_payload e.payload == e.payload_hash))
      (value_error "audit payload hash mismatch")
  raise_if (not (p.sha_event e.body == e.current_event_hash))
      (value_error "audit event tampering detected")

unfoldable pub move : Cursor → AuditEvent → Cursor
move c e = record {
  expected_sequence = suc c.expected_sequence;
  case_id = c.case_id;
  previous_hash = e.current_event_hash;
  previous_state = some e.workflow_state;
  previous_timestamp = some e.timestamp;
}

-- The loop; it returns the last values of the variables.
unfoldable pub check_from : AuditPlatform → Cursor → List AuditEvent → Result Cursor
check_from p c [] = ok c
check_from p c (e ∷ es) = check_event p c e >> check_from p (move c e) es

unfoldable pub start : String → Cursor
start case_id = record {
  expected_sequence = 1;
  case_id = case_id;
  previous_hash = genesis_hash;
  previous_state = none;
  previous_timestamp = none;
}

-- `verify(require_complete=require_complete, replay=False)`
unfoldable pub check_chain : AuditPlatform → Bool → List AuditEvent → Result (Unit {0})
check_chain p require_complete [] =
    raise_if require_complete (value_error "complete audit chain cannot be empty")
check_chain p require_complete (e ∷ es) = do
  c ← check_from p (start e.case_id) (e ∷ es)
  raise_if (require_complete && not (c.previous_state == some WorkflowState.chair_explanation))
      (value_error "audit chain is a valid but incomplete prefix")
