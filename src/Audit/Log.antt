-- ===== src/Audit/Log.antt =====
-- The methods of `AuditLog` of src/quantforge/audit/log.py. The log is the list of its events; `append`
-- returns the log that it leaves beside its result. `write_jsonl` and `read_jsonl` are files, and
-- are not modelled.
use quantforge_ai.Common.{
  ℕ, suc, Bool, false, not, String, List, [], ◌∷◌, ◌++◌, map, Option, none, some, value_error,
  permission_error, type_error, key_error, Result, ok, err, raise_if, ◌>>=◌, ◌>>◌, leb, last?,
  length, ◌==◌, string_eq,
}
use quantforge_ai.Domain.Enums.{WorkflowState, RoleName}
use quantforge_ai.Domain.Case.{TribunalCase, tribunal_case_eq}
use quantforge_ai.Workflow.Rules.{require_transition_authority}
use quantforge_ai.Audit.Event.{Payload, EventBody, AuditEvent, AuditPlatform, audit_id}
use quantforge_ai.Audit.Verify.{genesis_hash, check_chain}
use quantforge_ai.Audit.Replay.{rebuild_cases}

unfoldable pub replay_cases : AuditPlatform → Bool → List AuditEvent → Result (List TribunalCase)
replay_cases p require_complete events = do
  check_chain p require_complete events
  rebuild_cases p events

unfoldable pub verify : AuditPlatform → Bool → List AuditEvent → Result (Unit {0})
verify p require_complete [] = check_chain p require_complete []
verify p require_complete (e ∷ es) = do
  check_chain p require_complete (e ∷ es)
  _ ← rebuild_cases p (e ∷ es)
  ok tt

abbrev pub last_case : List TribunalCase → Result TribunalCase
last_case [] = err (value_error "cannot reconstruct a case from an empty audit chain")
last_case (c ∷ []) = ok c
last_case (c ∷ d ∷ cs) = last_case (d ∷ cs)

unfoldable pub replay_case : AuditPlatform → Bool → List AuditEvent → Result TribunalCase
unfolding replay_cases
replay_case p require_complete events = do
  cases ← replay_cases p require_complete events
  last_case cases

unfoldable pub replay_states : AuditPlatform → Bool → List AuditEvent → Result (List WorkflowState)
unfolding verify
replay_states p require_complete events = do
  verify p require_complete events
  ok (map (λ (e : AuditEvent). e.workflow_state) events)

-- The arguments of `append`
pub record Entry : Type 0 where
  pub timestamp : ℕ
  pub case_id : String
  pub workflow_state : WorkflowState
  pub actor : RoleName
  pub action : String
  pub payload : Payload
  pub expected_case : Option TribunalCase

abbrev pub last_state : Option AuditEvent → Option WorkflowState
last_state none = none
last_state (some e) = some e.workflow_state

abbrev pub last_hash : Option AuditEvent → String
last_hash none = genesis_hash
last_hash (some e) = e.current_event_hash

-- `self._events and timestamp <= self._events[-1].timestamp`
abbrev pub too_early : Option AuditEvent → ℕ → Bool
too_early none t = false
too_early (some e) t = leb t e.timestamp

-- `self._events and case_id != self._events[0].case_id`
abbrev pub is_foreign : List AuditEvent → String → Bool
is_foreign [] case_id = false
is_foreign (e ∷ es) case_id = not (case_id == e.case_id)

-- `event_payload`, with the hash of it
unfoldable pub body_of : AuditPlatform → List AuditEvent → Entry → Payload → EventBody
body_of p events x normalized = record {
  event_id = audit_id (suc (length events));
  sequence = suc (length events);
  timestamp = x.timestamp;
  case_id = x.case_id;
  workflow_state = x.workflow_state;
  actor = x.actor;
  action = x.action;
  payload = normalized;
  payload_hash = p.sha_payload normalized;
  previous_event_hash = last_hash (last? events);
}

-- The event with the payload that its constructor keeps; both hashes are of the payload before that.
unfoldable pub event_of :
    AuditPlatform → List AuditEvent → Entry → (normalized validated : Payload) → AuditEvent
unfolding body_of
event_of p events x normalized validated = record {
  body = record (body_of p events x normalized) { payload = validated };
  current_event_hash = p.sha_event (body_of p events x normalized);
}

-- The part of `append` before the event is added: its checks, and the event that it makes
unfoldable pub make_event : AuditPlatform → List AuditEvent → Entry → Result AuditEvent
unfolding event_of
make_event p events x = do
  require_transition_authority (last_state (last? events)) x.workflow_state x.actor x.action
  raise_if (is_foreign events x.case_id)
      (value_error "audit events from different cases cannot be concatenated")
  raise_if (too_early (last? events) x.timestamp)
      (value_error "audit timestamps must be strictly increasing")
  normalized ← p.normalize_payload x.payload
  validated ← p.validate_payload normalized
  ok (event_of p events x normalized validated)

-- The test of `expected_case`
abbrev pub expect : Option TribunalCase → Result TribunalCase → Result (Unit {0})
expect none replayed = ok tt
expect (some c) replayed = do
  d ← replayed
  raise_if (not (d == c))
      (value_error "audit payload does not reconstruct the proposed case transition")

-- The `try` block, on the log with the new event
unfoldable pub check_extended :
    AuditPlatform → Option TribunalCase → List AuditEvent → Result (Unit {0})
unfolding verify replay_case
check_extended p expected events = do
  verify p false events
  expect expected (replay_case p false events)

-- `except (TypeError, ValueError): self._events.pop()`. Any other exception leaves the event.
abbrev pub settle :
    List AuditEvent → AuditEvent → Result (Unit {0}) → Result AuditEvent × List AuditEvent
settle events e (ok _) = (ok e, events ++ e ∷ [])
settle events e (err (value_error m)) = (err (value_error m), events)
settle events e (err (type_error m)) = (err (type_error m), events)
settle events e (err (permission_error m)) = (err (permission_error m), events ++ e ∷ [])
settle events e (err (key_error m)) = (err (key_error m), events ++ e ∷ [])

abbrev pub add_made :
    AuditPlatform
    → List AuditEvent
    → Option TribunalCase
    → Result AuditEvent
    → Result AuditEvent × List AuditEvent
add_made p events expected (err x) = (err x, events)
add_made p events expected (ok e) = settle events e (check_extended p expected (events ++ e ∷ []))

unfoldable pub append :
    AuditPlatform → List AuditEvent → Entry → Result AuditEvent × List AuditEvent
unfolding make_event check_extended
append p events x = add_made p events x.expected_case (make_event p events x)

-- `AuditLog(events)`
unfoldable pub open_log : AuditPlatform → List AuditEvent → Result (List AuditEvent)
unfolding verify
open_log p events = verify p false events >> ok events
