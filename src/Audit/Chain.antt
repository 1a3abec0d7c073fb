-- ===== src/Audit/Chain.antt =====
-- What a chain that `AuditLog.verify` of src/quantforge/audit/log.py accepts says of its events.
use quantforge_ai.Common.{
  suc, ◌<◌, ◌≡◌, sym, ◌∙◌, Bool, true, false, String, List, [], ◌∷◌, ok, >>-eq-ok, >>=-eq-ok, ◌==◌,
  ==→≡, string_eq, All, arith,
}
use quantforge_ai.Domain.Enums.{WorkflowState}
use quantforge_ai.Domain.Visibility.{state_index}
use quantforge_ai.Workflow.Rules.{require_transition_authority}
use quantforge_ai.Workflow.Authority.{
  Authorized, require_transition_authority_iff, IsNext, Authorized-IsNext,
}
use quantforge_ai.Audit.Event.{AuditEvent, AuditPlatform}
use quantforge_ai.Audit.Verify.{
  Cursor, not_later, check_event, move, check_from, start, check_chain,
}

-- What the loop has checked of one event
pub record Linked (p : AuditPlatform) (c : Cursor) (e : AuditEvent) : Type 0 where
  pub sequence : e.sequence ≡ c.expected_sequence
  pub case : e.case_id ≡ c.case_id
  pub later : not_later c.previous_timestamp e.timestamp ≡ false
  pub authorized : Authorized c.previous_state e.workflow_state e.actor e.action
  pub previous : e.previous_event_hash ≡ c.previous_hash
  pub payload : p.sha_payload e.payload ≡ e.payload_hash
  pub hash : p.sha_event e.body ≡ e.current_event_hash

event_tests :
    (p : AuditPlatform) (c : Cursor) (e : AuditEvent)
    → check_event p c e ≡ ok tt
    → (e.sequence ≡ c.expected_sequence)
      × ((e.case_id == c.case_id) ≡ true)
      × (not_later c.previous_timestamp e.timestamp ≡ false)
      × (require_transition_authority c.previous_state e.workflow_state e.actor e.action ≡ ok tt)
      × ((e.previous_event_hash == c.previous_hash) ≡ true)
      × ((p.sha_payload e.payload == e.payload_hash) ≡ true)
      × ((p.sha_event e.body == e.current_event_hash) ≡ true)
unfolding check_event
event_tests p c e h = ground arith

check_event-Linked :
    (p : AuditPlatform) (c : Cursor) (e : AuditEvent) → check_event p c e ≡ ok tt → Linked p c e
check_event-Linked p c e h =
    let (s, i, l, a, v, d, k) = event_tests p c e h in
    record {
      sequence = s;
      case = ==→≡ e.case_id c.case_id i;
      later = l;
      authorized =
          (require_transition_authority_iff c.previous_state e.workflow_state e.actor e.action).0 a;
      previous = ==→≡ e.previous_event_hash c.previous_hash v;
      payload = ==→≡ (p.sha_payload e.payload) e.payload_hash d;
      hash = ==→≡ (p.sha_event e.body) e.current_event_hash k;
    }

-- A chain of linked events, from a position of the loop
abbrev pub Chain : AuditPlatform → Cursor → List AuditEvent → Type 0
Chain p c [] = Unit
Chain p c (e ∷ es) = Linked p c e × Chain p (move c e) es

check_from-Chain :
    (p : AuditPlatform) (c : Cursor) (es : List AuditEvent) {d : Cursor}
    → check_from p c es ≡ ok d
    → Chain p c es
unfolding check_from
check_from-Chain p c [] h = tt
check_from-Chain p c (e ∷ es) h =
    let (k, r) = >>-eq-ok (check_event p c e) (check_from p (move c e) es) h in
    (check_event-Linked p c e k, check_from-Chain p (move c e) es r)

-- The statement that a log is a verified chain, with its first event's case
abbrev pub IsChain : AuditPlatform → List AuditEvent → Type 0
IsChain p [] = Unit
IsChain p (e ∷ es) = Chain p (start e.case_id) (e ∷ es)

loop_of_check :
    (p : AuditPlatform) (require_complete : Bool) (e : AuditEvent) (es : List AuditEvent)
    → check_chain p require_complete (e ∷ es) ≡ ok tt
    → (d : Cursor) × (check_from p (start e.case_id) (e ∷ es) ≡ ok d)
unfolding check_chain
loop_of_check p b e es h =
    let (d, k, _) = >>=-eq-ok (check_from p (start e.case_id) (e ∷ es)) _ h in (d, k)

-- In a verified log each event carries the next number and the case of the first, is later than the one
-- before it, makes a documented transition from its state by the actor and action of that transition,
-- has the hash of the one before it, and has the digests of its payload and of its own body.
pub check_chain-IsChain :
    (p : AuditPlatform) (require_complete : Bool) (es : List AuditEvent)
    → check_chain p require_complete es ≡ ok tt
    → IsChain p es
check_chain-IsChain p b [] h = tt
check_chain-IsChain p b (e ∷ es) h =
    let (d, k) = loop_of_check p b e es h in check_from-Chain p (start e.case_id) (e ∷ es) k

-- The position of the loop agrees with the state of the last event.
abbrev AtStep : Cursor → Type 0
AtStep c =
    (s : WorkflowState) → IsNext c.previous_state s → suc (state_index s) ≡ c.expected_sequence

step_AtStep :
    (c : Cursor) (e : AuditEvent)
    → suc (state_index e.workflow_state) ≡ c.expected_sequence
    → AtStep (move c e)
unfolding move
step_AtStep c e h s n = omega arith

-- The events of a chain stand in the order of the workflow, one for each state.
abbrev pub InOrder : List AuditEvent → Type 0
InOrder = All (λ (e : AuditEvent). e.sequence ≡ suc (state_index e.workflow_state))

Chain-InOrder :
    (p : AuditPlatform) (c : Cursor) (es : List AuditEvent) → AtStep c → Chain p c es → InOrder es
Chain-InOrder p c [] a h = tt
Chain-InOrder p c (e ∷ es) a (l, h) =
    let k = a e.workflow_state (Authorized-IsNext l.authorized) in
    (l.sequence ∙ sym k, Chain-InOrder p (move c e) es (step_AtStep c e k) h)

start-AtStep : (case_id : String) → AtStep (start case_id)
unfolding start
start-AtStep case_id s n = omega arith

-- Timestamps increase strictly from event to event.
abbrev pub Increasing : List AuditEvent → Type 0
Increasing [] = Unit
Increasing (e ∷ []) = Unit
Increasing (e ∷ d ∷ es) = (e.timestamp < d.timestamp) × Increasing (d ∷ es)

later_of_move :
    (p : AuditPlatform) (c : Cursor) (e d : AuditEvent)
    → Linked p (move c e) d
    → e.timestamp < d.timestamp
unfolding move
later_of_move p c e d l = ground (arith, l.later)

Chain-Increasing :
    (p : AuditPlatform) (c : Cursor) (es : List AuditEvent) → Chain p c es → Increasing es
Chain-Increasing p c [] h = tt
Chain-Increasing p c (e ∷ []) h = tt
Chain-Increasing p c (e ∷ d ∷ es) (l, (m, h)) =
    (later_of_move p c e d m, Chain-Increasing p (move c e) (d ∷ es) (m, h))

-- In a verified log the events are numbered from one without a gap, each in the workflow state of its
-- number, and timestamps increase strictly.
pub check_chain_ordered :
    (p : AuditPlatform) (require_complete : Bool) (es : List AuditEvent)
    → check_chain p require_complete es ≡ ok tt
    → InOrder es × Increasing es
check_chain_ordered p b [] h = (tt, tt)
check_chain_ordered p b (e ∷ es) h =
    let k = check_chain-IsChain p b (e ∷ es) h in
    (
      Chain-InOrder p (start e.case_id) (e ∷ es) (start-AtStep e.case_id) k,
      Chain-Increasing p (start e.case_id) (e ∷ es) k,
    )
