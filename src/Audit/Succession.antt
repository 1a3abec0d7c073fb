-- ===== src/Audit/Succession.antt =====
-- The chain that `AuditLog.verify` of src/quantforge/audit/log.py accepts, said of the events alone: what the first one
-- is, and how each one follows the one before it.
use quantforge_ai.Common.{suc, ◌<◌, ◌≡◌, sym, ◌∙◌, Bool, List, [], ◌∷◌, none, some, ok, arith}
use quantforge_ai.Workflow.Authority.{Authorized}
use quantforge_ai.Audit.Event.{AuditEvent, AuditPlatform}
use quantforge_ai.Audit.Verify.{Cursor, move, start, check_chain}
use quantforge_ai.Audit.Chain.{Linked, Chain, check_chain-IsChain}

-- An event with the digests of its own payload and of its own body
pub record IsSealed (p : AuditPlatform) (e : AuditEvent) : Type 0 where
  pub payload : e.payload_hash ≡ p.sha_payload e.payload
  pub body : e.current_event_hash ≡ p.sha_event e.body

-- The first event of a log; before it stands the hash of 64 zeros.
pub record Opens (p : AuditPlatform) (e : AuditEvent) : Type 0 where
  pub number : e.sequence ≡ 1
  pub granted : Authorized none e.workflow_state e.actor e.action
  pub previous :
      e.previous_event_hash ≡ "0000000000000000000000000000000000000000000000000000000000000000"
  pub whole : IsSealed p e

-- An event and the next one
pub record Follows (p : AuditPlatform) (d e : AuditEvent) : Type 0 where
  pub number : e.sequence ≡ suc d.sequence
  pub same_case : e.case_id ≡ d.case_id
  pub later : d.timestamp < e.timestamp
  pub granted : Authorized (some d.workflow_state) e.workflow_state e.actor e.action
  pub previous : e.previous_event_hash ≡ d.current_event_hash
  pub whole : IsSealed p e

abbrev pub Succeeding : AuditPlatform → AuditEvent → List AuditEvent → Type 0
Succeeding p d [] = Unit
Succeeding p d (e ∷ es) = Follows p d e × Succeeding p e es

abbrev pub IsSuccession : AuditPlatform → List AuditEvent → Type 0
IsSuccession p [] = Unit
IsSuccession p (e ∷ es) = Opens p e × Succeeding p e es

Linked-IsSealed : (p : AuditPlatform) (c : Cursor) (e : AuditEvent) → Linked p c e → IsSealed p e
Linked-IsSealed p c e l = record { payload = sym l.payload; body = sym l.hash }

moved-Follows :
    (p : AuditPlatform) (c : Cursor) (d e : AuditEvent)
    → Linked p c d
    → Linked p (move c d) e
    → Follows p d e
unfolding move
moved-Follows p c d e k l = record {
  number = omega (arith, k.sequence, l.sequence);
  same_case = l.case ∙ sym k.case;
  later = ground (arith, l.later);
  granted = l.authorized;
  previous = l.previous;
  whole = Linked-IsSealed p (move c d) e l;
}

Chain-Succeeding :
    (p : AuditPlatform) (c : Cursor) (d : AuditEvent) (es : List AuditEvent)
    → Linked p c d
    → Chain p (move c d) es
    → Succeeding p d es
Chain-Succeeding p c d [] k h = tt
Chain-Succeeding p c d (e ∷ es) k (l, h) =
    (moved-Follows p c d e k l, Chain-Succeeding p (move c d) e es l h)

start-Opens : (p : AuditPlatform) (e : AuditEvent) → Linked p (start e.case_id) e → Opens p e
unfolding start
start-Opens p e l = record {
  number = l.sequence;
  granted = l.authorized;
  previous = l.previous;
  whole = Linked-IsSealed p (start e.case_id) e l;
}

-- In a verified log the first event has the number 1, the hash of 64 zeros before it, and makes the receipt of a claim as
-- documented; each further event has the next number, the case and a later time than the event before it, makes a
-- documented transition from its state by the actor and action of that transition, and has its hash as the previous one;
-- and each event has the digests of its own payload and of its own body.
pub check_chain-IsSuccession :
    (p : AuditPlatform) (require_complete : Bool) (es : List AuditEvent)
    → check_chain p require_complete es ≡ ok tt
    → IsSuccession p es
check_chain-IsSuccession p b [] h = tt
check_chain-IsSuccession p b (e ∷ es) h =
    let (l, rest) = check_chain-IsChain p b (e ∷ es) h in
    (start-Opens p e l, Chain-Succeeding p (start e.case_id) e es l rest)
