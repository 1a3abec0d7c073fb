-- ===== src/Audit/Extend.antt =====
-- The chain check of src/quantforge/audit/log.py on a verified log with an event that `AuditLog.append` makes: it passes, or
-- it raises what `append` catches.
use quantforge_ai.Common.{
  ℕ, ◌+◌, ◌≡◌, refl, sym, subst, false, List, [], ◌∷◌, ◌++◌, ok, raise_if, >>-eq-ok, >>=-eq-ok,
  raise_if-eq-ok, ok-injective, string_eq, last?, length, arith,
}
use quantforge_ai.Common.Catchable.{Catchable, catch_rules, returned, Catchable-bind}
use quantforge_ai.Workflow.Rules.{require_transition_authority}
use quantforge_ai.Audit.Event.{Payload, AuditEvent, AuditPlatform}
use quantforge_ai.Audit.Verify.{
  Cursor, not_later, check_event, move, check_from, start, check_chain,
}
use quantforge_ai.Audit.Log.{
  Entry, last_state, last_hash, too_early, is_foreign, event_of, make_event,
}

-- The cursor behind some events
moved : Cursor → List AuditEvent → Cursor
moved c [] = c
moved c (e ∷ es) = moved (move c e) es

check_from-moved :
    (p : AuditPlatform) (c : Cursor) (es : List AuditEvent) {d : Cursor}
    → check_from p c es ≡ ok d
    → check_from p c es ≡ ok (moved c es)
unfolding check_from moved
check_from-moved p c [] h = refl
check_from-moved p c (e ∷ es) h =
    let (k, r) = >>-eq-ok (check_event p c e) (check_from p (move c e) es) h in
    rw k (check_from-moved p (move c e) es r)

check_from-snoc-Catchable :
    (p : AuditPlatform) (c : Cursor) (es : List AuditEvent) (e : AuditEvent)
    → check_from p c es ≡ ok (moved c es)
    → Catchable (check_event p (moved c es) e)
    → Catchable (check_from p c (es ++ e ∷ []))
unfolding check_from moved
check_from-snoc-Catchable p c [] e h k =
    Catchable-bind (check_event p c e) _ k (λ _. returned (move c e))
check_from-snoc-Catchable p c (x ∷ es) e h k =
    let (a, r) = >>-eq-ok (check_event p c x) (check_from p (move c x) es) h in
    rw a (check_from-snoc-Catchable p (move c x) es e r k)

-- Where the cursor stands behind the events of a log that is not empty
record Position (c : Cursor) (e : AuditEvent) (es : List AuditEvent) (d : Cursor) : Type 0 where
  sequence : d.expected_sequence ≡ c.expected_sequence + length (e ∷ es)
  case : d.case_id ≡ c.case_id
  hash : d.previous_hash ≡ last_hash (last? (e ∷ es))
  state : d.previous_state ≡ last_state (last? (e ∷ es))
  time : (t : ℕ) → not_later d.previous_timestamp t ≡ too_early (last? (e ∷ es)) t

moved-Position :
    (c : Cursor) (e : AuditEvent) (es : List AuditEvent) → Position c e es (moved c (e ∷ es))
unfolding moved move
moved-Position c e [] = record {
  sequence = omega arith;
  case = refl;
  hash = refl;
  state = refl;
  time = λ t. refl;
}
moved-Position c e (x ∷ es) =
    let k = moved-Position (move c e) x es in
    record {
      sequence = omega (arith, k.sequence);
      case = k.case;
      hash = k.hash;
      state = k.state;
      time = k.time;
    }

-- What the checks of `append` have found before it makes the event
pub record Passed (p : AuditPlatform) (es : List AuditEvent) (x : Entry) : Type 0 where
  pub authority :
      require_transition_authority (last_state (last? es)) x.workflow_state x.actor x.action ≡ ok tt
  pub domestic : is_foreign es x.case_id ≡ false
  pub later : too_early (last? es) x.timestamp ≡ false

pub make_event-Passed :
    (p : AuditPlatform) (es : List AuditEvent) (x : Entry) {e : AuditEvent}
    → make_event p es x ≡ ok e
    → Passed p es x × (n : Payload) × (v : Payload) × (e ≡ event_of p es x n v)
unfolding make_event
make_event-Passed p es x h =
    let (a, h1) =
      >>-eq-ok
        (require_transition_authority (last_state (last? es)) x.workflow_state x.actor x.action) _
        h in
    let (b, h2) = >>-eq-ok (raise_if (is_foreign es x.case_id) _) _ h1 in
    let (c, h3) = >>-eq-ok (raise_if (too_early (last? es) x.timestamp) _) _ h2 in
    let (n, _, h4) = >>=-eq-ok (p.normalize_payload x.payload) _ h3 in
    let (v, _, k) = >>=-eq-ok (p.validate_payload n) _ h4 in
    (
      record { authority = a; domestic = raise_if-eq-ok _ _ b; later = raise_if-eq-ok _ _ c },
      n,
      v,
      sym (ok-injective k),
    )

-- The round of the loop at a cursor that stands behind the log does not refuse the authority of the event that `append`
-- makes; all else that it may raise is a `ValueError`.
made_check-Catchable :
    (p : AuditPlatform) (d : Cursor) (es : List AuditEvent) (x : Entry) (n v : Payload)
    → d.previous_state ≡ last_state (last? es)
    → require_transition_authority (last_state (last? es)) x.workflow_state x.actor x.action ≡ ok tt
    → Catchable (check_event p d (event_of p es x n v))
unfolding check_event event_of
made_check-Catchable p d es x n v st a =
    let authority : require_transition_authority d.previous_state x.workflow_state x.actor x.action
        ≡ ok tt =
      rw st a in
    rw authority (search (catch_rules) depth 24)

loop_of_check :
    (p : AuditPlatform) (e : AuditEvent) (es : List AuditEvent)
    → check_chain p false (e ∷ es) ≡ ok tt
    → check_from p (start e.case_id) (e ∷ es) ≡ ok (moved (start e.case_id) (e ∷ es))
unfolding check_chain
loop_of_check p e es h =
    let (d, k, _) = >>=-eq-ok (check_from p (start e.case_id) (e ∷ es)) _ h in
    check_from-moved p (start e.case_id) (e ∷ es) k

check_chain-Catchable :
    (p : AuditPlatform) (e : AuditEvent) (es : List AuditEvent)
    → Catchable (check_from p (start e.case_id) (e ∷ es))
    → Catchable (check_chain p false (e ∷ es))
unfolding check_chain
check_chain-Catchable p e es h =
    Catchable-bind (check_from p (start e.case_id) (e ∷ es)) _ h (λ _. returned tt)

extends :
    (p : AuditPlatform) (es : List AuditEvent) (x : Entry) (n v : Payload)
    → check_chain p false es ≡ ok tt
    → Passed p es x
    → Catchable (check_chain p false (es ++ event_of p es x n v ∷ []))
unfolding event_of start check_from moved
extends p [] x n v h k =
    let e = event_of p [] x n v in
    check_chain-Catchable p e [] (
      check_from-snoc-Catchable p (start e.case_id) [] e refl
        (made_check-Catchable p (start e.case_id) [] x n v refl k.authority))
extends p (e ∷ es) x n v h k =
    let at = moved-Position (start e.case_id) e es in
    check_chain-Catchable p e (es ++ event_of p (e ∷ es) x n v ∷ []) (
      check_from-snoc-Catchable p (start e.case_id) (e ∷ es) (event_of p (e ∷ es) x n v)
        (loop_of_check p e es h)
        (made_check-Catchable p (moved (start e.case_id) (e ∷ es)) (e ∷ es) x n v at.state
          k.authority))

-- If the log's chain is accepted and `append` gets as far as making an event, the check of the chain with that event
-- passes or raises what `append` catches.
pub make_event-Catchable :
    (p : AuditPlatform) (es : List AuditEvent) (x : Entry) {e : AuditEvent}
    → check_chain p false es ≡ ok tt
    → make_event p es x ≡ ok e
    → Catchable (check_chain p false (es ++ e ∷ []))
make_event-Catchable p es x h m =
    let (k, n, v, q) = make_event-Passed p es x m in
    subst (λ z. Catchable (check_chain p false (es ++ z ∷ []))) (sym q) (extends p es x n v h k)
