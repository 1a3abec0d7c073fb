-- ===== src/Audit/Append.antt =====
-- `AuditLog.append` of src/quantforge/audit/log.py as a whole: it adds one event or nothing.
use quantforge_ai.Common.{
  suc, ◌≡◌, refl, sym, ap, ◌∙◌, subst, false, raise_if-eq-ok, some-injective, >>=-eq-ok, ==→≡,
  length, List, [], ◌∷◌, ◌++◌, Option, none, some, Error, value_error, permission_error, type_error,
  key_error, Result, ok, err, >>-eq-ok, arith,
}
use quantforge_ai.Common.Catchable.{
  Catchable, catch_rules, returned, value, mistyped, Catchable-bind,
}
use quantforge_ai.Domain.Case.{TribunalCase, tribunal_case_eq}
use quantforge_ai.Audit.Event.{AuditEvent, AuditPlatform}
use quantforge_ai.Audit.Verify.{check_chain}
use quantforge_ai.Audit.Log.{
  Entry, event_of, replay_cases, last_case, verify, replay_case, make_event, expect, check_extended,
  settle, add_made, append,
}
use quantforge_ai.Audit.Catch.{rebuild_cases-Catchable, last_case-Catchable}
use quantforge_ai.Audit.Extend.{make_event-Passed, make_event-Catchable}
use quantforge_ai.Audit.Succession.{IsSuccession, check_chain-IsSuccession}

verify-Catchable :
    (p : AuditPlatform) (es : List AuditEvent)
    → Catchable (check_chain p false es)
    → Catchable (verify p false es)
unfolding verify
verify-Catchable p [] h = h
verify-Catchable p (e ∷ es) h =
    Catchable-bind (check_chain p false (e ∷ es)) _ h
      (λ _. search (catch_rules, rebuild_cases-Catchable))

replay_case-Catchable :
    (p : AuditPlatform) (es : List AuditEvent)
    → Catchable (check_chain p false es)
    → Catchable (replay_case p false es)
unfolding replay_case replay_cases
replay_case-Catchable p es h =
    Catchable-bind (replay_cases p false es) last_case
      (Catchable-bind (check_chain p false es) _ h (λ _. rebuild_cases-Catchable p es))
      last_case-Catchable

check_extended-Catchable :
    (p : AuditPlatform) (expected : Option TribunalCase) (es : List AuditEvent)
    → Catchable (check_chain p false es)
    → Catchable (check_extended p expected es)
unfolding check_extended
check_extended-Catchable p none es h = search (catch_rules, verify-Catchable p es h)
check_extended-Catchable p (some c) es h =
    search (catch_rules, verify-Catchable p es h, replay_case-Catchable p es h) depth 10

settle_error :
    (es : List AuditEvent) (e : AuditEvent) {c : Result (Unit {0})} {m : Error}
    → Catchable c
    → (settle es e c).0 ≡ err m
    → (settle es e c).1 ≡ es
settle_error es e (returned u) h = cc
settle_error es e (value s) h = refl
settle_error es e (mistyped s) h = refl

add_made_error :
    (p : AuditPlatform) (es : List AuditEvent) (expected : Option TribunalCase)
    (r : Result AuditEvent) {m : Error}
    → ((e : AuditEvent) → r ≡ ok e → Catchable (check_chain p false (es ++ e ∷ [])))
    → (add_made p es expected r).0 ≡ err m
    → (add_made p es expected r).1 ≡ es
add_made_error p es expected (err x) k h = refl
add_made_error p es expected (ok e) k h =
    settle_error es e (check_extended-Catchable p expected (es ++ e ∷ []) (k e refl)) h

-- On a log of which the chain is accepted, an `append` that raises, whatever the exception, leaves the
-- log as it was.
pub append_error_unchanged :
    (p : AuditPlatform) (es : List AuditEvent) (x : Entry) (m : Error)
    → check_chain p false es ≡ ok tt
    → (append p es x).0 ≡ err m
    → (append p es x).1 ≡ es
unfolding append
append_error_unchanged p es x m h k =
    add_made_error p es x.expected_case (make_event p es x) (λ e q. make_event-Catchable p es x h q)
      k

-- What a log shows after an `append` that returned: the event carries the arguments of the call, is the next one
-- behind the events before it, and the case of the call, where one is given, is the replay of the log.
pub record Added (p : AuditPlatform) (es : List AuditEvent) (x : Entry) (e : AuditEvent)
    (log : List AuditEvent) : Type 0 where
  pub extended : log ≡ es ++ e ∷ []
  pub sequence : e.sequence ≡ suc (length es)
  pub timestamp : e.timestamp ≡ x.timestamp
  pub case_id : e.case_id ≡ x.case_id
  pub workflow_state : e.workflow_state ≡ x.workflow_state
  pub actor : e.actor ≡ x.actor
  pub action : e.action ≡ x.action
  pub succession : IsSuccession p log
  pub replays : (c : TribunalCase) → x.expected_case ≡ some c → replay_case p false log ≡ ok c

expected_replay :
    (o : Option TribunalCase) (r : Result TribunalCase) (c : TribunalCase)
    → expect o r ≡ ok tt
    → o ≡ some c
    → r ≡ ok c
expected_replay none r c h q = cc
expected_replay (some d) r c h q =
    let (f, made, s) = >>=-eq-ok r _ h in
    made ∙ ap ok (==→≡ f d (ground (arith, raise_if-eq-ok _ _ s)) ∙ some-injective q)

checked_of_verified :
    (p : AuditPlatform) (es : List AuditEvent)
    → verify p false es ≡ ok tt
    → check_chain p false es ≡ ok tt
unfolding verify
checked_of_verified p [] h = h
checked_of_verified p (e ∷ es) h = (>>-eq-ok (check_chain p false (e ∷ es)) _ h).0

settle_ok :
    (es : List AuditEvent) (e : AuditEvent) (c : Result (Unit {0})) {d : AuditEvent}
    → (settle es e c).0 ≡ ok d
    → (d ≡ e) × (c ≡ ok tt) × ((settle es e c).1 ≡ es ++ e ∷ [])
settle_ok es e (ok u) h = (ground arith, refl, refl)
settle_ok es e (err (value_error m)) h = cc
settle_ok es e (err (permission_error m)) h = cc
settle_ok es e (err (key_error m)) h = cc
settle_ok es e (err (type_error m)) h = cc

add_made_ok :
    (p : AuditPlatform) (es : List AuditEvent) (x : Entry) (r : Result AuditEvent) {e : AuditEvent}
    → make_event p es x ≡ r
    → (add_made p es x.expected_case r).0 ≡ ok e
    → Added p es x e (add_made p es x.expected_case r).1
unfolding check_extended event_of
add_made_ok p es x (err m) m_eq h = cc
add_made_ok p es x (ok d) m_eq h =
    let (q, c, l) = settle_ok es d (check_extended p x.expected_case (es ++ d ∷ [])) h in
    let (v, k) = >>-eq-ok (verify p false (es ++ d ∷ [])) _ c in
    let (_, n, w, made) = make_event-Passed p es x m_eq in
    let body = q ∙ made in
    record {
      extended = l ∙ ap (λ z. es ++ z ∷ []) (sym q);
      sequence = ap (λ (z : AuditEvent). z.sequence) body;
      timestamp = ap (λ (z : AuditEvent). z.timestamp) body;
      case_id = ap (λ (z : AuditEvent). z.case_id) body;
      workflow_state = ap (λ (z : AuditEvent). z.workflow_state) body;
      actor = ap (λ (z : AuditEvent). z.actor) body;
      action = ap (λ (z : AuditEvent). z.action) body;
      succession =
          subst (IsSuccession p) (sym l)
            (check_chain-IsSuccession p false (es ++ d ∷ []) (checked_of_verified p _ v));
      replays = λ z g. ap (replay_case p false) l ∙ expected_replay x.expected_case _ z k g;
    }

-- An `append` that returns an event has added that event at the end and nothing else; the event carries the time, the case,
-- the state, the actor and the action of the call and the next number; the log that it leaves is a verified succession of
-- events; and it replays to the expected case where one is given.
pub append_ok :
    (p : AuditPlatform) (es : List AuditEvent) (x : Entry) (e : AuditEvent)
    → (append p es x).0 ≡ ok e
    → Added p es x e (append p es x).1
unfolding append
append_ok p es x e h = add_made_ok p es x (make_event p es x) refl h
