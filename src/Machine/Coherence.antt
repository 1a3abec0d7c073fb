-- ===== src/Machine/Coherence.antt =====
-- The state machine of src/quantforge/workflow/machine.py beside its audit log: the two agree in every
-- state that is reached.
use quantforge_ai.Common.{
  ℕ, ◌≡◌, refl, sym, ap, ◌∙◌, subst, Bool, true, false, not, String, List, [], ◌∷◌, ◌++◌, some,
  Error, value_error, Result, ok, err, raise_if, raise_if-eq-ok, ok-injective, >>-eq-ok, >>=-eq-ok,
  if◌then◌else◌, ◌==◌, ==→≡, arith,
}
use quantforge_ai.Domain.Enums.{WorkflowState, workflow_state_eq, RoleName, Disposition}
use quantforge_ai.Domain.Reviews.{ReproducibilityReview}
use quantforge_ai.Domain.Text.{is_blank}
use quantforge_ai.Domain.Case.{TribunalCase, tribunal_case_eq}
use quantforge_ai.Audit.Event.{Payload, AuditEvent, AuditPlatform}
use quantforge_ai.Audit.Log.{Entry, replay_case, append}
use quantforge_ai.Audit.Append.{append_error_unchanged, append_ok}
use quantforge_ai.Audit.History.{replay_case-Replayed}
use quantforge_ai.Machine.{
  StateMachine, Updates, new_machine, commit, record_case, prepare, advance, prepare_follow_up,
  record_follow_up, skip_follow_up, complete_follow_up,
}

-- The machine's case is the case that its log replays to.
abbrev pub Coherent : AuditPlatform → StateMachine → Type 0
Coherent p m = replay_case p false m.audit_log ≡ ok m.case

pub new_machine-Coherent :
    (p : AuditPlatform) (c : TribunalCase) (log : List AuditEvent) (m : StateMachine)
    → new_machine p c log ≡ ok m
    → Coherent p m × (m.case ≡ c) × (m.audit_log ≡ log)
unfolding new_machine
new_machine-Coherent p c log m h =
    let (d, r, h1) = >>=-eq-ok (replay_case p false log) _ h in
    let (s, k) = >>-eq-ok (raise_if (not (d == c)) _) _ h1 in
    let q = ok-injective k in
    let same : d ≡ c = ==→≡ d c (ground (arith, raise_if-eq-ok _ _ s)) in
    (
      subst (Coherent p) q (r ∙ ap ok same),
      sym (ap (λ (x : StateMachine). x.case) q),
      sym (ap (λ (x : StateMachine). x.audit_log) q),
    )

-- What a call that may add one event does: it returns the new case, or it leaves the machine.
pub record Transition (p : AuditPlatform) (m : StateMachine)
    (r : Result TribunalCase × StateMachine) : Type 0 where
  pub returns : (c : TribunalCase) → r.0 ≡ ok c → (r.1.case ≡ c) × Coherent p r.1
  pub extends :
      (c : TribunalCase) → r.0 ≡ ok c → (e : AuditEvent) × (r.1.audit_log ≡ m.audit_log ++ e ∷ [])
  pub keeps : (x : Error) → r.0 ≡ err x → r.1 ≡ m

committed :
    (p : AuditPlatform) (m : StateMachine) (c : TribunalCase)
    (r : Result AuditEvent × List AuditEvent)
    → ((e : AuditEvent)
        → r.0 ≡ ok e
        → (r.1 ≡ m.audit_log ++ e ∷ []) × (replay_case p false r.1 ≡ ok c))
    → ((x : Error) → r.0 ≡ err x → r.1 ≡ m.audit_log)
    → Transition p m (commit m c r)
committed p m c (ok e, log) h k = record {
  returns = λ d q. (ok-injective q, (h e refl).1);
  extends = λ d q. (e, (h e refl).0);
  keeps = λ x q. cc;
}
committed p m c (err x, log) h k = record {
  returns = λ d q. cc;
  extends = λ d q. cc;
  keeps = λ y q i. record { case = m.case; audit_log = k x refl i };
}

record_case_lem :
    (p : AuditPlatform) (m : StateMachine) (r : Result TribunalCase) (target : WorkflowState)
    (actor : RoleName) (action : String) (timestamp : ℕ) (payload : Payload)
    → Coherent p m
    → Transition p m (record_case p m r target actor action timestamp payload)
record_case_lem p m (err x) target actor action timestamp payload h = record {
  returns = λ c q. cc;
  extends = λ c q. cc;
  keeps = λ y q. refl;
}
record_case_lem p m (ok c) target actor action timestamp payload h =
    let chained = (replay_case-Replayed p m.audit_log m.case h).chained in
    let entry : Entry = record {
      timestamp = timestamp;
      case_id = m.case.case_id;
      workflow_state = target;
      actor = actor;
      action = action;
      payload = payload;
      expected_case = some c;
    } in
    committed p m c (append p m.audit_log entry)
      (λ e q. let a = append_ok p m.audit_log entry e q in (a.extended, a.replays c refl))
      (λ x q. append_error_unchanged p m.audit_log entry x chained q)

-- From a machine of which the case is the replay of the log, `advance` is transactional: the case that it
-- returns is the machine's case and the case that the log replays to, with one event added; and where
-- it raises it leaves the machine as it was.
pub advance-Transition :
    (p : AuditPlatform) (m : StateMachine) (target : WorkflowState) (actor : RoleName)
    (action : String) (timestamp : ℕ) (payload : Payload) (u : Updates)
    → Coherent p m
    → Transition p m (advance p m target actor action timestamp payload u)
unfolding advance
advance-Transition p m target actor action timestamp payload u h =
    record_case_lem p m (prepare p m.case target actor action u) target actor action timestamp
      payload h

record_follow_up-Transition :
    (p : AuditPlatform) (m : StateMachine) (d : Disposition) (actor : RoleName) (reason : String)
    (timestamp : ℕ) (review : ReproducibilityReview)
    → Coherent p m
    → Transition p m (record_follow_up p m d actor reason timestamp review)
unfolding record_follow_up
record_follow_up-Transition p m d actor reason timestamp review h =
    record_case_lem p m (prepare_follow_up p m.case d actor reason review) _ actor _ timestamp _ h

raised : (p : AuditPlatform) (m : StateMachine) (x : Error) → Transition p m (err x, m)
raised p m x = record { returns = λ c q. cc; extends = λ c q. cc; keeps = λ y q. refl }

if-Transition :
    (p : AuditPlatform) (m : StateMachine) (b : Bool) (x : Error)
    (r : Result TribunalCase × StateMachine)
    → Transition p m r
    → Transition p m (if b then (err x, m) else r)
if-Transition p m true x r h = raised p m x
if-Transition p m false x r h = h

-- From a machine of which the case is the replay of the log, `skip_follow_up` returns the machine's case,
-- which the log with one event added replays to, or it raises and leaves the machine as it was.
pub skip_follow_up-Transition :
    (p : AuditPlatform) (m : StateMachine) (actor : RoleName) (reason : String) (timestamp : ℕ)
    (review : ReproducibilityReview)
    → Coherent p m
    → Transition p m (skip_follow_up p m actor reason timestamp review)
unfolding skip_follow_up
skip_follow_up-Transition p m actor reason timestamp review h =
    if-Transition p m (not (m.case.state == WorkflowState.optional_follow_up))
      (value_error "follow-up can be skipped only from OPTIONAL_FOLLOW_UP") _
      (if-Transition p m (is_blank reason)
        (value_error "follow-up skip requires an explicit reason") _
        (record_follow_up-Transition p m Disposition.skipped actor reason timestamp review h))

-- From a machine of which the case is the replay of the log, `complete_follow_up` returns the machine's case,
-- which the log with one event added replays to, or it raises and leaves the machine as it was.
pub complete_follow_up-Transition :
    (p : AuditPlatform) (m : StateMachine) (actor : RoleName) (reason : String) (timestamp : ℕ)
    (review : ReproducibilityReview)
    → Coherent p m
    → Transition p m (complete_follow_up p m actor reason timestamp review)
unfolding complete_follow_up
complete_follow_up-Transition p m actor reason timestamp review h =
    record_follow_up-Transition p m Disposition.completed actor reason timestamp review h
