-- ===== src/Machine/Refinement.antt =====
-- The machine of src/quantforge/workflow/machine.py as an implementation of the documented workflow, an abstract
-- system of states and granted transitions.
use quantforge_ai.Common.{
  suc, ◌+◌, ◌≡◌, ◌∙◌, refl, sym, ap, subst, List, [], ◌∷◌, ◌++◌, some, false, Result, ok, err,
  length, length-append, arith,
}
use mathlib.Core.List.{append_assoc, append-nil}
use quantforge_ai.Domain.Enums.{WorkflowState}
use quantforge_ai.Domain.Case.{TribunalCase}
use quantforge_ai.Domain.Visibility.{state_index}
use quantforge_ai.Workflow.Authority.{Authorized, Authorized-IsNext}
use quantforge_ai.Audit.Event.{AuditEvent, AuditPlatform}
use quantforge_ai.Audit.Verify.{Cursor, move, start, check_chain}
use quantforge_ai.Audit.Chain.{Chain, check_chain-IsChain, InOrder, check_chain_ordered}
use quantforge_ai.Audit.History.{replay_case-Replayed}
use quantforge_ai.Machine.{StateMachine}
use quantforge_ai.Machine.Coherence.{
  Coherent, Transition, advance-Transition, skip_follow_up-Transition,
  complete_follow_up-Transition,
}
use quantforge_ai.Machine.Reach.{Step, advanced, skipped, completed, Step-Coherent}

-- The runs of the abstract system: a transition is granted to the actor of its event for the action of its event.
abbrev pub Walk : WorkflowState → List AuditEvent → WorkflowState → Type 0
Walk s [] t = s ≡ t
Walk s (e ∷ es) t =
    Authorized (some s) e.workflow_state e.actor e.action × Walk e.workflow_state es t

Walk-append :
    (s t u : WorkflowState) (es fs : List AuditEvent)
    → Walk s es t
    → Walk t fs u
    → Walk s (es ++ fs) u
Walk-append s t u [] fs same w = subst (λ x. Walk x fs u) (sym same) w
Walk-append s t u (e ∷ es) fs (granted, v) w = (granted, Walk-append e.workflow_state t u es fs v w)

-- Calls of the methods one after another, calls that raise included
pub data Calls (p : AuditPlatform) : StateMachine → StateMachine → Type 0 where
  none_made : {m m' : StateMachine} → m ≡ m' → Calls p m m'
  one_more : {m m' m'' : StateMachine} → Calls p m m' → Step p m' m'' → Calls p m m''

index_injective : (s t : WorkflowState) → state_index s ≡ state_index t → s ≡ t
index_injective s t h = ground arith

-- What the last event of a chain, which is not its first, says of itself
record Final (c : Cursor) (es : List AuditEvent) (e : AuditEvent) : Type 0 where
  pub before : WorkflowState
  pub granted : Authorized (some before) e.workflow_state e.actor e.action
  pub number : e.sequence ≡ c.expected_sequence + length es

Chain-Final :
    (p : AuditPlatform) (c : Cursor) (s : WorkflowState) (es : List AuditEvent) (e : AuditEvent)
    → c.previous_state ≡ some s
    → Chain p c (es ++ e ∷ [])
    → Final c es e
unfolding move
Chain-Final p c s [] e q (l, _) = record {
  before = s;
  granted = subst (λ x. Authorized x e.workflow_state e.actor e.action) q l.authorized;
  number = omega (arith, l.sequence);
}
Chain-Final p c s (d ∷ es) e q (_, h) =
    let f = Chain-Final p (move c d) d.workflow_state es e refl h in
    record { before = f.before; granted = f.granted; number = omega (arith, f.number) }

InOrder-last :
    (es : List AuditEvent) (e : AuditEvent)
    → InOrder (es ++ e ∷ [])
    → e.sequence ≡ suc (state_index e.workflow_state)
InOrder-last [] e h = h.0
InOrder-last (d ∷ es) e h = InOrder-last es e h.1

-- The event that extends a verified log is a granted transition between the states of their numbers.
extended_chain :
    (p : AuditPlatform) (es : List AuditEvent) (e : AuditEvent) (s t : WorkflowState)
    → length es ≡ suc (state_index s)
    → length (es ++ e ∷ []) ≡ suc (state_index t)
    → check_chain p false (es ++ e ∷ []) ≡ ok tt
    → Walk s (e ∷ []) t
unfolding move start
extended_chain p [] e s t a b h = absurd (omega (arith, a))
extended_chain p (d ∷ es) e s t a b h =
    let f =
      Chain-Final p (move (start d.case_id) d) d.workflow_state es e refl
        (check_chain-IsChain p false (d ∷ es ++ e ∷ []) h).1 in
    let place = InOrder-last (d ∷ es) e (check_chain_ordered p false (d ∷ es ++ e ∷ []) h).0 in
    let next = Authorized-IsNext f.granted in
    let longer = length-append es (e ∷ []) in
    (
      subst (λ x. Authorized (some x) e.workflow_state e.actor e.action)
          (index_injective f.before s (omega (arith, a, f.number, place, next))) f.granted,
      index_injective e.workflow_state t (omega (arith, b, longer, f.number, place)),
    )

-- What a number of calls does: it appends the events of a run of the abstract system to the log.
pub record Refines (m m' : StateMachine) : Type 0 where
  pub events : List AuditEvent
  pub run : Walk m.case.state events m'.case.state
  pub appended : m'.audit_log ≡ m.audit_log ++ events

kept-Refines : (m m' : StateMachine) → m ≡ m' → Refines m m'
kept-Refines m m' same = record {
  events = [];
  run = ap (λ (x : StateMachine). x.case.state) same;
  appended = ap (λ (x : StateMachine). x.audit_log) (sym same) ∙ sym (append-nil m.audit_log);
}

Transition-Refines :
    (p : AuditPlatform) (m : StateMachine) (r : Result TribunalCase × StateMachine)
    → Coherent p m
    → Transition p m r
    → Refines m r.1
Transition-Refines p m (err x, m') h t = kept-Refines m m' (sym (t.keeps x refl))
Transition-Refines p m (ok c, m') h t =
    let (e, longer) = t.extends c refl in
    let before = replay_case-Replayed p m.audit_log m.case h in
    let later = replay_case-Replayed p m'.audit_log m'.case (t.returns c refl).1 in
    record {
      events = e ∷ [];
      run =
          extended_chain p m.audit_log e m.case.state m'.case.state before.position
            (sym (ap length longer) ∙ later.position)
            (ap (check_chain p false) (sym longer) ∙ later.chained);
      appended = longer;
    }

Step-Refines : (p : AuditPlatform) {m m' : StateMachine} → Step p m m' → Coherent p m → Refines m m'
Step-Refines p (advanced m target actor action timestamp payload u) h =
    Transition-Refines p m _ h (advance-Transition p m target actor action timestamp payload u h)
Step-Refines p (skipped m actor reason timestamp review) h =
    Transition-Refines p m _ h (skip_follow_up-Transition p m actor reason timestamp review h)
Step-Refines p (completed m actor reason timestamp review) h =
    Transition-Refines p m _ h (complete_follow_up-Transition p m actor reason timestamp review h)

Refines-trans : (m m' m'' : StateMachine) → Refines m m' → Refines m' m'' → Refines m m''
Refines-trans m m' m'' f g = record {
  events = f.events ++ g.events;
  run = Walk-append m.case.state m'.case.state m''.case.state f.events g.events f.run g.run;
  appended =
      g.appended
      ∙ ap (λ log. log ++ g.events) f.appended
      ∙ append_assoc m.audit_log f.events g.events;
}

Calls-Coherent :
    (p : AuditPlatform) {m m' : StateMachine} → Calls p m m' → Coherent p m → Coherent p m'
Calls-Coherent p (none_made same) h = subst (Coherent p) same h
Calls-Coherent p (one_more calls s) h = Step-Coherent p s (Calls-Coherent p calls h)

-- From a machine of which the case is the replay of the log, any sequence of calls, calls that raise included,
-- is a run of the abstract workflow: the log keeps all its events, and the events after them take the state of
-- the first case to that of the last, each by a transition that is granted to its actor for its action.
pub Calls-Refines :
    (p : AuditPlatform) {m m' : StateMachine} → Calls p m m' → Coherent p m → Refines m m'
Calls-Refines p (none_made {m = m} {m' = m'} same) h = kept-Refines m m' same
Calls-Refines p (one_more {m = m} {m' = m'} {m'' = m''} calls s) h =
    Refines-trans m m' m'' (Calls-Refines p calls h) (Step-Refines p s (Calls-Coherent p calls h))
