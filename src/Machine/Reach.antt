-- ===== src/Machine/Reach.antt =====
-- The machines that the constructor and the methods of src/quantforge/workflow/machine.py reach, whatever
-- is called in whatever order, calls that raise included.
use quantforge_ai.Common.{
  ℕ, suc, ◌≤◌, ◌≡◌, refl, sym, subst, String, List, Result, ok, err, length, some, arith,
}
use quantforge_ai.Domain.Enums.{WorkflowState, RoleName}
use quantforge_ai.Domain.Reviews.{ReproducibilityReview, ChairExplanation}
use quantforge_ai.Domain.Case.{TribunalCase}
use quantforge_ai.Domain.Visibility.{state_index}
use quantforge_ai.Domain.Governance.{Approved}
use quantforge_ai.Audit.Event.{Payload, AuditEvent, AuditPlatform}
use quantforge_ai.Audit.History.{
  replay_case-Replayed, replay_case-Approved, Justified, replay_case-Justified,
}
use quantforge_ai.Machine.{
  StateMachine, Updates, new_machine, advance, skip_follow_up, complete_follow_up,
}
use quantforge_ai.Machine.Coherence.{
  Coherent, Transition, new_machine-Coherent, advance-Transition, skip_follow_up-Transition,
  complete_follow_up-Transition,
}

-- One call of a method
pub data Step (p : AuditPlatform) : StateMachine → StateMachine → Type 0 where
  advanced :
      (m : StateMachine) (target : WorkflowState) (actor : RoleName) (action : String)
      (timestamp : ℕ) (payload : Payload) (u : Updates)
      → Step p m (advance p m target actor action timestamp payload u).1
  skipped :
      (m : StateMachine) (actor : RoleName) (reason : String) (timestamp : ℕ)
      (review : ReproducibilityReview)
      → Step p m (skip_follow_up p m actor reason timestamp review).1
  completed :
      (m : StateMachine) (actor : RoleName) (reason : String) (timestamp : ℕ)
      (review : ReproducibilityReview)
      → Step p m (complete_follow_up p m actor reason timestamp review).1

pub data Reachable (p : AuditPlatform) : StateMachine → Type 0 where
  opened :
      (c : TribunalCase) (log : List AuditEvent) (m : StateMachine)
      → new_machine p c log ≡ ok m
      → Reachable p m
  stepped : (m m' : StateMachine) → Reachable p m → Step p m m' → Reachable p m'

Transition-Coherent :
    (p : AuditPlatform) (m : StateMachine) (r : Result TribunalCase × StateMachine)
    → Coherent p m
    → Transition p m r
    → Coherent p r.1
Transition-Coherent p m (ok c, m') h t = (t.returns c refl).1
Transition-Coherent p m (err x, m') h t = subst (Coherent p) (sym (t.keeps x refl)) h

-- One call of any method, successful or not, keeps the case and the log of a machine in agreement.
pub Step-Coherent :
    (p : AuditPlatform) {m m' : StateMachine} → Step p m m' → Coherent p m → Coherent p m'
Step-Coherent p (advanced m target actor action timestamp payload u) h =
    Transition-Coherent p m _ h (advance-Transition p m target actor action timestamp payload u h)
Step-Coherent p (skipped m actor reason timestamp review) h =
    Transition-Coherent p m _ h (skip_follow_up-Transition p m actor reason timestamp review h)
Step-Coherent p (completed m actor reason timestamp review) h =
    Transition-Coherent p m _ h (complete_follow_up-Transition p m actor reason timestamp review h)

pub Reachable-Coherent : (p : AuditPlatform) {m : StateMachine} → Reachable p m → Coherent p m
Reachable-Coherent p (opened c log m h) = (new_machine-Coherent p c log m h).0
Reachable-Coherent p (stepped m m' r s) = Step-Coherent p s (Reachable-Coherent p r)

-- In every machine that any sequence of calls reaches from the constructor, the case is the one that the
-- log replays to, and the log has one event for each state up to the case's.
pub Reachable-position :
    (p : AuditPlatform) (m : StateMachine)
    → Reachable p m
    → Coherent p m × (length m.audit_log ≡ suc (state_index m.case.state))
Reachable-position p m r =
    let h = Reachable-Coherent p r in (h, (replay_case-Replayed p m.audit_log m.case h).position)

-- No sequence of calls reaches CONSTITUTION_LOCKED or a later state without an approving methodology
-- review and a positive human approval of exactly the recorded proposal.
pub Reachable-Approved :
    (p : AuditPlatform) (m : StateMachine)
    → Reachable p m
    → 4 ≤ state_index m.case.state
    → Approved p.domain m.case
Reachable-Approved p m r l =
    let (h, n) = Reachable-position p m r in
    replay_case-Approved p m.audit_log m.case h (omega (arith, n))

-- In every machine that any sequence of calls reaches, a Chair explanation reports the verdict that the policy decides on
-- justified inputs: an event of EXPERIMENT_EXECUTED in the log records evidence of which the identifiers are those of the
-- case; each of the inputs is the corresponding value of the recorded reviews, of the proposal or of that evidence; the flags for
-- unresolved findings say whether one of the reviews has one; the decisive references cite validated evidence with its
-- facts and cover all the evidence; and the contradictory references cite exactly the evidence that contradicts.
pub Reachable-Justified :
    (p : AuditPlatform) (m : StateMachine) (x : ChairExplanation)
    → Reachable p m
    → m.case.chair_explanation ≡ some x
    → Justified m.audit_log m.case x
Reachable-Justified p m x r q =
    replay_case-Justified p m.audit_log m.case x (Reachable-Coherent p r) q
