-- ===== src/Workflow/Authority.antt =====
-- What src/quantforge/workflow/rules.py permits: who may take a case from which state to which, by
-- what action, and the order of the states.
use quantforge_ai.Common.{
  suc, ◌≡◌, refl, ◌↔◌, ◌⊎◌, inl, inr, true, String, List, [], ◌∷◌, Option, none, some, ok, ◌==◌,
  ==→≡, contains, string_eq, String-discrete, arith, Bool-cases,
}
use quantforge_ai.Domain.Enums.{
  WorkflowState, WorkflowState-discrete, workflow_state_eq, RoleName, RoleName-discrete,
  role_name_eq,
}
use quantforge_ai.Domain.Visibility.{state_index}
use quantforge_ai.Workflow.Rules.{
  TransitionRule, source-discrete, source_eq, rule_by_target, next_state, require_rule,
  require_transition_authority,
}

-- The transitions that the documentation of the workflow lists, each with its actor and its action.
pub data Authorized : Option WorkflowState → WorkflowState → RoleName → String → Type 0 where
  receive : Authorized none WorkflowState.claim_received RoleName.system "receive_claim"
  propose :
      Authorized
        (some WorkflowState.claim_received)
        WorkflowState.researcher_protocol_proposed
        RoleName.researcher
        "propose_protocol"
  review_method :
      Authorized
        (some WorkflowState.researcher_protocol_proposed)
        WorkflowState.methodology_reviewed
        RoleName.methodology_auditor
        "review_methodology"
  approve :
      Authorized
        (some WorkflowState.methodology_reviewed)
        WorkflowState.human_approval
        RoleName.human_approver
        "record_approval"
  lock :
      Authorized
        (some WorkflowState.human_approval)
        WorkflowState.constitution_locked
        RoleName.system
        "lock_constitution"
  admit :
      Authorized
        (some WorkflowState.constitution_locked)
        WorkflowState.experiment_executed
        RoleName.system
        "admit_engine_evidence"
  load :
      Authorized
        (some WorkflowState.constitution_locked)
        WorkflowState.experiment_executed
        RoleName.system
        "load_mock_evidence"
  review_statistics :
      Authorized
        (some WorkflowState.experiment_executed)
        WorkflowState.statistics_reviewed
        RoleName.statistical_reviewer
        "review_statistics"
  review_adversarially :
      Authorized
        (some WorkflowState.statistics_reviewed)
        WorkflowState.adversarial_reviewed
        RoleName.adversarial_reviewer
        "review_adversarially"
  enter_follow_up :
      Authorized
        (some WorkflowState.adversarial_reviewed)
        WorkflowState.optional_follow_up
        RoleName.system
        "enter_follow_up"
  skip_follow_up :
      Authorized
        (some WorkflowState.optional_follow_up)
        WorkflowState.reproducibility_verified
        RoleName.reproducibility_reviewer
        "skip_follow_up"
  complete_follow_up :
      Authorized
        (some WorkflowState.optional_follow_up)
        WorkflowState.reproducibility_verified
        RoleName.reproducibility_reviewer
        "complete_follow_up"
  compute :
      Authorized
        (some WorkflowState.reproducibility_verified)
        WorkflowState.verdict_eligibility_computed
        RoleName.system
        "compute_verdict"
  explain :
      Authorized
        (some WorkflowState.verdict_eligibility_computed)
        WorkflowState.chair_explanation
        RoleName.tribunal_chair
        "explain_verdict"

-- One action of the table's two-action rules, or the only one
abbrev OneOf : String → List String → Type 0
OneOf x [] = ⊥
OneOf x (a ∷ as') = (x ≡ a) ⊎ OneOf x as'

contains-OneOf : (x : String) (xs : List String) → contains x xs ≡ true → OneOf x xs
unfolding contains
contains-OneOf x [] h = cc
contains-OneOf x (a ∷ xs) h = elim (Bool-cases (x == a)) [
  | inl p ↦ inl (==→≡ x a p)
  | inr q ↦ inr (contains-OneOf x xs (ground arith))
]

abbrev Fits : Option TransitionRule → Option WorkflowState → RoleName → String → Type 0
Fits none s a x = ⊥
Fits (some r) s a x = (r.source ≡ s) × (r.actor ≡ a) × OneOf x r.actions

require_rule-eq-ok :
    (r : Option TransitionRule) (s : Option WorkflowState) (a : RoleName) (x : String)
    → require_rule r s a x ≡ ok tt
    → Fits r s a x
unfolding require_rule
require_rule-eq-ok none s a x h = cc
require_rule-eq-ok (some r) s a x h =
    let k : (r.source == s) ≡ true = ground arith in
    let l : (r.actor == a) ≡ true = ground arith in
    let m : contains x r.actions ≡ true = ground arith in
    (==→≡ r.source s k, ==→≡ r.actor a l, contains-OneOf x r.actions m)

transport_authority :
    {s s' : Option WorkflowState} {t : WorkflowState} {a a' : RoleName} {x x' : String}
    → s ≡ s'
    → a ≡ a'
    → x' ≡ x
    → Authorized s t a x
    → Authorized s' t a' x'
transport_authority p q e h = rw (← p, ← q, e) h

one :
    {s : Option WorkflowState} {t : WorkflowState} {a : RoleName} {x : String}
    {s' : Option WorkflowState} {a' : RoleName} {x' : String}
    → Authorized s t a x
    → (s ≡ s') × (a ≡ a') × ((x' ≡ x) ⊎ ⊥)
    → Authorized s' t a' x'
one c (p, q, inl e) = transport_authority p q e c
one c (p, q, inr e) = absurd e

two :
    {s : Option WorkflowState} {t : WorkflowState} {a : RoleName} {x y : String}
    {s' : Option WorkflowState} {a' : RoleName} {x' : String}
    → Authorized s t a x
    → Authorized s t a y
    → (s ≡ s') × (a ≡ a') × ((x' ≡ x) ⊎ ((x' ≡ y) ⊎ ⊥))
    → Authorized s' t a' x'
two c d (p, q, inl e) = transport_authority p q e c
two c d (p, q, inr e) = one d (p, q, e)

-- A rule of the table that a request fits, read as the documented transition
authorized_of_request :
    (s : Option WorkflowState) (t : WorkflowState) (a : RoleName) (x : String)
    → require_transition_authority s t a x ≡ ok tt
    → Authorized s t a x
unfolding require_transition_authority rule_by_target WorkflowState-discrete ◌==◌
authorized_of_request s WorkflowState.claim_received a x h =
    one receive (require_rule-eq-ok (rule_by_target WorkflowState.claim_received) s a x h)
authorized_of_request s WorkflowState.researcher_protocol_proposed a x h =
    one propose
      (require_rule-eq-ok (rule_by_target WorkflowState.researcher_protocol_proposed) s a x h)
authorized_of_request s WorkflowState.methodology_reviewed a x h =
    one review_method
      (require_rule-eq-ok (rule_by_target WorkflowState.methodology_reviewed) s a x h)
authorized_of_request s WorkflowState.human_approval a x h =
    one approve (require_rule-eq-ok (rule_by_target WorkflowState.human_approval) s a x h)
authorized_of_request s WorkflowState.constitution_locked a x h =
    one lock (require_rule-eq-ok (rule_by_target WorkflowState.constitution_locked) s a x h)
authorized_of_request s WorkflowState.experiment_executed a x h =
    two admit load (require_rule-eq-ok (rule_by_target WorkflowState.experiment_executed) s a x h)
authorized_of_request s WorkflowState.statistics_reviewed a x h =
    one review_statistics
      (require_rule-eq-ok (rule_by_target WorkflowState.statistics_reviewed) s a x h)
authorized_of_request s WorkflowState.adversarial_reviewed a x h =
    one review_adversarially
      (require_rule-eq-ok (rule_by_target WorkflowState.adversarial_reviewed) s a x h)
authorized_of_request s WorkflowState.optional_follow_up a x h =
    one enter_follow_up
      (require_rule-eq-ok (rule_by_target WorkflowState.optional_follow_up) s a x h)
authorized_of_request s WorkflowState.reproducibility_verified a x h =
    two skip_follow_up complete_follow_up
      (require_rule-eq-ok (rule_by_target WorkflowState.reproducibility_verified) s a x h)
authorized_of_request s WorkflowState.verdict_eligibility_computed a x h =
    one compute
      (require_rule-eq-ok (rule_by_target WorkflowState.verdict_eligibility_computed) s a x h)
authorized_of_request s WorkflowState.chair_explanation a x h =
    one explain (require_rule-eq-ok (rule_by_target WorkflowState.chair_explanation) s a x h)

request_of_authorized :
    {s : Option WorkflowState} {t : WorkflowState} {a : RoleName} {x : String}
    → Authorized s t a x
    → require_transition_authority s t a x ≡ ok tt
unfolding require_transition_authority rule_by_target WorkflowState-discrete source-discrete
    RoleName-discrete String-discrete contains ◌==◌
request_of_authorized receive = refl
request_of_authorized propose = refl
request_of_authorized review_method = refl
request_of_authorized approve = refl
request_of_authorized lock = refl
request_of_authorized admit = refl
request_of_authorized load = refl
request_of_authorized review_statistics = refl
request_of_authorized review_adversarially = refl
request_of_authorized enter_follow_up = refl
request_of_authorized skip_follow_up = refl
request_of_authorized complete_follow_up = refl
request_of_authorized compute = refl
request_of_authorized explain = refl

-- A transition is granted exactly if it is one of the fourteen documented ones, with its actor and
-- its action.
pub require_transition_authority_iff :
    (s : Option WorkflowState) (t : WorkflowState) (a : RoleName) (x : String)
    → (require_transition_authority s t a x ≡ ok tt) ↔ Authorized s t a x
require_transition_authority_iff s t a x = (authorized_of_request s t a x, request_of_authorized)

-- A granted transition leads to the next state in the order of the enumeration, and the first one
-- to its first state.
abbrev pub IsNext : Option WorkflowState → WorkflowState → Type 0
IsNext none t = state_index t ≡ 0
IsNext (some s) t = state_index t ≡ suc (state_index s)

pub Authorized-IsNext :
    {s : Option WorkflowState} {t : WorkflowState} {a : RoleName} {x : String}
    → Authorized s t a x
    → IsNext s t
Authorized-IsNext receive = refl
Authorized-IsNext propose = refl
Authorized-IsNext review_method = refl
Authorized-IsNext approve = refl
Authorized-IsNext lock = refl
Authorized-IsNext admit = refl
Authorized-IsNext load = refl
Authorized-IsNext review_statistics = refl
Authorized-IsNext review_adversarially = refl
Authorized-IsNext enter_follow_up = refl
Authorized-IsNext skip_follow_up = refl
Authorized-IsNext complete_follow_up = refl
Authorized-IsNext compute = refl
Authorized-IsNext explain = refl

next_state-index :
    (s : WorkflowState) (t : WorkflowState)
    → next_state s ≡ some t
    → state_index t ≡ suc (state_index s)
unfolding next_state source-discrete WorkflowState-discrete ◌==◌
next_state-index WorkflowState.claim_received t h = ground arith
next_state-index _ t h = ground arith
