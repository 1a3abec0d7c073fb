-- ===== src/Machine/Progress.antt =====
-- What a call of `advance` of src/quantforge/workflow/machine.py that returns has done to the case.
use quantforge_ai.Common.{
  ℕ, suc, ◌≡◌, refl, sym, ap, subst, true, not, ◌≢◌, String, List, Option, none, some, Result, ok,
  err, raise_if, raise_if-eq-ok, ok-injective, >>-eq-ok, ◌==◌, ==→≡, ≡→==, arith,
}
use quantforge_ai.Domain.Enums.{
  WorkflowState, workflow_state_eq, RoleName, ReviewDecision, review_decision_eq,
}
use quantforge_ai.Domain.Constitution.{HumanApproval, human_approval_eq, ExperimentConstitution}
use quantforge_ai.Domain.Reviews.{MethodologyReview}
use quantforge_ai.Domain.Case.{TribunalCase}
use quantforge_ai.Domain.Visibility.{state_index, validate_case}
use quantforge_ai.Workflow.Rules.{next_state, source_eq, require_transition_authority}
use quantforge_ai.Workflow.Authority.{
  Authorized, require_transition_authority_iff, Authorized-IsNext,
}
use quantforge_ai.Audit.Event.{Payload, AuditEvent, AuditPlatform}
use quantforge_ai.Audit.Governed.{update-eq-ok}
use quantforge_ai.Machine.{
  StateMachine, Given, absent, given, apply, get, Updates, update, is_approved_review, is_positive,
  uses_approval, require_field, validate_prerequisites, commit, record_case, prepare, advance,
}

-- The new value of a field: the given one, or else the old one
abbrev pub Sets {ℓ} : {A : Type ℓ} → Given A → A → A → Type ℓ
Sets absent old new = new ≡ old
Sets (given value) old new = new ≡ value

-- The case after the updates
pub record Updated (c : TribunalCase) (u : Updates) (target : WorkflowState) (d : TribunalCase)
    : Type 0 where
  pub state : d.state ≡ target
  pub case_id : Sets u.case_id c.case_id d.case_id
  pub claim : Sets u.claim c.claim d.claim
  pub proposal : Sets u.proposal c.proposal d.proposal
  pub methodology_review : Sets u.methodology_review c.methodology_review d.methodology_review
  pub human_approval : Sets u.human_approval c.human_approval d.human_approval
  pub constitution : Sets u.constitution c.constitution d.constitution
  pub amendments : Sets u.amendments c.amendments d.amendments
  pub evidence_ids : Sets u.evidence_ids c.evidence_ids d.evidence_ids
  pub statistical_review : Sets u.statistical_review c.statistical_review d.statistical_review
  pub adversarial_review : Sets u.adversarial_review c.adversarial_review d.adversarial_review
  pub follow_up_disposition :
      Sets u.follow_up_disposition c.follow_up_disposition d.follow_up_disposition
  pub reproducibility_review :
      Sets u.reproducibility_review c.reproducibility_review d.reproducibility_review
  pub verdict_eligibility : Sets u.verdict_eligibility c.verdict_eligibility d.verdict_eligibility
  pub chair_explanation : Sets u.chair_explanation c.chair_explanation d.chair_explanation

-- A field that the updates give a value
abbrev pub Supplied {ℓ} : {A : Type ℓ} → Given (Option A) → Type ℓ
Supplied {A = A} g = (value : A) × (g ≡ given (some value))

-- What a state asks of the case before it and of the updates
abbrev pub Ready : TribunalCase → Updates → WorkflowState → Type 0
Ready c u WorkflowState.human_approval =
    ((review : MethodologyReview) × (c.methodology_review ≡ some review)
      × (review.decision ≡ ReviewDecision.approved))
    × (approval : HumanApproval) × (u.human_approval ≡ given (some approval))
    × (approval.approved ≡ true)
Ready c u WorkflowState.constitution_locked =
    (constitution : ExperimentConstitution) × (u.constitution ≡ given (some constitution))
    × (c.human_approval ≡ some constitution.human_approval)
Ready c u WorkflowState.researcher_protocol_proposed = Supplied u.proposal
Ready c u WorkflowState.methodology_reviewed = Supplied u.methodology_review
Ready c u WorkflowState.statistics_reviewed = Supplied u.statistical_review
Ready c u WorkflowState.adversarial_reviewed = Supplied u.adversarial_review
Ready c u WorkflowState.reproducibility_verified = Supplied u.reproducibility_review
Ready c u WorkflowState.verdict_eligibility_computed = Supplied u.verdict_eligibility
Ready c u WorkflowState.chair_explanation = Supplied u.chair_explanation
Ready c u _ = Unit

-- A step of the case
pub record Advanced (p : AuditPlatform) (c : TribunalCase) (target : WorkflowState)
    (actor : RoleName) (action : String) (u : Updates) (d : TribunalCase) : Type 0 where
  pub authorized : Authorized (some c.state) target actor action
  pub next : state_index target ≡ suc (state_index c.state)
  pub not_follow_up : target ≢ WorkflowState.reproducibility_verified
  pub prerequisites : Ready c u target
  pub updated : Updated c u target d
  pub valid : validate_case p.domain d ≡ ok tt

apply-Sets {ℓ} : {A : Type ℓ} (g : Given A) (old : A) → Sets g old (apply g old)
apply-Sets absent old = refl
apply-Sets (given value) old = refl

update-Updated : (c : TribunalCase) (u : Updates) (t : WorkflowState) → Updated c u t (update c u t)
unfolding update
update-Updated c u t = record {
  state = refl;
  case_id = apply-Sets u.case_id c.case_id;
  claim = apply-Sets u.claim c.claim;
  proposal = apply-Sets u.proposal c.proposal;
  methodology_review = apply-Sets u.methodology_review c.methodology_review;
  human_approval = apply-Sets u.human_approval c.human_approval;
  constitution = apply-Sets u.constitution c.constitution;
  amendments = apply-Sets u.amendments c.amendments;
  evidence_ids = apply-Sets u.evidence_ids c.evidence_ids;
  statistical_review = apply-Sets u.statistical_review c.statistical_review;
  adversarial_review = apply-Sets u.adversarial_review c.adversarial_review;
  follow_up_disposition = apply-Sets u.follow_up_disposition c.follow_up_disposition;
  reproducibility_review = apply-Sets u.reproducibility_review c.reproducibility_review;
  verdict_eligibility = apply-Sets u.verdict_eligibility c.verdict_eligibility;
  chair_explanation = apply-Sets u.chair_explanation c.chair_explanation;
}

require_field-Supplied {ℓ} :
    {A : Type ℓ} (g : Given (Option A)) → require_field g ≡ ok tt → Supplied g
require_field-Supplied absent h = cc
require_field-Supplied (given none) h = cc
require_field-Supplied (given (some value)) h = (value, refl)

approved_review :
    (o : Option MethodologyReview)
    → is_approved_review o ≡ true
    → (review : MethodologyReview) × (o ≡ some review) × (review.decision ≡ ReviewDecision.approved)
approved_review none h = cc
approved_review (some r) h = (r, refl, ==→≡ r.decision ReviewDecision.approved h)

positive_approval :
    (g : Given (Option HumanApproval))
    → is_positive (get g) ≡ true
    → (approval : HumanApproval) × (g ≡ given (some approval)) × (approval.approved ≡ true)
positive_approval absent h = cc
positive_approval (given none) h = cc
positive_approval (given (some a)) h = (a, refl, h)

recorded_approval :
    (g : Given (Option ExperimentConstitution)) (o : Option HumanApproval)
    → uses_approval (get g) o ≡ ok tt
    → (constitution : ExperimentConstitution) × (g ≡ given (some constitution))
      × (o ≡ some constitution.human_approval)
unfolding uses_approval
recorded_approval absent o h = cc
recorded_approval (given none) o h = cc
recorded_approval (given (some c)) none h = cc
recorded_approval (given (some c)) (some a) h =
    (c, refl, ap some (sym (==→≡ c.human_approval a (ground (arith, raise_if-eq-ok _ _ h)))))

validate_prerequisites-Ready :
    (c : TribunalCase) (target : WorkflowState) (u : Updates)
    → validate_prerequisites c target u ≡ ok tt
    → Ready c u target
unfolding validate_prerequisites
validate_prerequisites-Ready c WorkflowState.human_approval u h =
    let (a, b) = >>-eq-ok (raise_if (not (is_approved_review c.methodology_review)) _) _ h in
    let (approval, supplied, approved) =
      positive_approval u.human_approval (ground (arith, raise_if-eq-ok _ _ b)) in
    (
      approved_review c.methodology_review (ground (arith, raise_if-eq-ok _ _ a)),
      approval,
      supplied,
      approved,
    )
validate_prerequisites-Ready c WorkflowState.constitution_locked u h =
    recorded_approval u.constitution c.human_approval h
validate_prerequisites-Ready c WorkflowState.researcher_protocol_proposed u h =
    require_field-Supplied u.proposal h
validate_prerequisites-Ready c WorkflowState.methodology_reviewed u h =
    require_field-Supplied u.methodology_review h
validate_prerequisites-Ready c WorkflowState.statistics_reviewed u h =
    require_field-Supplied u.statistical_review h
validate_prerequisites-Ready c WorkflowState.adversarial_reviewed u h =
    require_field-Supplied u.adversarial_review h
validate_prerequisites-Ready c WorkflowState.reproducibility_verified u h =
    require_field-Supplied u.reproducibility_review h
validate_prerequisites-Ready c WorkflowState.verdict_eligibility_computed u h =
    require_field-Supplied u.verdict_eligibility h
validate_prerequisites-Ready c WorkflowState.chair_explanation u h =
    require_field-Supplied u.chair_explanation h
validate_prerequisites-Ready c WorkflowState.claim_received u h = tt
validate_prerequisites-Ready c WorkflowState.experiment_executed u h = tt
validate_prerequisites-Ready c WorkflowState.optional_follow_up u h = tt

committed_case :
    (m : StateMachine) (c : TribunalCase) (r : Result AuditEvent × List AuditEvent)
    {d : TribunalCase}
    → (commit m c r).0 ≡ ok d
    → c ≡ d
committed_case m c (ok e, log) h = ok-injective h
committed_case m c (err x, log) h = cc

recorded_case :
    (p : AuditPlatform) (m : StateMachine) (r : Result TribunalCase) (target : WorkflowState)
    (actor : RoleName) (action : String) (timestamp : ℕ) (payload : Payload) {d : TribunalCase}
    → (record_case p m r target actor action timestamp payload).0 ≡ ok d
    → r ≡ ok d
recorded_case p m (err x) target actor action timestamp payload h = cc
recorded_case p m (ok c) target actor action timestamp payload h = ap ok (committed_case m c _ h)

prepare-Advanced :
    (p : AuditPlatform) (c : TribunalCase) (target : WorkflowState) (actor : RoleName)
    (action : String) (u : Updates) {d : TribunalCase}
    → prepare p c target actor action u ≡ ok d
    → Advanced p c target actor action u d
unfolding prepare
prepare-Advanced p c target actor action u h =
    let (_, h1) = >>-eq-ok (raise_if (not (next_state c.state == some target)) _) _ h in
    let (f, h2) = >>-eq-ok (raise_if (target == WorkflowState.reproducibility_verified) _) _ h1 in
    let (a, h3) = >>-eq-ok (require_transition_authority (some c.state) target actor action) _ h2 in
    let (v, k) = >>-eq-ok (validate_prerequisites c target u) _ h3 in
    let (valid, same) = update-eq-ok p.domain (update c u target) k in
    let authorized = (require_transition_authority_iff (some c.state) target actor action).0 a in
    record {
      authorized = authorized;
      next = Authorized-IsNext authorized;
      not_follow_up =
          λ q. cc (raise_if-eq-ok _ _ f, ≡→== target WorkflowState.reproducibility_verified q);
      prerequisites = validate_prerequisites-Ready c target u v;
      updated = subst (Updated c u target) same (update-Updated c u target);
      valid = valid;
    }

-- Where `advance` returns a case, the transition is a documented one, by its actor and its action, to the next
-- state, which is not the one that closes the follow-up. What the state asks for is there: an approved methodology review
-- and a given positive approval before the human approval, a given constitution with the recorded approval before the lock,
-- and a given review, eligibility or explanation before the states that are named for one. Each field of the case has the
-- given value or else its old one, the state is the new one, and the case is valid.
pub advance-Advanced :
    (p : AuditPlatform) (m : StateMachine) (target : WorkflowState) (actor : RoleName)
    (action : String) (timestamp : ℕ) (payload : Payload) (u : Updates) (d : TribunalCase)
    → (advance p m target actor action timestamp payload u).0 ≡ ok d
    → Advanced p m.case target actor action u d
unfolding advance
advance-Advanced p m target actor action timestamp payload u d h =
    prepare-Advanced p m.case target actor action u (
      recorded_case p m (prepare p m.case target actor action u) target actor action timestamp
        payload h)
