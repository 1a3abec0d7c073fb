-- ===== src/Domain/Governance.antt =====
-- What a case that passes its validation (src/quantforge/domain/models.py) shows.
use quantforge_ai.Common.{
  ℕ, ◌≤◌, ◌<◌, ◌≡◌, refl, sym, ap, ◌∙◌, true, false, Option, none, some, is_some, ok, for_some,
  ◌==◌, ==→≡, List, string_eq, arith,
}
use quantforge_ai.Domain.Enums.{ReviewDecision, review_decision_eq, verdict_eq}
use quantforge_ai.Domain.Proposal.{ExperimentProposal, experiment_proposal_eq}
use quantforge_ai.Domain.Constitution.{
  HumanApproval, human_approval_eq, ExperimentConstitution, ConstitutionAmendment,
}
use quantforge_ai.Domain.Reviews.{
  MethodologyReview, VerdictEligibility, ChairExplanation, references_eq,
}
use quantforge_ai.Domain.Platform.{Platform}
use quantforge_ai.Domain.Locked.{constitution_integrity}
use quantforge_ai.Domain.Case.{TribunalCase}
use quantforge_ai.Domain.Visibility.{
  state_index, staged, staged_fields, staged_evidence, proposal_agrees, methodology_agrees,
  approval_agrees, constitution_agrees, chair_agrees, governed_visibility, validate_parts,
  validate_case,
}

-- The checks of `governed_visibility`, each passed
record Visible (c : TribunalCase) : Type 0 where
  fields : staged_fields c ≡ ok tt
  evidence : staged_evidence c ≡ ok tt
  proposal : proposal_agrees c.claim c.proposal ≡ ok tt
  methodology : methodology_agrees (state_index c.state) c.methodology_review c.proposal ≡ ok tt
  approval : approval_agrees c.human_approval c.proposal ≡ ok tt
  constitution : constitution_agrees c.constitution c.proposal c.human_approval c.amendments ≡ ok tt
  chair : chair_agrees c.chair_explanation c.verdict_eligibility ≡ ok tt

visible : (p : Platform) (c : TribunalCase) → validate_case p c ≡ ok tt → Visible c
unfolding validate_case governed_visibility
visible p c h = record {
  fields = ground arith;
  evidence = ground arith;
  proposal = ground arith;
  methodology = ground arith;
  approval = ground arith;
  constitution = ground arith;
  chair = ground arith;
}

-- A staged field is there from its state on, and not before.
abbrev pub Staged {ℓ} : {A : Type ℓ} → ℕ → ℕ → Option A → Type 0
Staged index introduced_at o =
    (introduced_at ≤ index → is_some o ≡ true) × (index < introduced_at → is_some o ≡ false)

staged-Staged {ℓ} :
    {A : Type ℓ} (index introduced_at : ℕ) (o : Option A)
    → staged index introduced_at o ≡ ok tt
    → Staged index introduced_at o
unfolding staged
staged-Staged index introduced_at none h = (λ k. ground arith, λ k. refl)
staged-Staged index introduced_at (some a) h = (λ k. refl, λ k. ground arith)

pub record IsStaged (c : TribunalCase) : Type 0 where
  pub proposal : Staged (state_index c.state) 1 c.proposal
  pub methodology_review : Staged (state_index c.state) 2 c.methodology_review
  pub human_approval : Staged (state_index c.state) 3 c.human_approval
  pub constitution : Staged (state_index c.state) 4 c.constitution
  pub statistical_review : Staged (state_index c.state) 6 c.statistical_review
  pub adversarial_review : Staged (state_index c.state) 7 c.adversarial_review
  pub reproducibility_review : Staged (state_index c.state) 9 c.reproducibility_review
  pub verdict_eligibility : Staged (state_index c.state) 10 c.verdict_eligibility
  pub chair_explanation : Staged (state_index c.state) 11 c.chair_explanation

module _ (c : TribunalCase) (h : staged_fields c ≡ ok tt) where
  stages :
      (staged (state_index c.state) 1 c.proposal ≡ ok tt)
      × (staged (state_index c.state) 2 c.methodology_review ≡ ok tt)
      × (staged (state_index c.state) 3 c.human_approval ≡ ok tt)
      × (staged (state_index c.state) 4 c.constitution ≡ ok tt)
      × (staged (state_index c.state) 6 c.statistical_review ≡ ok tt)
      × (staged (state_index c.state) 7 c.adversarial_review ≡ ok tt)
      × (staged (state_index c.state) 9 c.reproducibility_review ≡ ok tt)
      × (staged (state_index c.state) 10 c.verdict_eligibility ≡ ok tt)
      × (staged (state_index c.state) 11 c.chair_explanation ≡ ok tt)
  unfolding staged_fields
  stages = ground arith

-- In a valid case each staged field is present from the state that introduces it on, and absent
-- before.
pub validate_case-IsStaged :
    (p : Platform) (c : TribunalCase) → validate_case p c ≡ ok tt → IsStaged c
validate_case-IsStaged p c h =
    let (a, b, d, e, f, g, i, j, k) = stages c (visible p c h).fields in
    let n = state_index c.state in
    record {
      proposal = staged-Staged n 1 c.proposal a;
      methodology_review = staged-Staged n 2 c.methodology_review b;
      human_approval = staged-Staged n 3 c.human_approval d;
      constitution = staged-Staged n 4 c.constitution e;
      statistical_review = staged-Staged n 6 c.statistical_review f;
      adversarial_review = staged-Staged n 7 c.adversarial_review g;
      reproducibility_review = staged-Staged n 9 c.reproducibility_review i;
      verdict_eligibility = staged-Staged n 10 c.verdict_eligibility j;
      chair_explanation = staged-Staged n 11 c.chair_explanation k;
    }

-- The recorded approval is positive, names the experiment of the recorded proposal, and its hash is
-- that proposal's; the methodology review of the same experiment approves.
pub record Approved (p : Platform) (c : TribunalCase) : Type 0 where
  pub proposal : ExperimentProposal
  pub methodology : MethodologyReview
  pub approval : HumanApproval
  pub constitution : ExperimentConstitution
  pub has_proposal : c.proposal ≡ some proposal
  pub has_methodology : c.methodology_review ≡ some methodology
  pub has_approval : c.human_approval ≡ some approval
  pub has_constitution : c.constitution ≡ some constitution
  pub methodology_approves : methodology.decision ≡ ReviewDecision.approved
  pub same_experiment : methodology.experiment_id ≡ proposal.experiment_id
  pub is_positive : approval.approved ≡ true
  pub binds : approval.proposal_hash ≡ p.sha_proposal proposal
  pub embeds_proposal : constitution.proposal ≡ proposal
  pub embeds_approval : constitution.human_approval ≡ approval

valued {ℓ} : {A : Type ℓ} (o : Option A) → is_some o ≡ true → (a : A) × (o ≡ some a)
valued none h = ground arith
valued (some a) h = (a, refl)

constitution_valid :
    (p : Platform) (c : TribunalCase)
    → validate_case p c ≡ ok tt
    → for_some (constitution_integrity p) c.constitution ≡ ok tt
unfolding validate_case validate_parts
constitution_valid p c h = ground arith

hash_bound :
    (p : Platform) (k : ExperimentConstitution)
    → constitution_integrity p k ≡ ok tt
    → (k.human_approval.proposal_hash == p.sha_proposal k.proposal) ≡ true
unfolding constitution_integrity
hash_bound p k h = ground arith

methodology_facts :
    (n : ℕ) (m : MethodologyReview) (x : ExperimentProposal)
    → 3 ≤ n
    → methodology_agrees n (some m) (some x) ≡ ok tt
    → ((m.experiment_id == x.experiment_id) ≡ true)
      × ((m.decision == ReviewDecision.approved) ≡ true)
unfolding methodology_agrees
methodology_facts n m x l h = (ground arith, ground arith)

approval_facts :
    (a : HumanApproval) (x : ExperimentProposal)
    → approval_agrees (some a) (some x) ≡ ok tt
    → a.approved ≡ true
unfolding approval_agrees
approval_facts a x h = ground arith

constitution_facts :
    (k : ExperimentConstitution) (x : ExperimentProposal) (a : HumanApproval)
    (l : List ConstitutionAmendment)
    → constitution_agrees (some k) (some x) (some a) l ≡ ok tt
    → ((k.proposal == x) ≡ true) × ((k.human_approval == a) ≡ true)
unfolding constitution_agrees
constitution_facts k x a l h = (ground arith, ground arith)

-- A valid case from CONSTITUTION_LOCKED on has an approving methodology review and a positive human
-- approval, both of the recorded proposal's experiment, and a constitution that embeds that proposal
-- and that approval; the approval's hash is the hash of the proposal.
pub validate_case-Approved :
    (p : Platform) (c : TribunalCase)
    → validate_case p c ≡ ok tt
    → 4 ≤ state_index c.state
    → Approved p c
validate_case-Approved p c h l =
    let s = validate_case-IsStaged p c h in
    let v = visible p c h in
    let (x, ex) = valued c.proposal (s.proposal.0 (omega arith)) in
    let (m, em) = valued c.methodology_review (s.methodology_review.0 (omega arith)) in
    let (a, ea) = valued c.human_approval (s.human_approval.0 (omega arith)) in
    let (k, ek) = valued c.constitution (s.constitution.0 l) in
    let (same, decided) =
      methodology_facts (state_index c.state) m x (omega arith) (rw (em, ex) at v.methodology) in
    let positive = approval_facts a x (rw (ea, ex) at v.approval) in
    let (px, pa) = constitution_facts k x a c.amendments (rw (ek, ex, ea) at v.constitution) in
    let bound = hash_bound p k (rw ek at (constitution_valid p c h)) in
    let x_eq : k.proposal ≡ x = ==→≡ k.proposal x px in
    let a_eq : k.human_approval ≡ a = ==→≡ k.human_approval a pa in
    record {
      proposal = x;
      methodology = m;
      approval = a;
      constitution = k;
      has_proposal = ex;
      has_methodology = em;
      has_approval = ea;
      has_constitution = ek;
      methodology_approves = ==→≡ m.decision ReviewDecision.approved decided;
      same_experiment = ==→≡ m.experiment_id x.experiment_id same;
      is_positive = positive;
      binds =
          ap (λ (z : HumanApproval). z.proposal_hash) (sym a_eq)
          ∙ (==→≡ k.human_approval.proposal_hash (p.sha_proposal k.proposal) bound
              ∙ ap p.sha_proposal x_eq);
      embeds_proposal = x_eq;
      embeds_approval = a_eq;
    }

chair_facts :
    (x : ChairExplanation) (e : VerdictEligibility)
    → chair_agrees (some x) (some e) ≡ ok tt
    → ((x.computed_verdict == e.verdict) ≡ true)
      × ((x.decisive_evidence == e.decisive_evidence) ≡ true)
      × ((x.contradictory_evidence == e.contradictory_evidence) ≡ true)
unfolding chair_agrees
chair_facts x e h = (ground arith, ground arith, ground arith)

-- The Chair of a valid case reports the computed verdict and its two sets of evidence.
pub validate_case-chair :
    (p : Platform) (c : TribunalCase) (x : ChairExplanation)
    → validate_case p c ≡ ok tt
    → c.chair_explanation ≡ some x
    → (e : VerdictEligibility) × (c.verdict_eligibility ≡ some e)
      × (x.computed_verdict ≡ e.verdict)
      × (x.decisive_evidence ≡ e.decisive_evidence)
      × (x.contradictory_evidence ≡ e.contradictory_evidence)
validate_case-chair p c x h ex = chair_cases c.verdict_eligibility refl
  where
    agrees : chair_agrees (some x) c.verdict_eligibility ≡ ok tt
    agrees = rw ex at (visible p c h).chair

    chair_cases :
        (o : Option VerdictEligibility)
        → c.verdict_eligibility ≡ o
        → (e : VerdictEligibility) × (c.verdict_eligibility ≡ some e)
          × (x.computed_verdict ≡ e.verdict)
          × (x.decisive_evidence ≡ e.decisive_evidence)
          × (x.contradictory_evidence ≡ e.contradictory_evidence)
    chair_cases none q = absurd (unfold chair_agrees in (cc (rw q at agrees)))
    chair_cases (some e) q =
        let (v, d, n) = chair_facts x e (rw q at agrees) in
        (
          e,
          q,
          ==→≡ x.computed_verdict e.verdict v,
          ==→≡ x.decisive_evidence e.decisive_evidence d,
          ==→≡ x.contradictory_evidence e.contradictory_evidence n,
        )
