-- ===== src/Domain/Factories.antt =====
-- The factories of src/quantforge/domain/constitution.py. A factory hands its payload with the payload's
-- digest to the constructor of the model, which runs the model's validator.
use quantforge_ai.Common.{
  ℕ, ◌≡◌, refl, sym, ◌∙◌, ◌↔◌, Bool, true, not, String, Result, ok, raise_if, raise_if-eq-ok,
  ok-injective, ◌>>◌, >>-eq-ok, ◌==◌, ==→≡, ≡→==, string_eq, arith,
}
use quantforge_ai.Domain.Enums.{AmendmentClassification, RoleName}
use quantforge_ai.Domain.Json.{JsonFields}
use quantforge_ai.Domain.Proposal.{ExperimentProposal}
use quantforge_ai.Domain.Constitution.{
  HumanApproval, ConstitutionBody, ExperimentConstitution, AmendmentBody, ConstitutionAmendment,
}
use quantforge_ai.Domain.Platform.{Platform}
use quantforge_ai.Domain.Validate.{scientific_identity}
use quantforge_ai.Domain.Locked.{constitution_integrity, amendment_integrity}

unfoldable pub create_human_approval :
    Platform → String → ExperimentProposal → String → ℕ → Bool → HumanApproval
create_human_approval p approval_id proposal approver approved_at approved = record {
  approval_id = approval_id;
  experiment_id = proposal.experiment_id;
  approved = approved;
  approver = approver;
  approved_at = approved_at;
  proposal_hash = p.sha_proposal proposal;
}

abbrev constitution_body : String → ExperimentProposal → HumanApproval → ℕ → ConstitutionBody
constitution_body constitution_id proposal approval locked_at = record {
  constitution_id = constitution_id;
  experiment_id = proposal.experiment_id;
  proposal = proposal;
  human_approval = approval;
  locked_at = locked_at;
}

abbrev hashed : Platform → ConstitutionBody → ExperimentConstitution
hashed p b = record { body = b; constitution_hash = p.sha_constitution b }

unfoldable pub lock_constitution :
    Platform → String → ExperimentProposal → HumanApproval → ℕ → Result ExperimentConstitution
lock_constitution p constitution_id proposal approval locked_at = do
  constitution_integrity p
      (hashed p (constitution_body constitution_id proposal approval locked_at))
  ok (hashed p (constitution_body constitution_id proposal approval locked_at))

abbrev hashed_amendment : Platform → AmendmentBody → ConstitutionAmendment
hashed_amendment p b = record { body = b; amendment_hash = p.sha_amendment b }

unfoldable pub create_amendment :
    Platform
    → String
    → AmendmentClassification
    → RoleName
    → String
    → JsonFields
    → ℕ
    → String
    → Result ConstitutionAmendment
create_amendment p amendment_id classification author_role reason changes created_at parent = do
  amendment_integrity p (
      hashed_amendment p (record {
        amendment_id = amendment_id;
        classification = classification;
        author_role = author_role;
        reason = reason;
        changes = changes;
        created_at = created_at;
        parent_constitution_hash = parent;
      }))
  ok (
      hashed_amendment p (record {
        amendment_id = amendment_id;
        classification = classification;
        author_role = author_role;
        reason = reason;
        changes = changes;
        created_at = created_at;
        parent_constitution_hash = parent;
      }))

-- When a proposal may be locked with an approval
pub record Lockable (p : Platform) (proposal : ExperimentProposal) (approval : HumanApproval)
    : Type 0 where
  pub well_formed : scientific_identity proposal ≡ ok tt
  pub positive : approval.approved ≡ true
  pub same_experiment : approval.experiment_id ≡ proposal.experiment_id
  pub binds : approval.proposal_hash ≡ p.sha_proposal proposal

integrity-Lockable :
    (p : Platform) (b : ConstitutionBody)
    → constitution_integrity p (hashed p b) ≡ ok tt
    → b.experiment_id ≡ b.proposal.experiment_id
    → Lockable p b.proposal b.human_approval
unfolding constitution_integrity
integrity-Lockable p b h q =
    let (w, h1) = >>-eq-ok (scientific_identity b.proposal) _ h in
    let (a, h2) = >>-eq-ok (raise_if (not b.human_approval.approved) _) _ h1 in
    let (e, h3) =
      >>-eq-ok (raise_if (not (b.human_approval.experiment_id == b.experiment_id)) _) _ h2 in
    let (_, h4) = >>-eq-ok (raise_if (not (b.proposal.experiment_id == b.experiment_id)) _) _ h3 in
    let (d, _) =
      >>-eq-ok (raise_if (not (b.human_approval.proposal_hash == p.sha_proposal b.proposal)) _) _
        h4 in
    record {
      well_formed = w;
      positive = ground (arith, raise_if-eq-ok _ _ a);
      same_experiment =
          ==→≡ b.human_approval.experiment_id b.experiment_id (ground (arith, raise_if-eq-ok _ _ e))
          ∙ q;
      binds =
          ==→≡ b.human_approval.proposal_hash (p.sha_proposal b.proposal)
            (ground (arith, raise_if-eq-ok _ _ d));
    }

Lockable-integrity :
    (p : Platform) (b : ConstitutionBody)
    → Lockable p b.proposal b.human_approval
    → b.experiment_id ≡ b.proposal.experiment_id
    → constitution_integrity p (hashed p b) ≡ ok tt
unfolding constitution_integrity
Lockable-integrity p b l q =
    let w = l.well_formed in
    let a = l.positive in
    let e = ≡→== b.human_approval.experiment_id b.experiment_id (l.same_experiment ∙ sym q) in
    let f = ≡→== b.proposal.experiment_id b.experiment_id (sym q) in
    let d = ≡→== b.human_approval.proposal_hash (p.sha_proposal b.proposal) l.binds in
    let g = ≡→== (p.sha_constitution b) (p.sha_constitution b) refl in
    ground (arith, w, a, e, f, d, g)

-- A constitution can be locked exactly when the proposal is well formed and the approval is positive,
-- for the proposal's experiment, and of the proposal's digest; what is locked is that proposal
-- and that approval, with the digest of the whole.
pub lock_constitution_iff :
    (p : Platform) (constitution_id : String) (proposal : ExperimentProposal)
    (approval : HumanApproval) (locked_at : ℕ) (c : ExperimentConstitution)
    → (lock_constitution p constitution_id proposal approval locked_at ≡ ok c)
      ↔ Lockable p proposal approval
        × (c ≡ hashed p (constitution_body constitution_id proposal approval locked_at))
unfolding lock_constitution
lock_constitution_iff p i x a t c = (
  (λ h.
      let (v, k) = >>-eq-ok (constitution_integrity p (hashed p (constitution_body i x a t))) _ h in
      (integrity-Lockable p (constitution_body i x a t) v refl, sym (ok-injective k))),
  (λ (l, q). rw (Lockable-integrity p (constitution_body i x a t) l refl, q) refl),
)

-- An approval that `create_human_approval` makes for a well-formed proposal locks that proposal if it
-- is positive; it locks another proposal only of the same digest and experiment.
pub create_human_approval-lock :
    (p : Platform) (approval_id : String) (x y : ExperimentProposal) (approver : String) (t : ℕ)
    (approved : Bool)
    → scientific_identity x ≡ ok tt
    → (Lockable p x (create_human_approval p approval_id x approver t approved) ↔ approved ≡ true)
      × (Lockable p y (create_human_approval p approval_id x approver t approved)
          → (p.sha_proposal x ≡ p.sha_proposal y) × (x.experiment_id ≡ y.experiment_id))
unfolding create_human_approval
create_human_approval-lock p approval_id x y approver t approved w = (
  (
    (λ l. l.positive),
    (λ q. record { well_formed = w; positive = q; same_experiment = refl; binds = refl }),
  ),
  (λ l. (l.binds, l.same_experiment)),
)
