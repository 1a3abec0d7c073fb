-- ===== src/Roles/Advisory.antt =====
-- What an output that `validate_role_output` of src/quantforge/roles/validation.py accepts can say.
use quantforge_ai.Common.{
  ◌≡◌, ◌≢◌, refl, sym, any-eq-false, ≡→==, Bool, true, false, not, ◌&&◌, ◌||◌, String, List, [],
  ◌∷◌, ◌++◌, Option, none, some, Result, ok, raise_if, raise_if-eq-ok, for_each, ok-injective,
  >>-eq-ok, All, All-append, All-map, is_empty, contains, is_subset, ◌==◌, ==→≡, string_eq, eqb,
  arith,
}
use quantforge_ai.Domain.Enums.{
  workflow_state_eq, verdict_eq, ReproducibilityStatus, reproducibility_status_eq,
}
use quantforge_ai.Domain.Text.{codes, has_infix}
use quantforge_ai.Domain.Platform.{Platform}
use quantforge_ai.Domain.Proposal.{ExperimentProposal}
use quantforge_ai.Domain.Reviews.{
  EvidenceReference, references_eq, MethodologyReview, StatisticalReview, AdversarialReview,
  AdversarialChallenge, ReproducibilityReview, VerdictEligibility, ChairExplanation,
}
use quantforge_ai.Domain.Case.{TribunalCase}
use quantforge_ai.Roles.Output.{
  GovernedRoleRequest, RoleOutput, collect, references_of, strings, has_type, role_contract,
}
use quantforge_ai.Roles.Texts.{InOutput, strings-In}
use quantforge_ai.Roles.Validation.{
  prohibited_authority_claims, claims_authority, reject_text, reject_authority_claims,
  check_reference, check_references, check_finding, check_challenge, check_methodology,
  check_identity, check_statistical, check_adversarial, asserts_verification, check_reproducibility,
  check_explanation, validate_content, validate_role_output,
}

abbrev challenge_references : AdversarialChallenge → List EvidenceReference
challenge_references c = c.evidence_references

-- Every reference that an output cites
unfoldable pub cited : RoleOutput → List EvidenceReference
unfolding collect
cited (RoleOutput.proposal x) = []
cited (RoleOutput.methodology x) = collect references_of x.findings
cited (RoleOutput.statistical x) = collect references_of x.findings
cited (RoleOutput.adversarial x) =
    collect challenge_references x.challenges ++ collect references_of x.findings
cited (RoleOutput.reproducibility x) = collect references_of x.findings
cited (RoleOutput.explanation x) = x.decisive_evidence ++ x.contradictory_evidence

-- A reference to supplied evidence and supplied facts only
abbrev pub IsSupplied : GovernedRoleRequest → EvidenceReference → Type 0
IsSupplied q r =
    (contains r.evidence_id q.evidence_references ≡ true)
    × (is_subset r.numeric_fact_ids q.numeric_fact_references ≡ true)

for_each-eq-ok {ℓ} :
    {A : Type ℓ} (f : A → Result (Unit {0})) (xs : List A)
    → for_each f xs ≡ ok tt
    → All (λ x. f x ≡ ok tt) xs
unfolding for_each
for_each-eq-ok f [] h = tt
for_each-eq-ok f (x ∷ xs) h = let (a, b) = >>-eq-ok (f x) _ h in (a, for_each-eq-ok f xs b)

check_reference-IsSupplied :
    (q : GovernedRoleRequest) (r : EvidenceReference) → check_reference q r ≡ ok tt → IsSupplied q r
unfolding check_reference
check_reference-IsSupplied q r h =
    let (a, b) = >>-eq-ok (raise_if (not (contains r.evidence_id q.evidence_references)) _) _ h in
    (ground (arith, raise_if-eq-ok _ _ a), ground (arith, raise_if-eq-ok _ _ b))

check_references-All :
    (q : GovernedRoleRequest) (rs : List EvidenceReference) (b : Bool)
    → check_references q rs b ≡ ok tt
    → All (IsSupplied q) rs
unfolding check_references
check_references-All q rs b h =
    let (a, _) = >>-eq-ok (for_each (check_reference q) rs) _ h in
    All-map (check_reference-IsSupplied q) rs (for_each-eq-ok (check_reference q) rs a)

All-collect {ℓ κ μ} :
    {A : Type ℓ} {B : Type κ} (P : B → Type μ) (f : A → List B) (xs : List A)
    → All (λ x. All P (f x)) xs
    → All P (collect f xs)
unfolding collect
All-collect P f [] h = tt
All-collect P f (x ∷ xs) (h, hs) = All-append P (f x) (collect f xs) h (All-collect P f xs hs)

explanation_parts :
    (q : GovernedRoleRequest) (o : Option VerdictEligibility) (x : ChairExplanation)
    → check_explanation q o x ≡ ok tt
    → (e : VerdictEligibility) × (o ≡ some e)
      × (x.computed_verdict ≡ e.verdict)
      × (x.decisive_evidence ≡ e.decisive_evidence)
      × (x.contradictory_evidence ≡ e.contradictory_evidence)
      × All (IsSupplied q) (x.decisive_evidence ++ x.contradictory_evidence)
unfolding check_explanation
explanation_parts q none x h = cc
explanation_parts q (some e) x h =
    let (_, h1) = >>-eq-ok (check_identity q x.explanation_id x.created_at _) _ h in
    let (v, h2) = >>-eq-ok (raise_if (not (x.computed_verdict == e.verdict)) _) _ h1 in
    let (k, h3) =
      >>-eq-ok
        (raise_if
          (not (x.decisive_evidence == e.decisive_evidence)
            || not (x.contradictory_evidence == e.contradictory_evidence))
          _)
        _ h2 in
    let (a, b) = >>-eq-ok (check_references q x.decisive_evidence true) _ h3 in
    let sets = raise_if-eq-ok _ _ k in
    (
      e,
      refl,
      ==→≡ x.computed_verdict e.verdict (ground (arith, raise_if-eq-ok _ _ v)),
      ==→≡ x.decisive_evidence e.decisive_evidence (ground (arith, sets)),
      ==→≡ x.contradictory_evidence e.contradictory_evidence (ground (arith, sets)),
      All-append (IsSupplied q) x.decisive_evidence x.contradictory_evidence
          (check_references-All q x.decisive_evidence true a)
          (check_references-All q x.contradictory_evidence false b),
    )

methodology-IsSupplied :
    (q : GovernedRoleRequest) (o : Option ExperimentProposal) (x : MethodologyReview)
    → check_methodology q o x ≡ ok tt
    → All (IsSupplied q) (collect references_of x.findings)
unfolding check_methodology
methodology-IsSupplied q none x h = cc
methodology-IsSupplied q (some e) x h =
    let (_, k) =
      >>-eq-ok
        (raise_if
          (not (x.review_id == q.expected_output_id)
            || not (x.experiment_id == e.experiment_id)
            || not (eqb x.reviewed_at q.effective_at))
          _)
        _ h in
    check_references-All q _ false k

statistical-IsSupplied :
    (q : GovernedRoleRequest) (x : StatisticalReview)
    → check_statistical q x ≡ ok tt
    → All (IsSupplied q) (collect references_of x.findings)
unfolding check_statistical check_finding
statistical-IsSupplied q x h =
    let (_, h1) = >>-eq-ok (check_identity q x.review_id x.reviewed_at _) _ h in
    let (_, k) = >>-eq-ok (raise_if (is_empty x.findings) _) _ h1 in
    All-collect (IsSupplied q) references_of x.findings (
      All-map {Q = λ f. All (IsSupplied q) (references_of f)}
        (λ f (c : check_finding q f ≡ ok tt). check_references-All q f.evidence_references true c)
        x.findings (for_each-eq-ok (check_finding q) x.findings k))

adversarial-IsSupplied :
    (q : GovernedRoleRequest) (x : AdversarialReview)
    → check_adversarial q x ≡ ok tt
    → All (IsSupplied q) (cited (RoleOutput.adversarial x))
unfolding check_adversarial check_challenge cited
adversarial-IsSupplied q x h =
    let (_, h1) = >>-eq-ok (check_identity q x.review_id x.reviewed_at _) _ h in
    let (a, b) = >>-eq-ok (for_each (check_challenge q) x.challenges) _ h1 in
    All-append (IsSupplied q) (collect challenge_references x.challenges)
      (collect references_of x.findings)
      (All-collect (IsSupplied q) challenge_references x.challenges (
        All-map {Q = λ c. All (IsSupplied q) (challenge_references c)}
          (λ c (k : check_challenge q c ≡ ok tt). check_references-All q c.evidence_references _ k)
          x.challenges (for_each-eq-ok (check_challenge q) x.challenges a)))
      (check_references-All q (collect references_of x.findings) false b)

-- The review states no verification of anything.
pub record VerifiesNothing (x : ReproducibilityReview) : Type 0 where
  pub status : x.status ≢ ReproducibilityStatus.verified
  pub configuration : x.configuration_verified ≡ false
  pub manifests : x.manifests_verified ≡ false
  pub hashes : x.hashes_verified ≡ false
  pub software_identity : x.software_identity_verified ≡ false
  pub data_lineage : x.data_lineage_verified ≡ false
  pub evidence : x.evidence_complete ≡ false

-- Without a verification by QuantForge code a review verifies nothing.
abbrev pub IsVerifiedByCode : GovernedRoleRequest → RoleOutput → Type 0
IsVerifiedByCode q (RoleOutput.reproducibility x) =
    q.code_owned_reproducibility_verified ≡ false → VerifiesNothing x
IsVerifiedByCode q _ = Unit

asserts_verification-VerifiesNothing :
    (x : ReproducibilityReview) → asserts_verification x ≡ false → VerifiesNothing x
unfolding asserts_verification
asserts_verification-VerifiesNothing x h = record {
  status = λ q. let same = ≡→== x.status ReproducibilityStatus.verified q in ground arith;
  configuration = ground arith;
  manifests = ground arith;
  hashes = ground arith;
  software_identity = ground arith;
  data_lineage = ground arith;
  evidence = ground arith;
}

reproducibility_parts :
    (q : GovernedRoleRequest) (x : ReproducibilityReview)
    → check_reproducibility q x ≡ ok tt
    → All (IsSupplied q) (collect references_of x.findings)
      × IsVerifiedByCode q (RoleOutput.reproducibility x)
unfolding check_reproducibility
reproducibility_parts q x h =
    let (_, h1) = >>-eq-ok (check_identity q x.review_id x.reviewed_at _) _ h in
    let (v, k) =
      >>-eq-ok (raise_if (asserts_verification x && not q.code_owned_reproducibility_verified) _) _
        h1 in
    (
      check_references-All q _ false k,
      λ a. asserts_verification-VerifiesNothing x (ground (arith, raise_if-eq-ok _ _ v)),
    )

-- The Chair's explanation reports the eligibility of the case.
abbrev pub ReportsVerdict : TribunalCase → RoleOutput → Type 0
ReportsVerdict c (RoleOutput.explanation x) =
    (e : VerdictEligibility) × (c.verdict_eligibility ≡ some e)
    × (x.computed_verdict ≡ e.verdict)
    × (x.decisive_evidence ≡ e.decisive_evidence)
    × (x.contradictory_evidence ≡ e.contradictory_evidence)
ReportsVerdict c _ = Unit

-- A text that, in folded case, has none of the reserved phrases in it and no mark of a credential
pub record IsHarmless (p : Platform) (text : String) : Type 0 where
  pub credential : has_infix (codes "sk-") (codes (p.casefold text)) ≡ false
  pub phrases :
      All
        (λ phrase. has_infix (codes phrase) (codes (p.casefold text)) ≡ false)
        prohibited_authority_claims

-- What an accepted output is
pub record IsAdvisory (p : Platform) (q : GovernedRoleRequest) (c : TribunalCase) (o : RoleOutput)
    : Type 0 where
  pub typed : has_type q.action o ≡ true
  pub same_case : q.case_id ≡ c.case_id
  pub same_state : q.workflow_state ≡ c.state
  pub no_authority : InOutput (IsHarmless p) o
  pub supplied : All (IsSupplied q) (cited o)
  pub verified_by_code : IsVerifiedByCode q o
  pub reports_verdict : ReportsVerdict c o

content_parts :
    (q : GovernedRoleRequest) (c : TribunalCase) (o : RoleOutput)
    → validate_content q c o ≡ ok tt
    → All (IsSupplied q) (cited o) × IsVerifiedByCode q o × ReportsVerdict c o
unfolding validate_content cited
content_parts q c (RoleOutput.proposal x) h = (tt, tt, tt)
content_parts q c (RoleOutput.methodology x) h = (methodology-IsSupplied q c.proposal x h, tt, tt)
content_parts q c (RoleOutput.statistical x) h = (statistical-IsSupplied q x h, tt, tt)
content_parts q c (RoleOutput.adversarial x) h = (adversarial-IsSupplied q x h, tt, tt)
content_parts q c (RoleOutput.reproducibility x) h =
    let (a, b) = reproducibility_parts q x h in (a, b, tt)
content_parts q c (RoleOutput.explanation x) h =
    let (e, r, v, d, k, a) = explanation_parts q c.verdict_eligibility x h in
    (a, tt, (e, r, v, d, k))

reject_text-IsHarmless :
    (p : Platform) (text : String) → reject_text p text ≡ ok tt → IsHarmless p text
unfolding reject_text claims_authority
reject_text-IsHarmless p text h =
    let (a, b) = >>-eq-ok (raise_if (has_infix (codes "sk-") (codes (p.casefold text))) _) _ h in
    record {
      credential = raise_if-eq-ok _ _ a;
      phrases =
          any-eq-false (λ phrase. has_infix (codes phrase) (codes (p.casefold text)))
            prohibited_authority_claims (raise_if-eq-ok _ _ b);
    }

-- An accepted output is of the type of the action and is bound to the case and its state; no text in any of its fields,
-- down to the texts of its findings, challenges and references, has a phrase of an authority that is reserved to code
-- or the mark of a credential; each reference that it cites, in whatever part, is to supplied evidence and supplied
-- facts; without a verification by code a reproducibility review has neither the status VERIFIED nor any of its six
-- checks; and the Chair's explanation reports the computed verdict with both its sets of evidence.
pub validate_role_output-IsAdvisory :
    (p : Platform) (q : GovernedRoleRequest) (o o' : RoleOutput) (c : TribunalCase)
    → validate_role_output p q o c ≡ ok o'
    → IsAdvisory p q c o × (o' ≡ o)
unfolding validate_role_output reject_authority_claims
validate_role_output-IsAdvisory p q o o' c h =
    let (_, h1) = >>-eq-ok (role_contract q.action) _ h in
    let (t, h2) = >>-eq-ok (raise_if (not (has_type q.action o)) _) _ h1 in
    let (s, h3) =
      >>-eq-ok (raise_if (not (q.case_id == c.case_id) || not (q.workflow_state == c.state)) _) _
        h2 in
    let (a, h4) = >>-eq-ok (for_each (reject_text p) (strings o)) _ h3 in
    let (v, k) = >>-eq-ok (validate_content q c o) _ h4 in
    let (u, w, r) = content_parts q c o v in
    let bound = raise_if-eq-ok _ _ s in
    (
      record {
        typed = ground (arith, raise_if-eq-ok _ _ t);
        same_case = ==→≡ q.case_id c.case_id (ground (arith, bound));
        same_state = ==→≡ q.workflow_state c.state (ground (arith, bound));
        no_authority = strings-In (IsHarmless p) o (
            All-map (reject_text-IsHarmless p) (strings o)
              (for_each-eq-ok (reject_text p) (strings o) a));
        supplied = u;
        verified_by_code = w;
        reports_verdict = r;
      },
      sym (ok-injective k),
    )
