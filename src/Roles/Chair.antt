-- ===== src/Roles/Chair.antt =====
-- src/quantforge/roles/chair.py: the Chair explains the computed verdict and cannot change it.
use quantforge_ai.Common.{
  ℕ, ◌<◌, ◌≡◌, sym, ap, subst, ◌↔◌, not, String, List, value_error, permission_error, Result, ok,
  err, raise_if, ◌>>◌, ltb, ◌==◌, ==→≡, ≡→==, arith, >>-eq-ok, raise_if-eq-ok, ok-injective,
}
use quantforge_ai.Domain.Enums.{Verdict, verdict_eq}
use quantforge_ai.Domain.Reviews.{VerdictEligibility, ChairExplanation}
use quantforge_ai.Domain.Validate.{validate_explanation}

-- `_STRENGTH`
abbrev pub strength : Verdict → ℕ
strength Verdict.rejected = 0
strength Verdict.inconclusive = 1
strength Verdict.fragile = 2
strength Verdict.provisionally_supported = 3
strength Verdict.supported = 4

-- The object that `create_chair_explanation` hands to the constructor
unfoldable pub explanation_of :
    String → VerdictEligibility → String → List String → List String → ℕ → ChairExplanation
explanation_of explanation_id e summary limitations conditions created_at = record {
  explanation_id = explanation_id;
  computed_verdict = e.verdict;
  summary = summary;
  decisive_evidence = e.decisive_evidence;
  contradictory_evidence = e.contradictory_evidence;
  limitations = limitations;
  verdict_change_conditions = conditions;
  created_at = created_at;
}

unfoldable pub create_chair_explanation :
    String
    → VerdictEligibility
    → Verdict
    → String
    → List String
    → List String
    → ℕ
    → Result ChairExplanation
unfolding explanation_of
create_chair_explanation explanation_id e requested summary limitations conditions created_at = do
  raise_if (ltb (strength e.verdict) (strength requested))
      (permission_error "Chair cannot upgrade the deterministic policy verdict")
  raise_if (not (requested == e.verdict))
      (value_error "Chair explanation must report the exact computed verdict")
  validate_explanation (explanation_of explanation_id e summary limitations conditions created_at)
  ok (explanation_of explanation_id e summary limitations conditions created_at)

-- An explanation with the verdict and both sets of evidence of the eligibility, and with the given texts
pub record Explains (i : String) (e : VerdictEligibility) (text : String)
    (limits conditions : List String) (t : ℕ) (x : ChairExplanation) : Type 0 where
  pub explanation_id : x.explanation_id ≡ i
  pub computed_verdict : x.computed_verdict ≡ e.verdict
  pub summary : x.summary ≡ text
  pub decisive_evidence : x.decisive_evidence ≡ e.decisive_evidence
  pub contradictory_evidence : x.contradictory_evidence ≡ e.contradictory_evidence
  pub limitations : x.limitations ≡ limits
  pub verdict_change_conditions : x.verdict_change_conditions ≡ conditions
  pub created_at : x.created_at ≡ t

module _ (i : String) (e : VerdictEligibility) (s : String) (l k : List String) (t : ℕ) where
  explanation_of-Explains :
      (x : ChairExplanation) → explanation_of i e s l k t ≡ x → Explains i e s l k t x
  unfolding explanation_of
  explanation_of-Explains x q = record {
    explanation_id = ap (λ (z : ChairExplanation). z.explanation_id) (sym q);
    computed_verdict = ap (λ (z : ChairExplanation). z.computed_verdict) (sym q);
    summary = ap (λ (z : ChairExplanation). z.summary) (sym q);
    decisive_evidence = ap (λ (z : ChairExplanation). z.decisive_evidence) (sym q);
    contradictory_evidence = ap (λ (z : ChairExplanation). z.contradictory_evidence) (sym q);
    limitations = ap (λ (z : ChairExplanation). z.limitations) (sym q);
    verdict_change_conditions = ap (λ (z : ChairExplanation). z.verdict_change_conditions) (sym q);
    created_at = ap (λ (z : ChairExplanation). z.created_at) (sym q);
  }

  Explains-unique : (x : ChairExplanation) → Explains i e s l k t x → x ≡ explanation_of i e s l k t
  unfolding explanation_of
  Explains-unique x h j = record {
    explanation_id = h.explanation_id j;
    computed_verdict = h.computed_verdict j;
    summary = h.summary j;
    decisive_evidence = h.decisive_evidence j;
    contradictory_evidence = h.contradictory_evidence j;
    limitations = h.limitations j;
    verdict_change_conditions = h.verdict_change_conditions j;
    created_at = h.created_at j;
  }

-- `create_chair_explanation` returns exactly when the requested verdict is the computed one and the
-- explanation is well formed; the explanation reports the computed verdict and both sets of its
-- evidence. A stronger verdict than the computed one is a `PermissionError`.
pub create_chair_explanation_iff :
    (i : String) (e : VerdictEligibility) (requested : Verdict) (summary : String)
    (limitations conditions : List String) (t : ℕ) (x : ChairExplanation)
    → ((create_chair_explanation i e requested summary limitations conditions t ≡ ok x) ↔ (
        (requested ≡ e.verdict)
        × (validate_explanation x ≡ ok tt)
        × Explains i e summary limitations conditions t x))
      × (strength e.verdict < strength requested
          → create_chair_explanation i e requested summary limitations conditions t
            ≡ err (permission_error "Chair cannot upgrade the deterministic policy verdict"))
unfolding create_chair_explanation
create_chair_explanation_iff i e requested summary limitations conditions t x =
    ((there, back), λ l. ground arith)
  where
    there :
        create_chair_explanation i e requested summary limitations conditions t ≡ ok x
        → (requested ≡ e.verdict)
          × (validate_explanation x ≡ ok tt)
          × Explains i e summary limitations conditions t x
    there h =
        let (_, h1) = >>-eq-ok (raise_if (ltb (strength e.verdict) (strength requested)) _) _ h in
        let (s, h2) = >>-eq-ok (raise_if (not (requested == e.verdict)) _) _ h1 in
        let (v, k) =
          >>-eq-ok (validate_explanation (explanation_of i e summary limitations conditions t)) _
            h2 in
        let q = ok-injective k in
        (
          ==→≡ requested e.verdict (ground (arith, raise_if-eq-ok _ _ s)),
          subst (λ z. validate_explanation z ≡ ok tt) q v,
          explanation_of-Explains i e summary limitations conditions t x q,
        )

    back :
        (requested ≡ e.verdict)
          × (validate_explanation x ≡ ok tt)
          × Explains i e summary limitations conditions t x
        → create_chair_explanation i e requested summary limitations conditions t ≡ ok x
    back (q, v, r) =
        let k = Explains-unique i e summary limitations conditions t x r in
        let w : validate_explanation (explanation_of i e summary limitations conditions t) ≡ ok tt =
          subst (λ z. validate_explanation z ≡ ok tt) k v in
        let same = ≡→== requested e.verdict q in
        let weak : strength requested ≡ strength e.verdict = ap strength q in
        ground (arith, w, same, weak, k)
