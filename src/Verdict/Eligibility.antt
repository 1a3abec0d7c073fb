-- ===== src/Verdict/Eligibility.antt =====
-- The object that `VerdictPolicy.compute` returns.
use quantforge_ai.Common.{ℕ, ◌≡◌, refl, String, ok, arith}
use quantforge_ai.Domain.Reviews.{VerdictEligibility}
use quantforge_ai.Domain.Validate.{validate_eligibility}
use quantforge_ai.Verdict.{VerdictInputs, validate_inputs, eligibility_of, compute, decide}

eligibility_of-valid :
    (i : VerdictInputs) (eligibility_id : String) (computed_at : ℕ)
    → validate_inputs i ≡ ok tt
    → validate_eligibility (eligibility_of i eligibility_id computed_at) ≡ ok tt
unfolding validate_eligibility validate_inputs eligibility_of
eligibility_of-valid i eligibility_id computed_at h = ground arith

-- For inputs that pass their validator, `compute` returns: the eligibility passes its own validator,
-- holds the policy's verdict, and copies both sets of evidence.
pub compute_total :
    (i : VerdictInputs) (eligibility_id : String) (computed_at : ℕ)
    → validate_inputs i ≡ ok tt
    → (e : VerdictEligibility) × (compute i eligibility_id computed_at ≡ ok e)
      × (validate_eligibility e ≡ ok tt)
      × (e.verdict ≡ (decide i).0)
      × (e.decisive_evidence ≡ i.decisive_evidence)
      × (e.contradictory_evidence ≡ i.contradictory_evidence)
unfolding compute
compute_total i eligibility_id computed_at h =
    let valid = eligibility_of-valid i eligibility_id computed_at h in
    (eligibility_of i eligibility_id computed_at, rw valid, valid, refl, refl, refl)
