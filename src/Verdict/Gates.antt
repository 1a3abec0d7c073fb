-- ===== src/Verdict/Gates.antt =====
-- What the verdict of src/quantforge/verdict/policy.py says of its inputs.
use quantforge_ai.Common.{
  ◌≡◌, ◌≢◌, ◌↔◌, ◌⊎◌, inl, inr, true, false, [], ◌==◌, ==→≡, ≡→==, any-eq-false, any_of_All, All,
  All-map, Bool-cases, arith,
}
use quantforge_ai.Domain.Enums.{
  ReviewDecision, ReviewDecision-discrete, ValidationStatus, validation_status_eq,
  CorrectedInference, CorrectedInference-discrete, ExpectedDirection, ExpectedDirection-discrete,
  EffectDirection, EffectDirection-discrete, GateStatus, GateStatus-discrete, Sensitivity,
  Sensitivity-discrete, Stability, Stability-discrete, ReproducibilityStatus,
  ReproducibilityStatus-discrete, Verdict,
}
use quantforge_ai.Verdict.{
  VerdictInputs, not_validated, is_rejected, is_incomplete, is_unresolved_inference,
  is_contradicted, is_fragile, is_supported, decide,
}

-- The gates that the policy names, as facts about the inputs. The first four must hold for any
-- support; the last two tell full from provisional support.
pub record IsComplete (i : VerdictInputs) : Type 0 where
  pub methodology : (i.methodology_status ≡ ReviewDecision.approved)
  pub critical : i.unresolved_critical_findings ≡ false
  pub experiment : i.primary_experiment_complete ≡ true
  pub evidence : i.evidence_validation_statuses ≢ []
  pub validated : All (λ s. s ≡ ValidationStatus.validated) i.evidence_validation_statuses
  pub robustness : i.robustness_status ≢ GateStatus.unresolved
  pub reproducibility : i.reproducibility_status ≡ ReproducibilityStatus.verified

pub record IsEstablished (i : VerdictInputs) : Type 0 where
  pub inference : i.corrected_inference ≡ CorrectedInference.pass
  pub practical : i.practical_significance ≡ true
  pub direction :
      (i.effect_direction ≡ EffectDirection.positive)
      ⊎ (i.effect_direction ≡ EffectDirection.negative)

abbrev pub Opposes : VerdictInputs → Type 0
Opposes i =
    (i.expected_direction ≡ ExpectedDirection.positive)
      × (i.effect_direction ≡ EffectDirection.negative)
    ⊎ (i.expected_direction ≡ ExpectedDirection.negative)
      × (i.effect_direction ≡ EffectDirection.positive)

pub record IsRobust (i : VerdictInputs) : Type 0 where
  pub robustness : i.robustness_status ≢ GateStatus.fail
  pub cost : i.cost_sensitivity ≢ Sensitivity.high
  pub parameter : i.parameter_stability ≢ Stability.unstable
  pub regime : i.regime_stability ≢ Stability.unstable
  pub concentration : i.concentration_risk ≢ Sensitivity.high
  pub contradictory : i.contradictory_evidence ≡ []

pub record IsUnqualified (i : VerdictInputs) : Type 0 where
  pub cost : i.cost_sensitivity ≡ Sensitivity.low
  pub parameter : i.parameter_stability ≡ Stability.stable
  pub regime : i.regime_stability ≡ Stability.stable
  pub concentration : i.concentration_risk ≡ Sensitivity.low
  pub limitations : i.unresolved_noncritical_limitations ≡ false

validated_of_test :
    (s : ValidationStatus) → not_validated s ≡ false → s ≡ ValidationStatus.validated
validated_of_test s h = ==→≡ s ValidationStatus.validated (ground arith)

test_of_validated :
    (s : ValidationStatus) → s ≡ ValidationStatus.validated → not_validated s ≡ false
test_of_validated s h = ground (arith, ≡→== s ValidationStatus.validated h)

IsComplete-of_tests :
    (i : VerdictInputs) → is_rejected i ≡ false → is_incomplete i ≡ false → IsComplete i
unfolding is_rejected is_incomplete ◌==◌ ReviewDecision-discrete GateStatus-discrete
    ReproducibilityStatus-discrete
IsComplete-of_tests i h k = record {
  methodology = ground arith;
  critical = ground arith;
  experiment = ground arith;
  evidence = ground arith;
  validated =
      All-map validated_of_test i.evidence_validation_statuses
        (any-eq-false not_validated i.evidence_validation_statuses (ground arith));
  robustness = ground arith;
  reproducibility = ground arith;
}

tests_of_complete :
    (i : VerdictInputs) → IsComplete i → (is_rejected i ≡ false) × (is_incomplete i ≡ false)
unfolding is_rejected is_incomplete ◌==◌ ReviewDecision-discrete GateStatus-discrete
    ReproducibilityStatus-discrete
tests_of_complete i c =
    let v =
      any_of_All not_validated i.evidence_validation_statuses
        (All-map test_of_validated i.evidence_validation_statuses c.validated) in
    (ground arith, ground arith)

IsEstablished-iff : (i : VerdictInputs) → (is_unresolved_inference i ≡ false) ↔ IsEstablished i
unfolding is_unresolved_inference ◌==◌ CorrectedInference-discrete EffectDirection-discrete
IsEstablished-iff i = (
  λ h. record { inference = ground arith; practical = ground arith; direction = ground arith },
  λ c. ground arith,
)

Opposes-iff : (i : VerdictInputs) → (is_contradicted i ≡ true) ↔ Opposes i
unfolding is_contradicted ◌==◌ ExpectedDirection-discrete EffectDirection-discrete
Opposes-iff i = (λ h. ground arith, λ c. ground arith)

IsRobust-of_test : (i : VerdictInputs) → is_fragile i ≡ false → IsRobust i
unfolding is_fragile ◌==◌ GateStatus-discrete Sensitivity-discrete Stability-discrete
IsRobust-of_test i h = record {
  robustness = ground arith;
  cost = ground arith;
  parameter = ground arith;
  regime = ground arith;
  concentration = ground arith;
  contradictory = ground arith;
}

test_of_robust : (i : VerdictInputs) → IsRobust i → is_fragile i ≡ false
unfolding is_fragile ◌==◌ GateStatus-discrete Sensitivity-discrete Stability-discrete
test_of_robust i c = ground arith

IsUnqualified-of_test : (i : VerdictInputs) → is_supported i ≡ true → IsUnqualified i
unfolding is_supported ◌==◌ Sensitivity-discrete Stability-discrete
IsUnqualified-of_test i h = record {
  cost = ground arith;
  parameter = ground arith;
  regime = ground arith;
  concentration = ground arith;
  limitations = ground arith;
}

test_of_unqualified :
    (i : VerdictInputs) → IsComplete i → IsRobust i → IsUnqualified i → is_supported i ≡ true
unfolding is_supported ◌==◌ ReviewDecision-discrete GateStatus-discrete Sensitivity-discrete
    Stability-discrete
test_of_unqualified i c r u = ground arith

abbrev pub verdict_of : VerdictInputs → Verdict
verdict_of i = (decide i).0

-- The gates that support of any degree needs
pub record HasSupport (i : VerdictInputs) : Type 0 where
  pub complete : IsComplete i
  pub established : IsEstablished i
  pub agrees : ¬ Opposes i
  pub robust : IsRobust i

supported_tests :
    (i : VerdictInputs)
    → (verdict_of i ≡ Verdict.supported) ⊎ (verdict_of i ≡ Verdict.provisionally_supported)
    → (is_rejected i ≡ false)
      × (is_incomplete i ≡ false)
      × (is_unresolved_inference i ≡ false)
      × (is_contradicted i ≡ false)
      × (is_fragile i ≡ false)
unfolding decide
supported_tests i h = ground arith

support_of_verdict :
    (i : VerdictInputs)
    → (verdict_of i ≡ Verdict.supported) ⊎ (verdict_of i ≡ Verdict.provisionally_supported)
    → HasSupport i
support_of_verdict i h =
    let (a, b, c, d, e) = supported_tests i h in
    record {
      complete = IsComplete-of_tests i a b;
      established = (IsEstablished-iff i).0 c;
      agrees = λ o. cc ((Opposes-iff i).1 o);
      robust = IsRobust-of_test i e;
    }

tests_of_support :
    (i : VerdictInputs)
    → HasSupport i
    → (is_rejected i ≡ false)
      × (is_incomplete i ≡ false)
      × (is_unresolved_inference i ≡ false)
      × (is_contradicted i ≡ false)
      × (is_fragile i ≡ false)
tests_of_support i s =
    let (a, b) = tests_of_complete i s.complete in
    (
      a,
      b,
      (IsEstablished-iff i).1 s.established,
      elim (Bool-cases (is_contradicted i)) [
        | inl t ↦ absurd (s.agrees ((Opposes-iff i).0 t))
        | inr f ↦ f
      ],
      test_of_robust i s.robust,
    )

-- The verdict is SUPPORTED or PROVISIONALLY_SUPPORTED exactly if the methodology is approved with no
-- unresolved critical finding, the experiment is complete, there is evidence and all of it is
-- validated, reproducibility is verified, the corrected inference passes with practical
-- significance in one direction that does not oppose the expected one, robustness passes, nothing is
-- highly sensitive or unstable, and no evidence contradicts.
pub support_iff :
    (i : VerdictInputs)
    → ((verdict_of i ≡ Verdict.supported) ⊎ (verdict_of i ≡ Verdict.provisionally_supported))
      ↔ HasSupport i
unfolding decide
support_iff i = (support_of_verdict i, λ s. ground (arith, tests_of_support i s))

-- The verdict is SUPPORTED exactly if it may be supported, every sensitivity is low, everything is
-- stable, and no noncritical limitation is unresolved.
pub supported_iff :
    (i : VerdictInputs) → (verdict_of i ≡ Verdict.supported) ↔ (HasSupport i × IsUnqualified i)
unfolding decide
supported_iff i = (
  λ h. (support_of_verdict i (inl h), IsUnqualified-of_test i (ground arith)),
  λ (s, u). ground (arith, tests_of_support i s, test_of_unqualified i s.complete s.robust u),
)

abbrev RejectionReason : VerdictInputs → Type 0
RejectionReason i =
    (i.methodology_status ≡ ReviewDecision.rejected)
    ⊎ ((i.unresolved_critical_findings ≡ true) ⊎ (IsComplete i × IsEstablished i × Opposes i))

rejected_tests :
    (i : VerdictInputs)
    → is_rejected i ≡ false
    → verdict_of i ≡ Verdict.rejected
    → (is_incomplete i ≡ false) × (is_unresolved_inference i ≡ false) × (is_contradicted i ≡ true)
unfolding decide
rejected_tests i r h = ground arith

reasons_of_rejected : (i : VerdictInputs) → verdict_of i ≡ Verdict.rejected → RejectionReason i
unfolding is_rejected ◌==◌ ReviewDecision-discrete
reasons_of_rejected i h = elim (Bool-cases (is_rejected i)) [
  | inl r ↦ ground arith
  | inr r ↦
      let (b, c, d) = rejected_tests i r h in
      inr (inr (IsComplete-of_tests i r b, (IsEstablished-iff i).0 c, (Opposes-iff i).0 d))
]

rejected_of_opposed :
    (i : VerdictInputs)
    → IsComplete i
    → IsEstablished i
    → Opposes i
    → verdict_of i ≡ Verdict.rejected
unfolding decide
rejected_of_opposed i c e o =
    ground (arith, tests_of_complete i c, (IsEstablished-iff i).1 e, (Opposes-iff i).1 o)

rejected_of_reasons : (i : VerdictInputs) → RejectionReason i → verdict_of i ≡ Verdict.rejected
unfolding decide is_rejected ◌==◌ ReviewDecision-discrete
rejected_of_reasons i (inl m) = ground arith
rejected_of_reasons i (inr (inl c)) = ground arith
rejected_of_reasons i (inr (inr (c, e, o))) = rejected_of_opposed i c e o

-- The verdict is REJECTED exactly if the methodology is rejected, a critical finding is unresolved,
-- or a complete and established effect opposes the expected direction.
pub rejected_iff :
    (i : VerdictInputs)
    → (verdict_of i ≡ Verdict.rejected) ↔ (
        (i.methodology_status ≡ ReviewDecision.rejected)
        ⊎ ((i.unresolved_critical_findings ≡ true) ⊎ (IsComplete i × IsEstablished i × Opposes i)))
rejected_iff i = (reasons_of_rejected i, rejected_of_reasons i)
