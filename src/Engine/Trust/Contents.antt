-- ===== src/Engine/Trust/Contents.antt =====
-- The contents of an evidence bundle (src/quantforge/evidence/bundle.py) beside the run that it is made of, as
-- src/quantforge/engine/trust.py compares them.
use quantforge_ai.Common.{
  ◌≡◌, ◌∙◌, sym, ap, false, not, ok, raise_if, raise_if-eq-ok, >>-eq-ok, ◌==◌, ==→≡, string_eq,
  nat_eq, arith,
}
use quantforge_ai.Evidence.Bundle.{
  EvidenceBundleSemantic, EvidenceBundleObservations, EvidenceBundle, BundleDigests,
  engine_identity_eq, invocation_eq, semantic_identities_eq, observations_eq, validator_results_eq,
  fact_references_eq, integrity,
}
use quantforge_ai.Engine.Run.{EngineRun}
use quantforge_ai.Engine.Trust.{receipt_record_eq, differs}

-- The bundle is made of the values of the run.
pub record HoldsRun (r : EngineRun) (b : EvidenceBundle) : Type 0 where
  pub engine : b.semantic.engine ≡ r.engine
  pub invocation : b.semantic.invocation ≡ r.invocation
  pub configuration : b.semantic.configuration_sha256 ≡ r.configuration_sha256
  pub inputs : b.semantic.input_artifacts ≡ r.input_semantics
  pub outputs : b.semantic.output_artifacts ≡ r.output_semantics
  pub validators : b.semantic.validator_results ≡ r.validators
  pub numeric_facts : b.semantic.numeric_facts ≡ r.numeric_facts
  pub observed_inputs : b.observations.input_artifacts ≡ r.input_observations
  pub observed_outputs : b.observations.output_artifacts ≡ r.output_observations

pub differs-HoldsRun : (r : EngineRun) (b : EvidenceBundle) → differs r b ≡ false → HoldsRun r b
differs-HoldsRun r b h = record {
  engine = ==→≡ b.semantic.engine r.engine (ground arith);
  invocation = ==→≡ b.semantic.invocation r.invocation (ground arith);
  configuration = ==→≡ b.semantic.configuration_sha256 r.configuration_sha256 (ground arith);
  inputs = ==→≡ b.semantic.input_artifacts r.input_semantics (ground arith);
  outputs = ==→≡ b.semantic.output_artifacts r.output_semantics (ground arith);
  validators = ==→≡ b.semantic.validator_results r.validators (ground arith);
  numeric_facts = ==→≡ b.semantic.numeric_facts r.numeric_facts (ground arith);
  observed_inputs = ==→≡ b.observations.input_artifacts r.input_observations (ground arith);
  observed_outputs = ==→≡ b.observations.output_artifacts r.output_observations (ground arith);
}

-- The digests of the two bundles do not collide.
pub record NoCollision (d : BundleDigests) (x y : EvidenceBundle) : Type 0 where
  pub bundles :
      d.bundle (d.observations x.observations) (d.semantic x.semantic)
        ≡ d.bundle (d.observations y.observations) (d.semantic y.semantic)
      → (d.observations x.observations ≡ d.observations y.observations)
        × (d.semantic x.semantic ≡ d.semantic y.semantic)
  pub semantics : d.semantic x.semantic ≡ d.semantic y.semantic → x.semantic ≡ y.semantic
  pub observed :
      d.observations x.observations ≡ d.observations y.observations
      → x.observations ≡ y.observations

integrity-hash :
    (d : BundleDigests) (b : EvidenceBundle)
    → integrity d b ≡ ok tt
    → b.bundle_hash ≡ d.bundle (d.observations b.observations) (d.semantic b.semantic)
unfolding integrity
integrity-hash d b h =
    let (_, h1) = >>-eq-ok (raise_if (not (b.semantic_hash == d.semantic b.semantic)) _) _ h in
    let (_, h2) =
      >>-eq-ok (raise_if (not (b.observation_hash == d.observations b.observations)) _) _ h1 in
    let (s, _) =
      >>-eq-ok
        (raise_if
          (not (b.bundle_hash == d.bundle (d.observations b.observations) (d.semantic b.semantic)))
          _)
        _ h2 in
    ==→≡ b.bundle_hash (d.bundle (d.observations b.observations) (d.semantic b.semantic))
      (ground (arith, raise_if-eq-ok _ _ s))

-- Two whole bundles with one hash have the same contents.
pub same_contents :
    (d : BundleDigests) (x y : EvidenceBundle)
    → integrity d x ≡ ok tt
    → integrity d y ≡ ok tt
    → NoCollision d x y
    → x.bundle_hash ≡ y.bundle_hash
    → (x.semantic ≡ y.semantic) × (x.observations ≡ y.observations)
same_contents d x y h k free q =
    let (o, s) = free.bundles (sym (integrity-hash d x h) ∙ q ∙ integrity-hash d y k) in
    (free.semantics s, free.observed o)

pub HoldsRun-subst :
    (r : EngineRun) (x y : EvidenceBundle)
    → x.semantic ≡ y.semantic
    → x.observations ≡ y.observations
    → HoldsRun r y
    → HoldsRun r x
HoldsRun-subst r x y s o h = record {
  engine = ap (λ (z : EvidenceBundleSemantic). z.engine) s ∙ h.engine;
  invocation = ap (λ (z : EvidenceBundleSemantic). z.invocation) s ∙ h.invocation;
  configuration = ap (λ (z : EvidenceBundleSemantic). z.configuration_sha256) s ∙ h.configuration;
  inputs = ap (λ (z : EvidenceBundleSemantic). z.input_artifacts) s ∙ h.inputs;
  outputs = ap (λ (z : EvidenceBundleSemantic). z.output_artifacts) s ∙ h.outputs;
  validators = ap (λ (z : EvidenceBundleSemantic). z.validator_results) s ∙ h.validators;
  numeric_facts = ap (λ (z : EvidenceBundleSemantic). z.numeric_facts) s ∙ h.numeric_facts;
  observed_inputs =
      ap (λ (z : EvidenceBundleObservations). z.input_artifacts) o ∙ h.observed_inputs;
  observed_outputs =
      ap (λ (z : EvidenceBundleObservations). z.output_artifacts) o ∙ h.observed_outputs;
}
