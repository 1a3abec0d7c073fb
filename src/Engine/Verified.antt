-- ===== src/Engine/Verified.antt =====
-- The evidence bundle of a run (src/quantforge/engine/base.py), and its verification
-- (src/quantforge/evidence/bundle.py).
use quantforge_ai.Common.{
  ℕ, ◌+◌, ◌*◌, ◌≤◌, ◌≡◌, refl, sym, subst, true, false, ◌||◌, String, [], ◌∷◌, some, Result, ok,
  raise_if, raise_if-eq-ok, >>-eq-ok, ok-injective, ◌==◌, ≡→==, ltb, any, same_set, is_subset,
  contains, string_eq, nat_eq, arith,
}
use quantforge_ai.Evidence.Bundle.{
  EvidenceBundle, BundleDigests, BundleSigner, causal_daily_v3_stochastic_v2, Methodology-discrete,
  methodology_eq, engine_identity_eq, semantic_identities_eq, observations_eq, ordered_observations,
  bundle_of, integrity, create,
}
use quantforge_ai.Evidence.Bundle.Admission.{
  EvidenceAdmissionContext, check_bindings, hmac_signer, verify_evidence_bundle,
}
use quantforge_ai.Evidence.Bundle.Signed.{hmac_verify-sign}
use quantforge_ai.Engine.Run.{EngineRun, Binding, semantic_of, observations_of, evidence_bundle}

-- The context in which a run is to be admitted
abbrev pub context_of : EngineRun → Binding → String → ℕ → ℕ → EvidenceAdmissionContext
context_of r b previous_bundle_hash now skew = record {
  case_id = b.case_id;
  workflow_revision = b.workflow_revision;
  constitution_id = b.constitution_id;
  constitution_hash = b.constitution_hash;
  amendment_chain_hash = b.amendment_chain_hash;
  engine = r.engine;
  configuration_sha256 = r.configuration_sha256;
  input_artifacts = r.input_semantics;
  input_artifact_observations = r.input_observations;
  previous_bundle_hash = previous_bundle_hash;
  now = now;
  max_future_skew_seconds = skew;
  finalized = false;
  allowed_methodologies = causal_daily_v3_stochastic_v2 ∷ [];
}

ordered_times :
    (r : EngineRun) (admitted_at : ℕ)
    → ordered_observations (observations_of r admitted_at) ≡ ok tt
    → (r.execution_started_at ≤ r.execution_completed_at) × (r.execution_completed_at ≤ admitted_at)
unfolding ordered_observations observations_of
ordered_times r admitted_at h =
    let (times, _) =
      >>-eq-ok
        (raise_if
          (ltb r.execution_completed_at r.execution_started_at
            || ltb admitted_at r.execution_completed_at)
          _)
        _ h in
    let in_order = raise_if-eq-ok _ _ times in (ground (arith, in_order), ground (arith, in_order))

known_methodologies :
    same_set (causal_daily_v3_stochastic_v2 ∷ []) (causal_daily_v3_stochastic_v2 ∷ []) ≡ true
unfolding same_set is_subset contains ◌==◌ Methodology-discrete
known_methodologies = refl

module _ (r : EngineRun) (b : Binding) (bundle_id previous_bundle_hash : String)
    (admitted_at now skew : ℕ) where
  bindings_hold :
      (d : BundleDigests) (signer : BundleSigner)
      → check_bindings
          (bundle_of d
            (semantic_of r b bundle_id previous_bundle_hash)
            (observations_of r admitted_at)
            (some signer))
          (context_of r b previous_bundle_hash now skew)
        ≡ ok tt
  unfolding check_bindings bundle_of semantic_of observations_of
  bindings_hold d signer = ground (
    arith,
    ≡→== b.case_id b.case_id refl,
    ≡→== b.workflow_revision b.workflow_revision refl,
    ≡→== b.constitution_id b.constitution_id refl,
    ≡→== b.constitution_hash b.constitution_hash refl,
    ≡→== b.amendment_chain_hash b.amendment_chain_hash refl,
    ≡→== r.engine r.engine refl,
    ≡→== r.configuration_sha256 r.configuration_sha256 refl,
    ≡→== r.input_semantics r.input_semantics refl,
    ≡→== r.input_observations r.input_observations refl,
    ≡→== previous_bundle_hash previous_bundle_hash refl,
  )

  own_bundle :
      (d : BundleDigests) (signer_id : String) (mac : String → String)
      (artifacts facts : EvidenceBundle → Result (Unit {0}))
      → (r.execution_started_at ≤ r.execution_completed_at)
        × (r.execution_completed_at ≤ admitted_at)
      → admitted_at ≤ now + skew * 1000000
      → artifacts (
          bundle_of d
            (semantic_of r b bundle_id previous_bundle_hash)
            (observations_of r admitted_at)
            (some (hmac_signer signer_id mac)))
        ≡ ok tt
      → facts (
          bundle_of d
            (semantic_of r b bundle_id previous_bundle_hash)
            (observations_of r admitted_at)
            (some (hmac_signer signer_id mac)))
        ≡ ok tt
      → verify_evidence_bundle artifacts facts
          (bundle_of d
            (semantic_of r b bundle_id previous_bundle_hash)
            (observations_of r admitted_at)
            (some (hmac_signer signer_id mac)))
          (context_of r b previous_bundle_hash now skew)
          (some (hmac_signer signer_id mac))
        ≡ ok tt
  unfolding verify_evidence_bundle bundle_of semantic_of observations_of any
  own_bundle d signer_id mac artifacts facts times in_time files numbers =
      let hash =
        d.bundle (d.observations (observations_of r admitted_at))
          (d.semantic (semantic_of r b bundle_id previous_bundle_hash)) in
      ground (
        arith,
        bindings_hold d (hmac_signer signer_id mac),
        known_methodologies,
        times,
        in_time,
        hmac_verify-sign signer_id mac hash,
        files,
        numbers,
      )

  -- The evidence bundle that a run makes with the test signer is verified by that signer, in the context of the same run, case
  -- and parent that is not finalized, if it was admitted no later than the clock skew allows and the two checks of its files pass.
  pub evidence_bundle-verify :
      (d : BundleDigests) (signer_id : String) (mac : String → String)
      (artifacts facts : EvidenceBundle → Result (Unit {0})) (bundle : EvidenceBundle)
      → evidence_bundle d r b bundle_id previous_bundle_hash admitted_at
          (some (hmac_signer signer_id mac))
        ≡ ok bundle
      → artifacts bundle ≡ ok tt
      → facts bundle ≡ ok tt
      → admitted_at ≤ now + skew * 1000000
      → verify_evidence_bundle artifacts facts bundle
          (context_of r b previous_bundle_hash now skew)
          (some (hmac_signer signer_id mac))
        ≡ ok tt
  unfolding evidence_bundle create
  evidence_bundle-verify d signer_id mac artifacts facts bundle made files numbers in_time =
      let signer = hmac_signer signer_id mac in
      let (checked, made2) = >>-eq-ok _ (create d _ _ (some signer)) made in
      let (_, ordered) = >>-eq-ok _ (ordered_observations _) checked in
      let (_, made3) =
        >>-eq-ok
          (integrity d (
            bundle_of d (semantic_of r b bundle_id previous_bundle_hash)
              (observations_of r admitted_at) (some signer)))
          _ made2 in
      let times = ordered_times r admitted_at ordered in
      let made_here = ok-injective made3 in
      subst
        (λ (x : EvidenceBundle).
          verify_evidence_bundle artifacts facts x (context_of r b previous_bundle_hash now skew)
            (some signer)
          ≡ ok tt)
        made_here
        (own_bundle d signer_id mac artifacts facts times in_time
          (subst (λ (x : EvidenceBundle). artifacts x ≡ ok tt) (sym made_here) files)
          (subst (λ (x : EvidenceBundle). facts x ≡ ok tt) (sym made_here) numbers))
