-- ===== src/Evidence/Bundle/Admission.antt =====
-- The test signer and `verify_evidence_bundle` of src/quantforge/evidence/bundle.py.
use quantforge_ai.Common.{
  ℕ, ◌+◌, ◌*◌, Bool, not, String, List, [], ◌∷◌, Option, none, some, value_error, Result, err, ok,
  raise_if, ◌>>◌, ◌==◌, ltb, any, same_set, string_eq, nat_eq,
}
use quantforge_ai.Evidence.Bundle.{
  EngineIdentity, engine_identity_eq, ArtifactSemanticIdentity, semantic_identities_eq,
  ArtifactObservation, observations_eq, Methodology, methodology_eq, EvidenceBundle,
  BundleSignature, BundleSigner,
}

-- `HmacSha256TestSigner`. `mac` is HMAC-SHA-256 under the secret, as hexadecimal digits.
abbrev pub hmac_sign : String → (String → String) → String → BundleSignature
hmac_sign signer_id mac bundle_hash = record {
  signer_id = signer_id;
  signed_hash = bundle_hash;
  signature = mac bundle_hash;
}

unfoldable pub hmac_verify : String → (String → String) → BundleSignature → Result (Unit {0})
hmac_verify signer_id mac s = do
  raise_if (not (s.signer_id == signer_id))
      (value_error "bundle signature uses an unexpected signer")
  raise_if (not (s.signature == (hmac_sign signer_id mac s.signed_hash).signature))
      (value_error "bundle signature verification failed")

unfoldable pub hmac_signer : String → (String → String) → BundleSigner
unfolding hmac_verify
hmac_signer signer_id mac = record {
  sign = hmac_sign signer_id mac;
  verify = hmac_verify signer_id mac;
}

pub record EvidenceAdmissionContext : Type 0 where
  pub case_id : String
  pub workflow_revision : ℕ
  pub constitution_id : String
  pub constitution_hash : String
  pub amendment_chain_hash : String
  pub engine : EngineIdentity
  pub configuration_sha256 : String
  pub input_artifacts : List ArtifactSemanticIdentity
  pub input_artifact_observations : List ArtifactObservation
  pub previous_bundle_hash : String
  pub now : ℕ
  pub max_future_skew_seconds : ℕ
  pub finalized : Bool
  pub allowed_methodologies : List Methodology

abbrev foreign : Bool → Result (Unit {0})
foreign same = raise_if (not same) (value_error "evidence bundle has a foreign or stale binding")

-- The loop over `expected_bindings`; the label that the text of the error ends with is left out.
unfoldable pub check_bindings : EvidenceBundle → EvidenceAdmissionContext → Result (Unit {0})
check_bindings b c = do
  foreign (b.semantic.case_id == c.case_id)
  foreign (b.semantic.workflow_revision == c.workflow_revision)
  foreign (b.semantic.constitution_id == c.constitution_id)
  foreign (b.semantic.constitution_hash == c.constitution_hash)
  foreign (b.semantic.amendment_chain_hash == c.amendment_chain_hash)
  foreign (b.semantic.engine == c.engine)
  foreign (b.semantic.configuration_sha256 == c.configuration_sha256)
  foreign (b.semantic.input_artifacts == c.input_artifacts)
  foreign (b.observations.input_artifacts == c.input_artifact_observations)
  foreign (b.semantic.previous_bundle_hash == c.previous_bundle_hash)

abbrev pub check_signature : Option BundleSignature → Option BundleSigner → Result (Unit {0})
check_signature none none = ok tt
check_signature none (some _) =
    err (value_error "the admission policy requires a signed evidence bundle")
check_signature (some _) none =
    err (value_error "signed evidence requires an explicit signature verifier")
check_signature (some s) (some signer) = signer.verify s

-- The limit of timestamps, in microseconds
abbrev pub future_limit : EvidenceAdmissionContext → ℕ
future_limit c = c.now + c.max_future_skew_seconds * 1000000

-- `artifacts` and `facts` are the checks of the artifact inventory and of the numeric facts, which read files.
unfoldable pub verify_evidence_bundle :
    (artifacts facts : EvidenceBundle → Result (Unit {0}))
    → EvidenceBundle
    → EvidenceAdmissionContext
    → Option BundleSigner
    → Result (Unit {0})
unfolding check_bindings
verify_evidence_bundle artifacts facts b c signer = do
  raise_if c.finalized (value_error "evidence cannot be admitted after verdict finalization")
  check_bindings b c
  raise_if (not (same_set b.semantic.methodology_identifiers c.allowed_methodologies))
      (value_error "evidence bundle uses an unknown methodology version")
  raise_if
      (any (ltb (future_limit c)) (
        b.observations.execution_started_at ∷ b.observations.execution_completed_at
        ∷ b.observations.admitted_at ∷ []))
      (value_error "evidence bundle contains a timestamp beyond the allowed clock skew")
  check_signature b.signature signer
  artifacts b
  facts b
