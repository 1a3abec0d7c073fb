-- ===== src/Engine/Run.antt =====
-- `EngineRun` of src/quantforge/engine/base.py and its evidence bundle. The paths of the run are left out.
use quantforge_ai.Common.{ℕ, String, List, [], ◌∷◌, Option, Result, ◌>>◌}
use quantforge_ai.Evidence.Bundle.{
  EngineIdentity, InvocationIdentity, ArtifactSemanticIdentity, ArtifactObservation,
  ValidatorResult, NumericFactReference, causal_daily_v3_stochastic_v2, EvidenceBundleSemantic,
  EvidenceBundleObservations, EvidenceBundle, BundleDigests, BundleSigner, semantic_fields,
  observation_fields, deterministic_inventory, ordered_observations, create,
}

pub record EngineRun : Type 0 where
  pub engine : EngineIdentity
  pub invocation : InvocationIdentity
  pub configuration_sha256 : String
  pub input_semantics : List ArtifactSemanticIdentity
  pub input_observations : List ArtifactObservation
  pub output_semantics : List ArtifactSemanticIdentity
  pub output_observations : List ArtifactObservation
  pub validators : List ValidatorResult
  pub numeric_facts : List NumericFactReference
  pub execution_started_at : ℕ
  pub execution_completed_at : ℕ
  pub stdout_sha256 : String
  pub stderr_sha256 : String

-- The case and the revision that a run is bound to
pub record Binding : Type 0 where
  pub case_id : String
  pub workflow_revision : ℕ
  pub constitution_id : String
  pub constitution_hash : String
  pub amendment_chain_hash : String

unfoldable pub semantic_of : EngineRun → Binding → String → String → EvidenceBundleSemantic
semantic_of r b bundle_id previous_bundle_hash = record {
  bundle_id = bundle_id;
  case_id = b.case_id;
  workflow_revision = b.workflow_revision;
  constitution_id = b.constitution_id;
  constitution_hash = b.constitution_hash;
  amendment_chain_hash = b.amendment_chain_hash;
  engine = r.engine;
  invocation = r.invocation;
  configuration_sha256 = r.configuration_sha256;
  input_artifacts = r.input_semantics;
  output_artifacts = r.output_semantics;
  validator_results = r.validators;
  numeric_facts = r.numeric_facts;
  methodology_identifiers = causal_daily_v3_stochastic_v2 ∷ [];
  previous_bundle_hash = previous_bundle_hash;
}

unfoldable pub observations_of : EngineRun → ℕ → EvidenceBundleObservations
observations_of r admitted_at = record {
  execution_started_at = r.execution_started_at;
  execution_completed_at = r.execution_completed_at;
  admitted_at = admitted_at;
  input_artifacts = r.input_observations;
  output_artifacts = r.output_observations;
  stdout_sha256 = r.stdout_sha256;
  stderr_sha256 = r.stderr_sha256;
}

unfoldable pub evidence_bundle :
    BundleDigests
    → EngineRun
    → Binding
    → String
    → String
    → ℕ
    → Option BundleSigner
    → Result EvidenceBundle
unfolding semantic_of observations_of
evidence_bundle d r b bundle_id previous_bundle_hash admitted_at signer =
    let semantic = semantic_of r b bundle_id previous_bundle_hash in
    let observations = observations_of r admitted_at in
    semantic_fields semantic
    >> deterministic_inventory semantic
    >> observation_fields observations
    >> ordered_observations observations
    >> create d semantic observations signer
