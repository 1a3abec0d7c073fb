-- ===== src/Tests/EngineExamples.antt =====
-- The theorems on the evidence bundle and the trust in a run, at a small run of the engine.
use quantforge_ai.Common.{
  ◌≡◌, ◌≤◌, refl, ap, Bool, true, false, String, [], ◌∷◌, none, some, Result, ok, err, value_error,
  type_error, is_ok, String-discrete, ◌==◌, any, contains, is_unique, is_subset, same_set, for_each,
  ℕ_discrete, arith,
}
use quantforge_ai.Common.Counting.{count}
use quantforge_ai.Common.Dictionary.{find, assign, require}
use quantforge_ai.Domain.Enums.{MeasureUnit, MeasureUnit-discrete}
use quantforge_ai.Domain.Decimal.{Decimal-discrete, Exponent, Exponent-discrete}
use quantforge_ai.Domain.Text.{codes}
use quantforge_ai.Domain.Sorted.{is_before, insert, sorted_by, sorted}
use quantforge_ai.Evidence.Bundle.{
  EngineIdentity-discrete, InvocationIdentity-discrete, Strings-discrete,
  SemanticIdentities-discrete, ArtifactObservations-discrete, ValidatorResults-discrete,
  FactReferences-discrete, Methodology-discrete, causal_daily_v3_stochastic_v2,
  approved_arguments_only, semantic_fields, observation_fields, deterministic_inventory,
  ordered_observations, EvidenceBundle, BundleDigests, integrity, bundle_of, create,
}
use quantforge_ai.Evidence.Bundle.Admission.{hmac_signer, verify_evidence_bundle}
use quantforge_ai.Engine.Run.{EngineRun, Binding, semantic_of, observations_of, evidence_bundle}
use quantforge_ai.Engine.Trust.{
  TrustedReceiptRecord-discrete, Sources, by_path, artifact_hashes, receipt_record,
  TrustedExecutionReceipt, new_receipt, TrustedAdmissionCapability, binding_of, capability_for,
  consume_receipt, check_capability, consume_capability, issue_receipt,
}
use quantforge_ai.Engine.Trust.Receipts.{Attempt, attempts, one_capability}
use quantforge_ai.Engine.Trust.Admissions.{
  Admitted, IsBoundTo, Admitted-IsBoundTo, Admits, issued-Admits,
}
use quantforge_ai.Engine.Verified.{context_of, evidence_bundle-verify}

abbrev run : EngineRun
run = record {
  engine = record { executable_sha256 = "executable" };
  invocation = record { normalized_arguments = "run" ∷ [] };
  configuration_sha256 = "configuration";
  input_semantics =
      record { path = "data.csv"; semantic_sha256 = "input"; schema_version = "csv-v1" } ∷ [];
  input_observations = record { path = "data.csv"; byte_sha256 = "bytes"; size_bytes = 10 } ∷ [];
  output_semantics =
      record { path = "metrics.csv"; semantic_sha256 = "output"; schema_version = "1" } ∷ [];
  output_observations =
      record { path = "metrics.csv"; byte_sha256 = "written"; size_bytes = 20 } ∷ [];
  validators = record { output_sha256 = "passed" } ∷ [];
  numeric_facts =
      record {
        fact_id = "fact_1";
        name = "excess return";
        artifact_path = "metrics.csv";
        structured_location = "/rows/0/excess";
        value = record { negative = false; coefficient = 12; exponent = Exponent.up 0 };
        unit = MeasureUnit.percent;
      }
      ∷ [];
  execution_started_at = 10;
  execution_completed_at = 20;
  stdout_sha256 = "stdout";
  stderr_sha256 = "stderr";
}

abbrev binding : Binding
binding = record {
  case_id = "case_1";
  workflow_revision = 5;
  constitution_id = "constitution_1";
  constitution_hash = "constitution";
  amendment_chain_hash = "amendments";
}

abbrev sources : Sources
sources = record {
  configuration_semantic_sha256 = "semantics";
  repository_snapshot_sha256 = "snapshot";
  validator_source_sha256 = "source";
}

abbrev fingerprint : EngineRun → String
fingerprint r = r.configuration_sha256

abbrev digests : BundleDigests
digests = record {
  semantic = λ s. s.bundle_id;
  observations = λ o. o.stdout_sha256;
  bundle = λ a b. b;
}

abbrev mac : String → String
mac hash = hash

abbrev bundle : EvidenceBundle
bundle = record {
  semantic = record {
    bundle_id = "bundle_1";
    case_id = "case_1";
    workflow_revision = 5;
    constitution_id = "constitution_1";
    constitution_hash = "constitution";
    amendment_chain_hash = "amendments";
    engine = run.engine;
    invocation = run.invocation;
    configuration_sha256 = "configuration";
    input_artifacts = run.input_semantics;
    output_artifacts = run.output_semantics;
    validator_results = run.validators;
    numeric_facts = run.numeric_facts;
    methodology_identifiers = causal_daily_v3_stochastic_v2 ∷ [];
    previous_bundle_hash = "genesis";
  };
  observations = record {
    execution_started_at = 10;
    execution_completed_at = 20;
    admitted_at = 30;
    input_artifacts = run.input_observations;
    output_artifacts = run.output_observations;
    stdout_sha256 = "stdout";
    stderr_sha256 = "stderr";
  };
  semantic_hash = "bundle_1";
  observation_hash = "stdout";
  bundle_hash = "bundle_1";
  signature =
      some (record { signer_id = "signer"; signed_hash = "bundle_1"; signature = "bundle_1" });
}

abbrev receipt : Bool → TrustedExecutionReceipt
receipt consumed = record {
  authority = true;
  receipt = record {
    case_id = "case_1";
    workflow_revision = 5;
    constitution_id = "constitution_1";
    constitution_hash = "constitution";
    amendment_chain_hash = "amendments";
    executable_sha256 = "executable";
    configuration_sha256 = "configuration";
    configuration_semantic_sha256 = "semantics";
    input_hashes =
        record {
          path = "data.csv";
          byte_sha256 = "bytes";
          semantic_sha256 = "input";
          size_bytes = 10;
          schema_version = "csv-v1";
        }
        ∷ [];
    output_hashes =
        record {
          path = "metrics.csv";
          byte_sha256 = "written";
          semantic_sha256 = "output";
          size_bytes = 20;
          schema_version = "1";
        }
        ∷ [];
    validator_executions = "passed" ∷ [];
    repository_snapshot_sha256 = "snapshot";
    validator_source_sha256 = "source";
    run_fingerprint = "configuration";
  };
  nonce = "nonce";
  consumed = consumed;
}

abbrev capability : Bool → TrustedAdmissionCapability
capability consumed = record {
  authority = true;
  bundle_hash = "bundle_1";
  case_id = "case_1";
  workflow_revision = 5;
  nonce = "nonce";
  consumed = consumed;
}

abbrev call : Attempt fingerprint
call = record { run = run; bundle = bundle; sources = sources }

abbrev passes : EvidenceBundle → Result (Unit {0})
passes _ = ok tt

record EngineRuns : Type 0 where
  made :
      evidence_bundle digests run binding "bundle_1" "genesis" 30 (some (hmac_signer "signer" mac))
      ≡ ok bundle
  too_early :
      evidence_bundle digests run binding "bundle_1" "genesis" 15 none
      ≡ err (value_error "bundle observational timestamps are not monotonic")
  whole : integrity digests bundle ≡ ok tt
  issued : issue_receipt fingerprint run binding sources "nonce" ≡ ok (receipt false)
  unvalidated :
      issue_receipt fingerprint (record run { validators = [] }) binding sources "nonce"
      ≡ err (value_error "trusted receipts require successful validator execution")
  forged :
      new_receipt false (receipt false).receipt "nonce"
      ≡ err (type_error "trusted execution receipts are issued only by the approved adapter")
  given :
      consume_receipt fingerprint (receipt false) run bundle sources
      ≡ (ok (capability false), receipt true)
  twice : consume_receipt fingerprint (receipt true) run bundle sources ≡ (
    err (value_error "trusted execution receipt is invalid or has already been consumed"),
    receipt true,
  )
  used : consume_capability (capability false) bundle "case_1" 5 ≡ (ok tt, capability true)
  other_revision : consume_capability (capability false) bundle "case_1" 6 ≡ (
    err (value_error "trusted admission capability is bound to another bundle or revision"),
    capability false,
  )
  one : count is_ok (attempts fingerprint (receipt false) (call ∷ call ∷ [])) ≡ 1
  approved : approved_arguments_only ("run" ∷ []) run.invocation ≡ ok tt

engine_runs : EngineRuns
unfolding ◌==◌ String-discrete ℕ_discrete any contains is_unique is_subset same_set for_each count
    find assign require codes is_before insert sorted_by sorted MeasureUnit-discrete
    Decimal-discrete Exponent-discrete EngineIdentity-discrete InvocationIdentity-discrete
    Strings-discrete SemanticIdentities-discrete ArtifactObservations-discrete
    ValidatorResults-discrete FactReferences-discrete Methodology-discrete approved_arguments_only
    semantic_fields observation_fields deterministic_inventory ordered_observations integrity
    bundle_of create hmac_signer semantic_of observations_of evidence_bundle
    TrustedReceiptRecord-discrete by_path artifact_hashes receipt_record new_receipt binding_of
    capability_for consume_receipt check_capability consume_capability issue_receipt attempts
engine_runs = record {
  made = refl;
  too_early = refl;
  whole = refl;
  issued = refl;
  unvalidated = refl;
  forged = refl;
  given = refl;
  twice = refl;
  used = refl;
  other_revision = refl;
  one = refl;
  approved = refl;
}

one_capability_example : count is_ok (attempts fingerprint (receipt false) (call ∷ call ∷ [])) ≤ 1
one_capability_example = one_capability fingerprint (receipt false) (call ∷ call ∷ [])

abbrev admission : Admitted fingerprint
admission = record {
  run = run;
  binding = binding;
  sources = sources;
  nonce = "nonce";
  receipt = receipt false;
  issued = engine_runs.issued;
  attempt = call;
  capability = capability false;
  given =
      ap (λ (x : Result TrustedAdmissionCapability × TrustedExecutionReceipt). x.0)
        engine_runs.given;
  bundle = bundle;
  event_case_id = "case_1";
  expected_revision = 5;
  used = ap (λ (x : Result (Unit {0}) × TrustedAdmissionCapability). x.0) engine_runs.used;
  digests = digests;
  given_whole = engine_runs.whole;
  whole = engine_runs.whole;
}

Admitted-IsBoundTo_example : IsBoundTo fingerprint admission
Admitted-IsBoundTo_example =
    Admitted-IsBoundTo fingerprint admission
      (record { bundles = λ q. (refl, refl); semantics = λ q. refl; observed = λ q. refl })

issued-Admits_example : Admits fingerprint run binding sources (receipt false) bundle
issued-Admits_example =
    issued-Admits fingerprint digests run binding sources "nonce" "bundle_1" "genesis" 30
      (some (hmac_signer "signer" mac)) (receipt false) bundle engine_runs.issued engine_runs.made

evidence_bundle-verify_example :
    verify_evidence_bundle passes passes bundle
      (context_of run binding "genesis" 40 300)
      (some (hmac_signer "signer" mac))
    ≡ ok tt
evidence_bundle-verify_example =
    evidence_bundle-verify run binding "bundle_1" "genesis" 30 40 300 digests "signer" mac passes
      passes bundle engine_runs.made refl refl (omega arith)
