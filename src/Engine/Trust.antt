-- ===== src/Engine/Trust.antt =====
-- src/quantforge/engine/trust.py: the receipt that an approved execution issues, and the capability that it
-- gives once. An object with a flag `_consumed` is a record, and its method returns the new one beside
-- the result; the lock makes the method one step. `authority` says that the constructor was given the
-- module's own object. Fields with one permitted value (the names of the release, the contract versions, the name and
-- the status of a validator) are left out of the records and of the comparisons.
pub mod Contents
pub mod Receipts
pub mod Admissions
use quantforge_ai.Common.{
  ℕ, Bool, true, false, not, ◌||◌, String, List, [], ◌∷◌, map, Option, none, some, value_error,
  type_error, Result, err, ok, raise_if, ◌>>=◌, ◌>>◌, if◌then◌else◌, ◌==◌, Eq, is_empty, string_eq,
  nat_eq, String-discrete, ℕ_discrete,
}
use quantforge_ai.Common.Dictionary.{Dictionary, assign, require}
use quantforge_ai.Evidence.Bundle.{
  engine_identity_eq, invocation_eq, ArtifactSemanticIdentity, semantic_identities_eq,
  ArtifactObservation, observations_eq, ValidatorResult, validator_results_eq, fact_references_eq,
  EvidenceBundle,
}
use quantforge_ai.Engine.Run.{EngineRun, Binding}

-- One entry of `input_hashes` and `output_hashes`
pub record ArtifactHash : Type 0 where
  pub path : String
  pub byte_sha256 : String
  pub semantic_sha256 : String
  pub size_bytes : ℕ
  pub schema_version : String

pub record TrustedReceiptRecord : Type 0 where
  pub case_id : String
  pub workflow_revision : ℕ
  pub constitution_id : String
  pub constitution_hash : String
  pub amendment_chain_hash : String
  pub executable_sha256 : String
  pub configuration_sha256 : String
  pub configuration_semantic_sha256 : String
  pub input_hashes : List ArtifactHash
  pub output_hashes : List ArtifactHash
  pub validator_executions : List String
  pub repository_snapshot_sha256 : String
  pub validator_source_sha256 : String
  pub run_fingerprint : String

unfoldable pub TrustedReceiptRecord-discrete : Discrete TrustedReceiptRecord
TrustedReceiptRecord-discrete = hlevel (String-discrete, ℕ_discrete)

instance abbrev pub receipt_record_eq : Eq TrustedReceiptRecord
receipt_record_eq = record { dec = TrustedReceiptRecord-discrete }

-- `{item.path: item for item in semantics}`
unfoldable pub by_path :
    Dictionary ArtifactSemanticIdentity
    → List ArtifactSemanticIdentity
    → Dictionary ArtifactSemanticIdentity
unfolding assign
by_path d [] = d
by_path d (a ∷ as') = by_path (assign a.path a d) as'

unfoldable pub artifact_hashes :
    Dictionary ArtifactSemanticIdentity → List ArtifactObservation → Result (List ArtifactHash)
artifact_hashes d [] = ok []
artifact_hashes d (o ∷ os) = require o.path d >>= λ (s : ArtifactSemanticIdentity).
    artifact_hashes d os >>= λ (rest : List ArtifactHash). ok (
      record {
        path = o.path;
        byte_sha256 = o.byte_sha256;
        semantic_sha256 = s.semantic_sha256;
        size_bytes = o.size_bytes;
        schema_version = s.schema_version;
      }
      ∷ rest)

-- The three hashes that the adapter supplies
pub record Sources : Type 0 where
  pub configuration_semantic_sha256 : String
  pub repository_snapshot_sha256 : String
  pub validator_source_sha256 : String

-- `fingerprint` is `canonical_sha256` of the run, in `_fingerprint_run`.
unfoldable pub receipt_record :
    (fingerprint : EngineRun → String) → EngineRun → Binding → Sources → Result TrustedReceiptRecord
unfolding by_path artifact_hashes
receipt_record fingerprint r b s = do
  input_hashes ← artifact_hashes (by_path [] r.input_semantics) r.input_observations
  output_hashes ← artifact_hashes (by_path [] r.output_semantics) r.output_observations
  ok (record {
    case_id = b.case_id;
    workflow_revision = b.workflow_revision;
    constitution_id = b.constitution_id;
    constitution_hash = b.constitution_hash;
    amendment_chain_hash = b.amendment_chain_hash;
    executable_sha256 = r.engine.executable_sha256;
    configuration_sha256 = r.configuration_sha256;
    configuration_semantic_sha256 = s.configuration_semantic_sha256;
    input_hashes = input_hashes;
    output_hashes = output_hashes;
    validator_executions = map (λ (v : ValidatorResult). v.output_sha256) r.validators;
    repository_snapshot_sha256 = s.repository_snapshot_sha256;
    validator_source_sha256 = s.validator_source_sha256;
    run_fingerprint = fingerprint r;
  })

pub record TrustedExecutionReceipt : Type 0 where
  pub authority : Bool
  pub receipt : TrustedReceiptRecord
  pub nonce : String
  pub consumed : Bool

-- The constructor; `nonce` is what `secrets.token_bytes` gives.
unfoldable pub new_receipt : Bool → TrustedReceiptRecord → String → Result TrustedExecutionReceipt
new_receipt authority receipt nonce = do
  raise_if (not authority)
      (type_error "trusted execution receipts are issued only by the approved adapter")
  ok (record { authority = authority; receipt = receipt; nonce = nonce; consumed = false })

pub record TrustedAdmissionCapability : Type 0 where
  pub authority : Bool
  pub bundle_hash : String
  pub case_id : String
  pub workflow_revision : ℕ
  pub nonce : String
  pub consumed : Bool

unfoldable pub binding_of : EvidenceBundle → Binding
binding_of b = record {
  case_id = b.semantic.case_id;
  workflow_revision = b.semantic.workflow_revision;
  constitution_id = b.semantic.constitution_id;
  constitution_hash = b.semantic.constitution_hash;
  amendment_chain_hash = b.semantic.amendment_chain_hash;
}

-- The bundle holds other values than the run.
abbrev pub differs : EngineRun → EvidenceBundle → Bool
differs r b =
    not (b.semantic.engine == r.engine)
    || not (b.semantic.invocation == r.invocation)
    || not (b.semantic.configuration_sha256 == r.configuration_sha256)
    || not (b.semantic.input_artifacts == r.input_semantics)
    || not (b.semantic.output_artifacts == r.output_semantics)
    || not (b.semantic.validator_results == r.validators)
    || not (b.semantic.numeric_facts == r.numeric_facts)
    || not (b.observations.input_artifacts == r.input_observations)
    || not (b.observations.output_artifacts == r.output_observations)

-- What the body of `_consume` checks and returns
unfoldable pub capability_for :
    (EngineRun → String)
    → TrustedExecutionReceipt
    → EngineRun
    → EvidenceBundle
    → Sources
    → Result TrustedAdmissionCapability
unfolding receipt_record binding_of
capability_for fingerprint t r b s = do
  expected ← receipt_record fingerprint r (binding_of b) s
  raise_if (not t.authority || t.consumed)
      (value_error "trusted execution receipt is invalid or has already been consumed")
  raise_if (not (t.receipt == expected))
      (value_error "trusted execution receipt does not bind this run and case revision")
  raise_if (differs r b) (value_error "trusted receipt and constructed bundle differ")
  ok (record {
    authority = true;
    bundle_hash = b.bundle_hash;
    case_id = b.semantic.case_id;
    workflow_revision = b.semantic.workflow_revision;
    nonce = t.nonce;
    consumed = false;
  })

-- The receipt after a call: consumed if the call has returned
abbrev pub after : {A : Type 0} → TrustedExecutionReceipt → Result A → TrustedExecutionReceipt
after t (err _) = t
after t (ok _) = record t { consumed = true }

-- `_consume`
unfoldable pub consume_receipt :
    (EngineRun → String)
    → TrustedExecutionReceipt
    → EngineRun
    → EvidenceBundle
    → Sources
    → Result TrustedAdmissionCapability × TrustedExecutionReceipt
unfolding capability_for
consume_receipt fingerprint t r b s =
    let result = capability_for fingerprint t r b s in (result, after t result)

-- What the body of `consume` checks; `event_case_id` is `event.case_id`.
unfoldable pub check_capability :
    TrustedAdmissionCapability → EvidenceBundle → String → ℕ → Result (Unit {0})
check_capability c b event_case_id expected_revision = do
  raise_if (not c.authority || c.consumed)
      (value_error "trusted admission capability is invalid or already consumed")
  raise_if
      (not (b.bundle_hash == c.bundle_hash)
        || not (b.semantic.case_id == c.case_id)
        || not (event_case_id == c.case_id)
        || not (expected_revision == c.workflow_revision)
        || not (b.semantic.workflow_revision == c.workflow_revision))
      (value_error "trusted admission capability is bound to another bundle or revision")

abbrev pub spent : TrustedAdmissionCapability → Result (Unit {0}) → TrustedAdmissionCapability
spent c (err _) = c
spent c (ok _) = record c { consumed = true }

-- `consume`
unfoldable pub consume_capability :
    TrustedAdmissionCapability
    → EvidenceBundle
    → String
    → ℕ
    → Result (Unit {0}) × TrustedAdmissionCapability
unfolding check_capability
consume_capability c b event_case_id expected_revision =
    let result = check_capability c b event_case_id expected_revision in (result, spent c result)

-- `_issue_trusted_execution_receipt`
unfoldable pub issue_receipt :
    (EngineRun → String) → EngineRun → Binding → Sources → String → Result TrustedExecutionReceipt
unfolding receipt_record new_receipt
issue_receipt fingerprint r b s nonce = do
  raise_if (is_empty r.validators)
      (value_error "trusted receipts require successful validator execution")
  receipt ← receipt_record fingerprint r b s
  new_receipt true receipt nonce
