-- ===== src/Evidence/Bundle.antt =====
-- src/quantforge/evidence/bundle.py: the evidence bundle of one run of the numerical engine, its identities,
-- its signature, and its verification against a case. A field with one permitted value is left out.
-- `BundleDigests` holds what `canonical_sha256` gives. The two checks that read the artifacts are
-- arguments of `verify_evidence_bundle`.
pub mod Admission
pub mod Signed
use quantforge_ai.Common.{
  ℕ, ◌+◌, ◌*◌, Bool, true, false, not, ◌&&◌, ◌||◌, String, List, [], ◌∷◌, map, Option, none, some,
  value_error, Result, err, ok, raise_if, ◌>>=◌, ◌>>◌, for_each, if◌then◌else◌, ◌==◌, Eq, ltb, any,
  contains, is_empty, is_unique, same_set, length, string_eq, nat_eq, String-discrete, ℕ_discrete,
}
use quantforge_ai.Domain.Enums.{MeasureUnit, MeasureUnit-discrete}
use quantforge_ai.Domain.Decimal.{Decimal, Decimal-discrete}
use quantforge_ai.Domain.Sorted.{sorted}

pub record EngineIdentity : Type 0 where
  pub executable_sha256 : String

unfoldable pub EngineIdentity-discrete : Discrete EngineIdentity
EngineIdentity-discrete = hlevel String-discrete

instance abbrev pub engine_identity_eq : Eq EngineIdentity
engine_identity_eq = record { dec = EngineIdentity-discrete }

pub record InvocationIdentity : Type 0 where
  pub normalized_arguments : List String

unfoldable pub InvocationIdentity-discrete : Discrete InvocationIdentity
InvocationIdentity-discrete = hlevel String-discrete

instance abbrev pub invocation_eq : Eq InvocationIdentity
invocation_eq = record { dec = InvocationIdentity-discrete }

unfoldable pub Strings-discrete : Discrete (List String)
Strings-discrete = hlevel String-discrete

instance abbrev pub strings_eq : Eq (List String)
strings_eq = record { dec = Strings-discrete }

unfoldable pub approved_arguments_only : List String → InvocationIdentity → Result (Unit {0})
approved_arguments_only approved i =
    raise_if (not (i.normalized_arguments == approved))
      (value_error "invocation arguments are outside the approved command contract")

pub record ArtifactSemanticIdentity : Type 0 where
  pub path : String
  pub semantic_sha256 : String
  pub schema_version : String

unfoldable pub SemanticIdentities-discrete : Discrete (List ArtifactSemanticIdentity)
SemanticIdentities-discrete = hlevel String-discrete

instance abbrev pub semantic_identities_eq : Eq (List ArtifactSemanticIdentity)
semantic_identities_eq = record { dec = SemanticIdentities-discrete }

pub record ArtifactObservation : Type 0 where
  pub path : String
  pub byte_sha256 : String
  pub size_bytes : ℕ

unfoldable pub ArtifactObservations-discrete : Discrete (List ArtifactObservation)
ArtifactObservations-discrete = hlevel (String-discrete, ℕ_discrete)

instance abbrev pub observations_eq : Eq (List ArtifactObservation)
observations_eq = record { dec = ArtifactObservations-discrete }

pub record ValidatorResult : Type 0 where
  pub output_sha256 : String

unfoldable pub ValidatorResults-discrete : Discrete (List ValidatorResult)
ValidatorResults-discrete = hlevel String-discrete

instance abbrev pub validator_results_eq : Eq (List ValidatorResult)
validator_results_eq = record { dec = ValidatorResults-discrete }

-- The one value of `ValidatorResult.name`
abbrev pub validator_name : ValidatorResult → String
validator_name _ = "validate_results"

pub record NumericFactReference : Type 0 where
  pub fact_id : String
  pub name : String
  pub artifact_path : String
  pub structured_location : String
  pub value : Decimal
  pub unit : MeasureUnit

unfoldable pub FactReferences-discrete : Discrete (List NumericFactReference)
FactReferences-discrete = hlevel (String-discrete, Decimal-discrete, MeasureUnit-discrete)

instance abbrev pub fact_references_eq : Eq (List NumericFactReference)
fact_references_eq = record { dec = FactReferences-discrete }

pub data Methodology : Type 0 where
  causal_daily_v3_stochastic_v2 : Methodology

unfoldable pub Methodology-discrete : Discrete Methodology
Methodology-discrete = hlevel

instance abbrev pub methodology_eq : Eq Methodology
methodology_eq = record { dec = Methodology-discrete }

-- `item.methodology_id`, which has one value
abbrev pub methodology_of : NumericFactReference → Methodology
methodology_of _ = causal_daily_v3_stochastic_v2

pub record EvidenceBundleSemantic : Type 0 where
  pub bundle_id : String
  pub case_id : String
  pub workflow_revision : ℕ
  pub constitution_id : String
  pub constitution_hash : String
  pub amendment_chain_hash : String
  pub engine : EngineIdentity
  pub invocation : InvocationIdentity
  pub configuration_sha256 : String
  pub input_artifacts : List ArtifactSemanticIdentity
  pub output_artifacts : List ArtifactSemanticIdentity
  pub validator_results : List ValidatorResult
  pub numeric_facts : List NumericFactReference
  pub methodology_identifiers : List Methodology
  pub previous_bundle_hash : String

-- The constraints of the fields on numbers and lengths: `ge=1` and `min_length=1`
unfoldable pub semantic_fields : EvidenceBundleSemantic → Result (Unit {0})
semantic_fields s = do
  raise_if (ltb s.workflow_revision 1) (value_error "validation error")
  raise_if (is_empty s.output_artifacts) (value_error "validation error")
  raise_if (is_empty s.validator_results) (value_error "validation error")
  raise_if (is_empty s.numeric_facts) (value_error "validation error")

abbrev pub path_of : ArtifactSemanticIdentity → String
path_of a = a.path

abbrev pub observed_path : ArtifactObservation → String
observed_path a = a.path

abbrev pub is_disordered : List String → Bool
is_disordered paths = not (paths == sorted paths) || not (is_unique paths)

abbrev pub max_output_artifacts : ℕ
max_output_artifacts = 256

abbrev pub input_versions : List String
input_versions = "csv-v1" ∷ "json-v1" ∷ "raw-v1" ∷ []

abbrev pub output_versions : List String
output_versions = "1" ∷ "2" ∷ "3" ∷ "validated-v1" ∷ []

unfoldable pub deterministic_inventory : EvidenceBundleSemantic → Result (Unit {0})
deterministic_inventory s = do
  let output_paths = map path_of s.output_artifacts
  raise_if (is_disordered (map path_of s.input_artifacts))
      (value_error "input artifact inventory must be sorted and unique")
  raise_if (is_disordered output_paths)
      (value_error "output artifact inventory must be sorted and unique")
  raise_if (ltb max_output_artifacts (length output_paths))
      (value_error "output artifact inventory exceeds its resource limit")
  raise_if
      (any (λ (a : ArtifactSemanticIdentity). not (contains a.schema_version input_versions))
        s.input_artifacts)
      (value_error "input artifact uses an unknown schema version")
  raise_if
      (any (λ (a : ArtifactSemanticIdentity). not (contains a.schema_version output_versions))
        s.output_artifacts)
      (value_error "output artifact uses an unknown schema version")
  raise_if (not (is_unique (map (λ (f : NumericFactReference). f.fact_id) s.numeric_facts)))
      (value_error "numeric fact identifiers must be unique")
  raise_if
      (any (λ (f : NumericFactReference). not (contains f.artifact_path output_paths))
        s.numeric_facts)
      (value_error "numeric fact cites an undeclared output artifact")
  raise_if (not (same_set (map methodology_of s.numeric_facts) s.methodology_identifiers))
      (value_error "numeric facts and methodology inventory do not match")
  raise_if (not (is_unique (map validator_name s.validator_results)))
      (value_error "validator results must be unique")

pub record EvidenceBundleObservations : Type 0 where
  pub execution_started_at : ℕ
  pub execution_completed_at : ℕ
  pub admitted_at : ℕ
  pub input_artifacts : List ArtifactObservation
  pub output_artifacts : List ArtifactObservation
  pub stdout_sha256 : String
  pub stderr_sha256 : String

-- `min_length=1` of the field
unfoldable pub observation_fields : EvidenceBundleObservations → Result (Unit {0})
observation_fields o = raise_if (is_empty o.output_artifacts) (value_error "validation error")

unfoldable pub ordered_observations : EvidenceBundleObservations → Result (Unit {0})
ordered_observations o = do
  raise_if
      (ltb o.execution_completed_at o.execution_started_at
        || ltb o.admitted_at o.execution_completed_at)
      (value_error "bundle observational timestamps are not monotonic")
  for_each
      (λ (inventory : List ArtifactObservation).
        raise_if (is_disordered (map observed_path inventory))
          (value_error "artifact observations must be sorted and unique"))
      (o.input_artifacts ∷ o.output_artifacts ∷ [])

pub record BundleSignature : Type 0 where
  pub signer_id : String
  pub signed_hash : String
  pub signature : String

pub record EvidenceBundle : Type 0 where
  pub semantic : EvidenceBundleSemantic
  pub observations : EvidenceBundleObservations
  pub semantic_hash : String
  pub observation_hash : String
  pub bundle_hash : String
  pub signature : Option BundleSignature

pub record BundleDigests : Type 0 where
  pub semantic : EvidenceBundleSemantic → String
  pub observations : EvidenceBundleObservations → String
  -- of the dictionary with the hash of the observations and the hash of the semantics
  pub bundle : String → String → String

abbrev pub signs_another : String → Option BundleSignature → Bool
signs_another hash none = false
signs_another hash (some s) = not (s.signed_hash == hash)

unfoldable pub integrity : BundleDigests → EvidenceBundle → Result (Unit {0})
integrity d b = do
  let semantic_hash = d.semantic b.semantic
  let observation_hash = d.observations b.observations
  raise_if (not (b.semantic_hash == semantic_hash))
      (value_error "evidence-bundle semantic hash mismatch")
  raise_if (not (b.observation_hash == observation_hash))
      (value_error "evidence-bundle observation hash mismatch")
  raise_if (not (b.bundle_hash == d.bundle observation_hash semantic_hash))
      (value_error "evidence-bundle hash mismatch")
  raise_if
      (not (
          same_set (map path_of b.semantic.input_artifacts)
            (map observed_path b.observations.input_artifacts))
        || not (
            same_set (map path_of b.semantic.output_artifacts)
              (map observed_path b.observations.output_artifacts)))
      (value_error "semantic and observed artifact inventories do not match")
  raise_if (signs_another b.bundle_hash b.signature)
      (value_error "bundle signature is bound to a different hash")

-- The protocol `BundleSigner`
pub record BundleSigner : Type 0 where
  pub sign : String → BundleSignature
  pub verify : BundleSignature → Result (Unit {0})

abbrev pub signed : Option BundleSigner → String → Option BundleSignature
signed none hash = none
signed (some s) hash = some (s.sign hash)

-- The bundle that `create` hands to its constructor
unfoldable pub bundle_of :
    BundleDigests
    → EvidenceBundleSemantic
    → EvidenceBundleObservations
    → Option BundleSigner
    → EvidenceBundle
bundle_of d semantic observations signer =
    let bundle_hash = d.bundle (d.observations observations) (d.semantic semantic) in
    record {
      semantic = semantic;
      observations = observations;
      semantic_hash = d.semantic semantic;
      observation_hash = d.observations observations;
      bundle_hash = bundle_hash;
      signature = signed signer bundle_hash;
    }

unfoldable pub create :
    BundleDigests
    → EvidenceBundleSemantic
    → EvidenceBundleObservations
    → Option BundleSigner
    → Result EvidenceBundle
unfolding bundle_of integrity
create d semantic observations signer = do
  integrity d (bundle_of d semantic observations signer)
  ok (bundle_of d semantic observations signer)
