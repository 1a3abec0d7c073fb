-- ===== src/Domain/Evidence.antt =====
-- The evidence object and its numeric facts, of src/quantforge/domain/models.py.
use quantforge_ai.Common.{ℕ, String, List, Option, Eq, ℕ_discrete, String-discrete}
use quantforge_ai.Domain.Enums.{
  MeasureUnit, MeasureUnit-discrete, ValidationStatus, ValidationStatus-discrete,
  EvidenceRelationship, EvidenceRelationship-discrete,
}
use quantforge_ai.Domain.Decimal.{Decimal, Decimal-discrete}
use quantforge_ai.Domain.Json.{JsonFields, JsonFields-discrete}

pub record NumericFact : Type 0 where
  pub fact_id : String
  pub name : String
  pub value : Decimal
  pub unit : MeasureUnit

unfoldable pub NumericFact-discrete : Discrete NumericFact
NumericFact-discrete = hlevel (String-discrete, Decimal-discrete, MeasureUnit-discrete)

pub record EvidenceObject : Type 0 where
  pub evidence_id : String
  pub evidence_type : String
  pub case_id : String
  pub claim_ids : List String
  pub experiment_id : String
  pub constitution_hash : String
  pub source_adapter : String
  pub source_artifact : String
  pub source_artifact_sha256 : String
  pub structured_location : Option String
  pub content_sha256 : String
  pub created_at : ℕ
  pub validation_status : ValidationStatus
  pub validation_method : String
  pub content : JsonFields
  pub numeric_facts : List NumericFact
  pub units : List MeasureUnit
  pub assumptions : List String
  pub limitations : List String
  pub relationship : EvidenceRelationship
  pub provenance : JsonFields

unfoldable pub EvidenceObject-discrete : Discrete EvidenceObject
EvidenceObject-discrete = hlevel (
  String-discrete, ℕ_discrete, ValidationStatus-discrete, JsonFields-discrete, NumericFact-discrete,
  MeasureUnit-discrete, EvidenceRelationship-discrete,
)

instance abbrev pub evidence_object_eq : Eq EvidenceObject
evidence_object_eq = record { dec = EvidenceObject-discrete }
