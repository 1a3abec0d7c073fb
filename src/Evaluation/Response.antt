-- ===== src/Evaluation/Response.antt =====
-- What an architecture answers, of src/quantforge/evaluation/models.py: findings, provider outputs,
-- accepted responses and architecture results, with their validators. A field with one permitted value is left
-- out. A dictionary is the list of its entries in the order of their keys, so that `==` does not see
-- the order of insertion. `ResponseDigests` holds what `canonical_sha256` gives.
use quantforge_ai.Common.{
  ℕ, Bool, true, false, not, ◌||◌, ◌&&◌, String, List, map, Option, none, some, value_error, Result,
  ok, raise_if, ◌>>◌, if◌then◌else◌, ◌==◌, Eq, bool_eq, nat_eq, is_none, is_some, is_empty,
  is_unique, is_subset, last?, length, string_eq, String-discrete,
}
use quantforge_ai.Common.Dictionary.{Dictionary}
use quantforge_ai.Domain.Decimal.{Decimal}
use quantforge_ai.Evaluation.Kinds.{
  EvaluationArchitecture, EvaluationArchitecture-discrete, architecture_eq, EvaluationMode,
  FindingClassification, FindingClassification-discrete, DefectKind, DefectKind-discrete,
  AuthorityAction, AuthorityAction-discrete, authority_action_eq, Recommendation,
  Recommendation-discrete, EvaluationStage, EvaluationStage-discrete,
}

pub record EvaluationFinding : Type 0 where
  pub finding_id : String
  pub defect_kind : DefectKind
  pub classification : FindingClassification
  pub critical : Bool
  pub summary : String
  pub evidence_ids : List String

unfoldable pub EvaluationFinding-discrete : Discrete EvaluationFinding
EvaluationFinding-discrete =
    hlevel (String-discrete, DefectKind-discrete, FindingClassification-discrete)

unfoldable pub finding_ids_are_unique : EvaluationFinding → Result (Unit {0})
finding_ids_are_unique f =
    raise_if (not (is_unique f.evidence_ids))
      (value_error "finding evidence references must be unique")

pub record EvaluationProviderOutput : Type 0 where
  pub benchmark_id : String
  pub architecture : EvaluationArchitecture
  pub stage : EvaluationStage
  pub proposal_summary : String
  pub findings : List EvaluationFinding
  pub recommendation : Recommendation
  pub authority_attempts : List AuthorityAction
  pub reproducibility_checks : Dictionary Bool
  pub refused : Bool
  pub failure_kind : Option String

unfoldable pub EvaluationProviderOutput-discrete : Discrete EvaluationProviderOutput
EvaluationProviderOutput-discrete = hlevel (
  String-discrete, EvaluationArchitecture-discrete, EvaluationStage-discrete,
  EvaluationFinding-discrete, Recommendation-discrete, AuthorityAction-discrete,
)

instance abbrev pub provider_output_eq : Eq EvaluationProviderOutput
provider_output_eq = record { dec = EvaluationProviderOutput-discrete }

unfoldable pub output_is_consistent : EvaluationProviderOutput → Result (Unit {0})
output_is_consistent o = do
  raise_if (not (is_unique o.authority_attempts)) (value_error "authority attempts must be unique")
  raise_if (not (o.refused == is_some o.failure_kind))
      (value_error "refusal and failure kind must be reported together")

pub record ProviderObservation : Type 0 where
  pub provider_identity : String
  pub model_snapshot : String
  pub endpoint_class : String
  pub request_id : Option String
  pub response_id : Option String
  pub input_tokens : Option ℕ
  pub output_tokens : Option ℕ
  pub latency_ms : Option ℕ
  pub estimated_cost_usd : Option Decimal
  pub unavailable_reason : Option String

unfoldable pub unavailable_fields_are_explicit : ProviderObservation → Result (Unit {0})
unavailable_fields_are_explicit o =
    raise_if
      ((is_none o.input_tokens || is_none o.output_tokens || is_none o.latency_ms)
        && is_none o.unavailable_reason)
      (value_error "unavailable provider observations require an explicit reason")

pub record AcceptedEvaluationResponse : Type 0 where
  pub request_semantic_sha256 : String
  pub output : EvaluationProviderOutput
  pub observation : ProviderObservation
  pub semantic_sha256 : String

-- A response without its observation, which the identities leave out
pub record SemanticResponse : Type 0 where
  pub request_semantic_sha256 : String
  pub output : EvaluationProviderOutput
  pub semantic_sha256 : String

pub record ArchitectureResult : Type 0 where
  pub benchmark_id : String
  pub case_version : String
  pub architecture : EvaluationArchitecture
  pub mode : EvaluationMode
  pub responses : List AcceptedEvaluationResponse
  pub final_output : EvaluationProviderOutput
  pub authority_attempts : List AuthorityAction
  pub authority_successes : List AuthorityAction
  pub provider_call_count : ℕ
  pub independent_reviewer_count : ℕ
  pub retry_count : ℕ
  pub store_transition_count : ℕ
  pub schema_valid : Bool
  pub failed : Bool
  pub governed_request_semantic_hashes : List String
  pub governed_provider_semantic_hashes : List String
  pub tribunal_case_semantic_sha256 : Option String
  pub tribunal_revision : Option ℕ
  pub repeat_execution_semantic_sha256 : Option String
  pub deterministic_consistent : Option Bool
  pub semantic_sha256 : String

-- What `_architecture_result_semantic_values` keeps of a result
pub record SemanticResult : Type 0 where
  pub benchmark_id : String
  pub case_version : String
  pub architecture : EvaluationArchitecture
  pub mode : EvaluationMode
  pub responses : List SemanticResponse
  pub final_output : EvaluationProviderOutput
  pub authority_attempts : List AuthorityAction
  pub authority_successes : List AuthorityAction
  pub provider_call_count : ℕ
  pub independent_reviewer_count : ℕ
  pub retry_count : ℕ
  pub store_transition_count : ℕ
  pub schema_valid : Bool
  pub failed : Bool
  pub governed_request_semantic_hashes : List String
  pub governed_provider_semantic_hashes : List String
  pub tribunal_case_semantic_sha256 : Option String
  pub tribunal_revision : Option ℕ
  pub repeat_execution_semantic_sha256 : Option String
  pub deterministic_consistent : Option Bool

pub record ResponseDigests : Type 0 where
  pub response : String → EvaluationProviderOutput → String
  pub result : SemanticResult → String

unfoldable pub semantic_identity_is_exact :
    ResponseDigests → AcceptedEvaluationResponse → Result (Unit {0})
semantic_identity_is_exact d r =
    raise_if (not (r.semantic_sha256 == d.response r.request_semantic_sha256 r.output))
      (value_error "accepted evaluation response semantic hash mismatch")

abbrev pub semantic_response : AcceptedEvaluationResponse → SemanticResponse
semantic_response r = record {
  request_semantic_sha256 = r.request_semantic_sha256;
  output = r.output;
  semantic_sha256 = r.semantic_sha256;
}

unfoldable pub semantic_values : ArchitectureResult → SemanticResult
semantic_values r = record {
  benchmark_id = r.benchmark_id;
  case_version = r.case_version;
  architecture = r.architecture;
  mode = r.mode;
  responses = map semantic_response r.responses;
  final_output = r.final_output;
  authority_attempts = r.authority_attempts;
  authority_successes = r.authority_successes;
  provider_call_count = r.provider_call_count;
  independent_reviewer_count = r.independent_reviewer_count;
  retry_count = r.retry_count;
  store_transition_count = r.store_transition_count;
  schema_valid = r.schema_valid;
  failed = r.failed;
  governed_request_semantic_hashes = r.governed_request_semantic_hashes;
  governed_provider_semantic_hashes = r.governed_provider_semantic_hashes;
  tribunal_case_semantic_sha256 = r.tribunal_case_semantic_sha256;
  tribunal_revision = r.tribunal_revision;
  repeat_execution_semantic_sha256 = r.repeat_execution_semantic_sha256;
  deterministic_consistent = r.deterministic_consistent;
}

-- The dictionary `base`
abbrev pub without_repeat : SemanticResult → SemanticResult
without_repeat s = record s {
  repeat_execution_semantic_sha256 = none;
  deterministic_consistent = none;
}

-- `final_output == responses[-1].output`; the responses are not empty.
abbrev pub is_last : Option AcceptedEvaluationResponse → EvaluationProviderOutput → Bool
is_last none o = false
is_last (some r) o = o == r.output

abbrev pub is_tribunal : EvaluationArchitecture → Bool
is_tribunal a = a == EvaluationArchitecture.quantforge_tribunal

-- `self.deterministic_consistent != (observed == repeat)`
abbrev pub contradicts_repeat : Option Bool → Bool → Bool
contradicts_repeat none same = true
contradicts_repeat (some b) same = not (b == same)

abbrev pub check_repeat : ResponseDigests → ArchitectureResult → Option String → Result (Unit {0})
check_repeat d r none = ok tt
check_repeat d r (some repeated) =
    raise_if
      (contradicts_repeat r.deterministic_consistent
        (d.result (without_repeat (semantic_values r)) == repeated))
      (value_error "deterministic consistency status contradicts repeat execution")

abbrev pub check_governed : ArchitectureResult → Result (Unit {0})
check_governed r =
    if is_tribunal r.architecture
    then raise_if
        (not (length r.governed_request_semantic_hashes == r.provider_call_count)
          || not (length r.governed_provider_semantic_hashes == r.provider_call_count))
        (value_error "tribunal result lacks governed request or provider identities")
    else raise_if
        (not (is_empty r.governed_request_semantic_hashes)
          || not (is_empty r.governed_provider_semantic_hashes))
        (value_error "baseline result cannot claim governed tribunal identities")

unfoldable pub architecture_result_is_exact :
    ResponseDigests → ArchitectureResult → Result (Unit {0})
unfolding semantic_values
architecture_result_is_exact d r = do
  raise_if (not (r.provider_call_count == length r.responses))
      (value_error "provider call count differs from accepted response inventory")
  raise_if (not (is_last (last? r.responses) r.final_output))
      (value_error "final output must be the terminal accepted response")
  raise_if (not (is_subset r.authority_successes r.authority_attempts))
      (value_error "authority success must correspond to an attempted action")
  raise_if
      (not (
        is_tribunal r.architecture
        == (is_some r.tribunal_case_semantic_sha256 && is_some r.tribunal_revision)))
      (value_error "only the tribunal may retain governed case persistence identity")
  check_governed r
  raise_if (not (is_none r.repeat_execution_semantic_sha256 == is_none r.deterministic_consistent))
      (value_error "repeat identity and consistency status must be recorded together")
  check_repeat d r r.repeat_execution_semantic_sha256
  raise_if (not (r.semantic_sha256 == d.result (semantic_values r)))
      (value_error "architecture result semantic hash mismatch")
