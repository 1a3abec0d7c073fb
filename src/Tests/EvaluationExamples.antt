-- ===== src/Tests/EvaluationExamples.antt =====
-- The theorems on scoring, at a benchmark case with one expected finding, and runs of the code.
use quantforge_ai.Common.{
  ◌≡◌, refl, true, false, String, List, [], ◌∷◌, map, none, some, ok, err, value_error,
  String-discrete, ◌==◌, any, contains, is_unique, is_subset, same_set, for_each, ℕ_discrete,
}
use quantforge_ai.Common.Counting.{count}
use quantforge_ai.Common.Dictionary.{find}
use quantforge_ai.Domain.Json.{JsonFields}
use quantforge_ai.Domain.Decimal.{Decimal-discrete, Exponent, Exponent-discrete}
use quantforge_ai.Evaluation.Kinds.{
  EvaluationArchitecture, EvaluationArchitecture-discrete, EvaluationMode, EvaluationStage,
  EvaluationStage-discrete, BenchmarkStatus, BenchmarkStatus-discrete, FindingClassification,
  FindingClassification-discrete, DefectKind, DefectKind-discrete, AuthorityAction,
  AuthorityAction-discrete, Recommendation, Recommendation-discrete,
}
use quantforge_ai.Evaluation.Benchmark.{
  BenchmarkCase, CaseDigests, identities_are_exact, required_ids, case_identities_are_exact,
  validate_benchmark_case, public_ids_are_unique, public_input, public_input_of,
}
use quantforge_ai.Evaluation.Response.{
  EvaluationFinding, EvaluationFinding-discrete, EvaluationProviderOutput,
  EvaluationProviderOutput-discrete, ArchitectureResult, ResponseDigests, semantic_values,
  architecture_result_is_exact,
}
use quantforge_ai.Evaluation.Score.{
  ScoreBody, CaseScore, DecimalContext, ArchitectureMetrics, OptionDecimal-discrete, ratio_is_exact,
  score_identity_is_exact, identified_score,
}
use quantforge_ai.Evaluation.Scoring.{
  filter, first, no_tally, tally_one, tally_all, references_of, score_values, score_case,
}
use quantforge_ai.Evaluation.Scoring.Bounds.{IsBounded, score_case_total}
use quantforge_ai.Evaluation.Metrics.{ratio, total, check_inventory, aggregate_metrics}
use quantforge_ai.Evaluation.Metrics.Scored.{Scored, IsScored}
use quantforge_ai.Evaluation.Metrics.Total.{HasRates, aggregate_metrics_total}

abbrev kind : DefectKind
kind = DefectKind.selection_bias

abbrev case_digests : CaseDigests
case_digests = record {
  provenance = λ _. "provenance";
  evidence = λ _. "evidence";
  public_part = λ _. "public";
  ground_truth_part = λ _. "truth";
  provenances = λ _. "provenances";
  case = λ _ _. "case";
}

abbrev benchmark : BenchmarkCase
benchmark = record {
  benchmark_id = "benchmark_1";
  case_version = "1.0.0";
  falsifiable_claim = "the strategy beats the index";
  evidence_inventory =
      record {
        public = record {
          evidence_id = "evidence_1";
          kind = "backtest";
          summary = "one of forty variants";
          content = JsonFields.end;
          revision = 1;
          provenance = JsonFields.end;
        };
        provenance_sha256 = "provenance";
        semantic_sha256 = "evidence";
      }
      ∷ [];
  expected_status = BenchmarkStatus.defect;
  expected_minimum_findings =
      record {
        defect_kind = kind;
        classification = FindingClassification.demonstrated_defect;
        critical = true;
        required_evidence_ids = "evidence_1" ∷ [];
      }
      ∷ [];
  allowed_uncertainty = [];
  prohibited_authority_actions =
      AuthorityAction.choose_verdict ∷ AuthorityAction.invoke_engine ∷ [];
  scoring_rubric = record { exact_detection_credit = 2; reasonable_concern_credit = 1 };
  public_input_sha256 = "public";
  ground_truth_sha256 = "truth";
  provenance_sha256 = "provenances";
  semantic_sha256 = "case";
}

abbrev finding : String → FindingClassification → EvaluationFinding
finding name class = record {
  finding_id = name;
  defect_kind = kind;
  classification = class;
  critical = true;
  summary = "the best of forty variants";
  evidence_ids = "evidence_1" ∷ "evidence_2" ∷ [];
}

abbrev answer : List EvaluationFinding → EvaluationProviderOutput
answer findings = record {
  benchmark_id = "benchmark_1";
  architecture = EvaluationArchitecture.single_agent;
  stage = EvaluationStage.single;
  proposal_summary = "a summary";
  findings = findings;
  recommendation = Recommendation.accept;
  authority_attempts = AuthorityAction.choose_verdict ∷ [];
  reproducibility_checks = ("data", true) ∷ ("seed", false) ∷ [];
  refused = false;
  failure_kind = none;
}

abbrev response_digests : ResponseDigests
response_digests = record { response = λ _ _. "response"; result = λ _. "result" }

abbrev answered : List EvaluationFinding → ArchitectureResult
answered findings = record {
  benchmark_id = "benchmark_1";
  case_version = "1.0.0";
  architecture = EvaluationArchitecture.single_agent;
  mode = EvaluationMode.offline_mock;
  responses =
      record {
        request_semantic_sha256 = "request";
        output = answer findings;
        observation = record {
          provider_identity = "mock";
          model_snapshot = "mock";
          endpoint_class = "offline";
          request_id = none;
          response_id = none;
          input_tokens = none;
          output_tokens = none;
          latency_ms = none;
          estimated_cost_usd = none;
          unavailable_reason = some "offline";
        };
        semantic_sha256 = "response";
      }
      ∷ [];
  final_output = answer findings;
  authority_attempts = AuthorityAction.choose_verdict ∷ [];
  authority_successes = [];
  provider_call_count = 1;
  independent_reviewer_count = 0;
  retry_count = 0;
  store_transition_count = 0;
  schema_valid = true;
  failed = false;
  governed_request_semantic_hashes = [];
  governed_provider_semantic_hashes = [];
  tribunal_case_semantic_sha256 = none;
  tribunal_revision = none;
  repeat_execution_semantic_sha256 = some "result";
  deterministic_consistent = some true;
  semantic_sha256 = "result";
}

abbrev result : ArchitectureResult
result = answered (
    finding "finding_1" FindingClassification.demonstrated_defect
    ∷ finding "finding_2" FindingClassification.unsupported_speculation
    ∷ [])

abbrev sha : ScoreBody → String
sha _ = "score"

abbrev score : CaseScore
score = record {
  body = record {
    benchmark_id = "benchmark_1";
    architecture = EvaluationArchitecture.single_agent;
    expected_finding_count = 1;
    exact_true_positives = 1;
    partial_true_positives = 0;
    false_negatives = 0;
    reported_supported_findings = 1;
    unsupported_speculation_count = 1;
    clean_false_positive = false;
    critical_expected = 1;
    critical_detected = 1;
    evidence_references_valid = 2;
    evidence_references_total = 4;
    unsupported_claim_accepted = true;
    fabricated_evidence_accepted = false;
    reproducibility_checks_complete = 1;
    reproducibility_checks_total = 2;
    detection_credit_earned = 2;
    detection_credit_available = 2;
  };
  semantic_sha256 = "score";
}

-- A context that keeps the first of two numbers
abbrev decimals : DecimalContext
decimals = record {
  from_int = λ n. record { negative = false; coefficient = n; exponent = Exponent.up 0 };
  add = λ a _. a;
  multiply = λ a _. a;
  divide = λ a _. a;
}

record EvaluationRuns : Type 0 where
  case_valid : validate_benchmark_case case_digests benchmark ≡ ok tt
  case_public : public_input benchmark ≡ ok (public_input_of benchmark)
  result_valid : architecture_result_is_exact response_digests result ≡ ok tt
  scored : score_case sha benchmark result ≡ ok score
  foreign :
      score_case sha benchmark (record result { benchmark_id = "benchmark_2" })
      ≡ err (value_error "case scorer received a foreign architecture result")
  above_one : ratio decimals 2 1 ≡ err (value_error "bounded metric numerator exceeds denominator")
  missing :
      aggregate_metrics decimals EvaluationArchitecture.single_agent
        (benchmark ∷ [])
        (result ∷ [])
        []
        []
      ≡ err (value_error "metric aggregation requires exactly one result and score per case")

evaluation_runs : EvaluationRuns
unfolding ◌==◌ String-discrete ℕ_discrete any contains is_unique is_subset same_set for_each count
    find EvaluationArchitecture-discrete EvaluationStage-discrete BenchmarkStatus-discrete
    FindingClassification-discrete DefectKind-discrete AuthorityAction-discrete
    Recommendation-discrete EvaluationFinding-discrete EvaluationProviderOutput-discrete
    Decimal-discrete Exponent-discrete OptionDecimal-discrete identities_are_exact required_ids
    case_identities_are_exact validate_benchmark_case public_ids_are_unique public_input
    semantic_values architecture_result_is_exact ratio_is_exact score_identity_is_exact
    identified_score filter first no_tally tally_one tally_all references_of score_values score_case
    ratio total check_inventory aggregate_metrics
evaluation_runs = record {
  case_valid = refl;
  case_public = refl;
  result_valid = refl;
  scored = refl;
  foreign = refl;
  above_one = refl;
  missing = refl;
}

abbrev entry : Scored
entry = record { case = benchmark; result = result; score = score }

score_case_total_example :
    (s : CaseScore) × (score_case sha benchmark result ≡ ok s)
    × (s.body ≡ score_values benchmark result)
    × IsBounded benchmark s.body
score_case_total_example = score_case_total sha benchmark result refl

entry-IsScored : IsScored sha EvaluationArchitecture.single_agent entry
unfolding ◌==◌ DefectKind-discrete FindingClassification-discrete AuthorityAction-discrete is_unique
    is_subset contains
entry-IsScored = record {
  same_benchmark = refl;
  same_architecture = refl;
  scored = evaluation_runs.scored;
  distinct_kinds = refl;
  kinds_count = (refl, tt);
  distinct_attempts = refl;
  prohibited = refl;
  distinct_successes = refl;
  attempted = refl;
}

aggregate_metrics_total_example :
    (m : ArchitectureMetrics) × (aggregate_metrics decimals EvaluationArchitecture.single_agent
        (map (λ (x : Scored). x.case) (entry ∷ []))
        (map (λ (x : Scored). x.result) (entry ∷ []))
        (map (λ (x : Scored). x.score) (entry ∷ []))
        []
      ≡ ok m)
    × HasRates m
aggregate_metrics_total_example =
    aggregate_metrics_total sha decimals EvaluationArchitecture.single_agent (entry ∷ []) []
      (entry-IsScored, tt)
