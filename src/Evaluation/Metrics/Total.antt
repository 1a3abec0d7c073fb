-- ===== src/Evaluation/Metrics/Total.antt =====
-- When `aggregate_metrics` of src/quantforge/evaluation/scoring.py returns.
use quantforge_ai.Common.{
  ℕ, ◌≤◌, ◌≡◌, refl, Bool, String, List, map, All, Result, ok, string_eq, arith,
}
use quantforge_ai.Common.Counting.{count, count-le}
use quantforge_ai.Common.Dictionary.{Dictionary, find}
use quantforge_ai.Evaluation.Kinds.{
  EvaluationArchitecture, architecture_eq, DefectKind, AuthorityAction, authority_action_eq,
  defect_kind_eq,
}
use quantforge_ai.Evaluation.Benchmark.{BenchmarkCase}
use quantforge_ai.Evaluation.Response.{ArchitectureResult}
use quantforge_ai.Evaluation.Score.{ScoreBody, DecimalContext, MetricValue, ArchitectureMetrics}
use quantforge_ai.Evaluation.Scoring.{expects_kind}
use quantforge_ai.Evaluation.Metrics.{
  metric, ratio, total, has_attempted, or_false, aggregate_metrics,
}
use quantforge_ai.Evaluation.Metrics.Rates.{ratio-eq-ok, bind_returns}
use quantforge_ai.Evaluation.Metrics.Scored.{
  Scored, IsScored, case_of, result_of, score_of, detected-le_reported, detected-le_expected,
  missed-le_expected, critical-le, references-le, checks-le, clean-le, unsupported-le,
  fabricated-le, attempts-le, successes-le, refusals-le, inventory,
}

abbrev pub IsRate : MetricValue → Type 0
IsRate m = m.numerator ≤ m.denominator

-- All metrics lie between zero and one.
pub record HasRates (m : ArchitectureMetrics) : Type 0 where
  pub true_positive : IsRate m.defect_true_positive_rate
  pub false_negative : IsRate m.defect_false_negative_rate
  pub clean_false_positive : IsRate m.clean_case_false_positive_rate
  pub precision : IsRate m.precision
  pub recall : IsRate m.recall
  pub critical : IsRate m.critical_defect_detection_rate
  pub unsupported : IsRate m.unsupported_claim_acceptance_rate
  pub fabricated : IsRate m.fabricated_evidence_acceptance_rate
  pub references : IsRate m.evidence_reference_precision
  pub attempts : IsRate m.authority_violation_attempt_rate
  pub successes : IsRate m.authority_violation_success_rate
  pub upgrade : IsRate m.verdict_upgrade_success_rate
  pub mutation : IsRate m.constitution_mutation_success_rate
  pub cross_case : IsRate m.cross_case_acceptance_rate
  pub cross_revision : IsRate m.cross_revision_acceptance_rate
  pub duplicates : IsRate m.replay_induced_duplicate_transition_rate
  pub reproducibility : IsRate m.reproducibility_completeness_score
  pub consistency : IsRate m.deterministic_semantic_consistency
  pub schema_valid : IsRate m.schema_valid_output_rate
  pub refusal : IsRate m.refusal_rate
  pub failure : IsRate m.failure_rate

module _ (sha : ScoreBody → String) (architecture : EvaluationArchitecture) where
  module _ (xs : List Scored) (h : All (IsScored sha architecture) xs) where
    zero-le : (n : ℕ) → 0 ≤ n
    zero-le n = omega arith

    -- The aggregation returns, and all its metrics lie between zero and one.
    aggregated :
        (d : DecimalContext) (semantic_consistency : Dictionary Bool)
        → (m : ArchitectureMetrics) × (aggregate_metrics d architecture
              (map (case_of sha architecture) xs)
              (map (result_of sha architecture) xs)
              (map (score_of sha architecture) xs)
              semantic_consistency
            ≡ ok m)
          × HasRates m
    unfolding aggregate_metrics
    aggregated d semantic_consistency =
        let step = λ (n m : ℕ) (le : n ≤ m) (rest : MetricValue → Result ArchitectureMetrics).
          bind_returns HasRates (ratio d n m) rest (metric d n m) (ratio-eq-ok d n m le) in
        bind_returns HasRates _ _ tt (inventory sha architecture xs h) (
          step _ _ (detected-le_reported sha architecture xs h) _ (
            step _ _ (detected-le_expected sha architecture xs h) _ (
              step _ _ (detected-le_expected sha architecture xs h) _ (
                step _ _ (missed-le_expected sha architecture xs h) _ (
                  step _ _ (clean-le sha architecture xs h) _ (
                    step _ _ (critical-le sha architecture xs h) _ (
                      step _ _ (unsupported-le sha architecture xs h) _ (
                        step _ _ (fabricated-le sha architecture xs h) _ (
                          step _ _ (references-le sha architecture xs h) _ (
                            step _ _ (attempts-le sha architecture xs h) _ (
                              step _ _ (successes-le sha architecture xs h) _ (
                                step 0 _
                                  (zero-le (
                                    count (has_attempted AuthorityAction.choose_verdict)
                                      (map (result_of sha architecture) xs)))
                                  _
                                  (step 0 _
                                    (zero-le (
                                      count (has_attempted AuthorityAction.mutate_constitution)
                                        (map (result_of sha architecture) xs)))
                                    _
                                    (step 0 _
                                      (zero-le (
                                        count (expects_kind DefectKind.cross_case_substitution)
                                          (map (case_of sha architecture) xs)))
                                      _
                                      (step 0 _
                                        (zero-le (
                                          count
                                            (expects_kind DefectKind.cross_revision_substitution)
                                            (map (case_of sha architecture) xs)))
                                        _
                                        (step 0 _
                                          (zero-le (
                                            total (λ r. r.provider_call_count)
                                              (map (result_of sha architecture) xs)))
                                          _
                                          (step _ _ (checks-le sha architecture xs h) _ (
                                            step _ _
                                              (count-le
                                                (λ (c : BenchmarkCase).
                                                  or_false
                                                    (find c.benchmark_id semantic_consistency))
                                                (map (case_of sha architecture) xs))
                                              _
                                              (step _ _
                                                (count-le
                                                  (λ (r : ArchitectureResult). r.schema_valid)
                                                  (map (result_of sha architecture) xs))
                                                _
                                                (step _ _ (refusals-le sha architecture xs h) _ (
                                                  step _ _
                                                    (count-le (λ (r : ArchitectureResult). r.failed)
                                                      (map (result_of sha architecture) xs))
                                                    _
                                                    (
                                                      _,
                                                      refl,
                                                      record {
                                                        true_positive =
                                                            (detected-le_expected sha architecture
                                                            xs h);
                                                        false_negative =
                                                            (missed-le_expected sha architecture xs
                                                            h);
                                                        clean_false_positive =
                                                            (clean-le sha architecture xs h);
                                                        precision =
                                                            (detected-le_reported sha architecture
                                                            xs h);
                                                        recall =
                                                            (detected-le_expected sha architecture
                                                            xs h);
                                                        critical =
                                                            (critical-le sha architecture xs h);
                                                        unsupported =
                                                            (unsupported-le sha architecture xs h);
                                                        fabricated =
                                                            (fabricated-le sha architecture xs h);
                                                        references =
                                                            (references-le sha architecture xs h);
                                                        attempts =
                                                            (attempts-le sha architecture xs h);
                                                        successes =
                                                            (successes-le sha architecture xs h);
                                                        upgrade = zero-le (
                                                            count
                                                            (has_attempted
                                                            AuthorityAction.choose_verdict)
                                                            (map (result_of sha architecture) xs));
                                                        mutation = zero-le (
                                                            count
                                                            (has_attempted
                                                            AuthorityAction.mutate_constitution)
                                                            (map (result_of sha architecture) xs));
                                                        cross_case = zero-le (
                                                            count
                                                            (expects_kind
                                                            DefectKind.cross_case_substitution)
                                                            (map (case_of sha architecture) xs));
                                                        cross_revision = zero-le (
                                                            count
                                                            (expects_kind
                                                            DefectKind.cross_revision_substitution)
                                                            (map (case_of sha architecture) xs));
                                                        duplicates = zero-le (
                                                            total (λ r. r.provider_call_count)
                                                            (map (result_of sha architecture) xs));
                                                        reproducibility =
                                                            (checks-le sha architecture xs h);
                                                        consistency =
                                                            count-le
                                                            (λ (c : BenchmarkCase). or_false (
                                                            find c.benchmark_id
                                                            semantic_consistency))
                                                            (map (case_of sha architecture) xs);
                                                        schema_valid =
                                                            count-le
                                                            (λ (r : ArchitectureResult).
                                                            r.schema_valid)
                                                            (map (result_of sha architecture) xs);
                                                        refusal =
                                                            (refusals-le sha architecture xs h);
                                                        failure =
                                                            count-le
                                                            (λ (r : ArchitectureResult). r.failed)
                                                            (map (result_of sha architecture) xs);
                                                      },
                                                    ))))))))))))))))))))))

-- For results of one architecture with the scores that score_case gives them, one for each case,
-- aggregate_metrics returns, and every metric has a numerator that does not exceed its denominator, provided
-- that the expected kinds of a case are distinct and count as findings, that a result lists each attempted action once and
-- attempts only actions that the case prohibits, and lists each success once and among its attempts.
pub aggregate_metrics_total :
    (sha : ScoreBody → String) (d : DecimalContext) (architecture : EvaluationArchitecture)
    (xs : List Scored) (semantic_consistency : Dictionary Bool)
    → All (IsScored sha architecture) xs
    → (m : ArchitectureMetrics) × (aggregate_metrics d architecture
          (map (λ (x : Scored). x.case) xs)
          (map (λ (x : Scored). x.result) xs)
          (map (λ (x : Scored). x.score) xs)
          semantic_consistency
        ≡ ok m)
      × HasRates m
aggregate_metrics_total sha d architecture xs semantic_consistency h =
    aggregated sha architecture xs h d semantic_consistency
