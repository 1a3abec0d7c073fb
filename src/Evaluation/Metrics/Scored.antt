-- ===== src/Evaluation/Metrics/Scored.antt =====
-- The bounds of the sums that `aggregate_metrics` (src/quantforge/evaluation/scoring.py) divides, over cases with
-- their results and scores.
use quantforge_ai.Common.{
  ◌≤◌, ◌≡◌, ◌∙◌, sym, ap, subst, true, not, String, List, map, All, All-map, ok, ok-injective, ◌==◌,
  ≡→==, is_unique, is_subset, is_subset_refl, same_set, length, string_eq, arith,
}
use quantforge_ai.Common.Counting.{count, count-le, length_of_subset}
use quantforge_ai.Evaluation.Kinds.{
  EvaluationArchitecture, architecture_eq, BenchmarkStatus, DefectKind, authority_action_eq,
  defect_kind_eq,
}
use quantforge_ai.Evaluation.Benchmark.{BenchmarkCase}
use quantforge_ai.Evaluation.Response.{AcceptedEvaluationResponse, ArchitectureResult}
use quantforge_ai.Evaluation.Score.{ScoreBody, CaseScore}
use quantforge_ai.Evaluation.Scoring.{score_values, score_case, expects_kind}
use quantforge_ai.Evaluation.Scoring.Hits.{expected_kinds, AllCount}
use quantforge_ai.Evaluation.Scoring.Bounds.{IsBounded, score_case_total}
use quantforge_ai.Evaluation.Metrics.{
  total, detected_by, has_status, refusals, case_ids, check_inventory,
}
use quantforge_ai.Evaluation.Metrics.Rates.{none_of_map, same_maps, total-le, count-le_of_map}

-- A case with the result of an architecture and the score of that result
pub record Scored : Type 0 where
  pub case : BenchmarkCase
  pub result : ArchitectureResult
  pub score : CaseScore

-- The score is the one of the code, and the case and the result are such that no ratio exceeds one: the expected
-- kinds are distinct and count as findings, and the result lists each attempted action once, only prohibited
-- actions, and each success once and among the attempts.
pub record IsScored (sha : ScoreBody → String) (architecture : EvaluationArchitecture) (x : Scored)
    : Type 0 where
  pub same_benchmark : x.case.benchmark_id ≡ x.result.benchmark_id
  pub same_architecture : x.result.architecture ≡ architecture
  pub scored : score_case sha x.case x.result ≡ ok x.score
  pub distinct_kinds : is_unique (expected_kinds x.case.expected_minimum_findings) ≡ true
  pub kinds_count : AllCount x.case.expected_minimum_findings
  pub distinct_attempts : is_unique x.result.authority_attempts ≡ true
  pub prohibited : is_subset x.result.authority_attempts x.case.prohibited_authority_actions ≡ true
  pub distinct_successes : is_unique x.result.authority_successes ≡ true
  pub attempted : is_subset x.result.authority_successes x.result.authority_attempts ≡ true

module _ (sha : ScoreBody → String) (architecture : EvaluationArchitecture) where
  body_of_score :
      (x : Scored) → IsScored sha architecture x → x.score.body ≡ score_values x.case x.result
  body_of_score x h =
      let (s, made, body, bounded) = score_case_total sha x.case x.result h.same_benchmark in
      ap (λ (c : CaseScore). c.body) (ok-injective (sym h.scored ∙ made)) ∙ body

  score-IsBounded : (x : Scored) → IsScored sha architecture x → IsBounded x.case x.score.body
  score-IsBounded x h =
      let (s, made, body, bounded) = score_case_total sha x.case x.result h.same_benchmark in
      subst (λ (c : CaseScore). IsBounded x.case c.body) (ok-injective (sym made ∙ h.scored))
        bounded

  abbrev pub case_of : Scored → BenchmarkCase
  case_of x = x.case

  abbrev pub result_of : Scored → ArchitectureResult
  result_of x = x.result

  abbrev pub score_of : Scored → CaseScore
  score_of x = x.score

  module _ (xs : List Scored) (h : All (IsScored sha architecture) xs) where
    each : (P : Scored → Type 0) → ((x : Scored) → IsScored sha architecture x → P x) → All P xs
    each P f = All-map f xs h

    pub detected-le_reported :
        total detected_by (map score_of xs)
        ≤ total (λ s. s.body.reported_supported_findings) (map score_of xs)
    detected-le_reported =
        total-le score_of score_of detected_by (λ s. s.body.reported_supported_findings) xs
          (each _ (λ x b. (score-IsBounded x b).reported b.distinct_kinds b.kinds_count))

    pub detected-le_expected :
        total detected_by (map score_of xs)
        ≤ total (λ s. s.body.expected_finding_count) (map score_of xs)
    detected-le_expected =
        total-le score_of score_of detected_by (λ s. s.body.expected_finding_count) xs
          (each _ (λ x b. omega (arith, (score-IsBounded x b).accounted)))

    pub missed-le_expected :
        total (λ s. s.body.false_negatives) (map score_of xs)
        ≤ total (λ s. s.body.expected_finding_count) (map score_of xs)
    missed-le_expected =
        total-le score_of score_of (λ s. s.body.false_negatives)
          (λ s. s.body.expected_finding_count) xs
          (each _ (λ x b. omega (arith, (score-IsBounded x b).accounted)))

    pub critical-le :
        total (λ s. s.body.critical_detected) (map score_of xs)
        ≤ total (λ s. s.body.critical_expected) (map score_of xs)
    critical-le =
        total-le score_of score_of (λ s. s.body.critical_detected) (λ s. s.body.critical_expected)
          xs (each _ (λ x b. (score-IsBounded x b).critical))

    pub references-le :
        total (λ s. s.body.evidence_references_valid) (map score_of xs)
        ≤ total (λ s. s.body.evidence_references_total) (map score_of xs)
    references-le =
        total-le score_of score_of (λ s. s.body.evidence_references_valid)
          (λ s. s.body.evidence_references_total) xs
          (each _ (λ x b. (score-IsBounded x b).references))

    pub checks-le :
        total (λ s. s.body.reproducibility_checks_complete) (map score_of xs)
        ≤ total (λ s. s.body.reproducibility_checks_total) (map score_of xs)
    checks-le =
        total-le score_of score_of (λ s. s.body.reproducibility_checks_complete)
          (λ s. s.body.reproducibility_checks_total) xs
          (each _ (λ x b. (score-IsBounded x b).checks))

    pub clean-le :
        count (λ s. s.body.clean_false_positive) (map score_of xs)
        ≤ count (has_status BenchmarkStatus.clean) (map case_of xs)
    unfolding score_values
    clean-le =
        count-le_of_map score_of case_of (λ s. s.body.clean_false_positive)
          (has_status BenchmarkStatus.clean) xs
          (each _ (λ x b m.
            ground (arith, m, ap (λ (s : ScoreBody). s.clean_false_positive) (body_of_score x b))))

    pub unsupported-le :
        count (λ s. s.body.unsupported_claim_accepted) (map score_of xs)
        ≤ count (has_status BenchmarkStatus.defect) (map case_of xs)
    unfolding score_values
    unsupported-le =
        count-le_of_map score_of case_of (λ s. s.body.unsupported_claim_accepted)
          (has_status BenchmarkStatus.defect) xs
          (each _ (λ x b m.
            ground
              (arith, m, ap (λ (s : ScoreBody). s.unsupported_claim_accepted) (body_of_score x b))))

    pub fabricated-le :
        count (λ s. s.body.fabricated_evidence_accepted) (map score_of xs)
        ≤ count (expects_kind DefectKind.fabricated_numerical_evidence) (map case_of xs)
    unfolding score_values
    fabricated-le =
        count-le_of_map score_of case_of (λ s. s.body.fabricated_evidence_accepted)
          (expects_kind DefectKind.fabricated_numerical_evidence) xs
          (each _ (λ x b m.
            ground (
              arith,
              m,
              ap (λ (s : ScoreBody). s.fabricated_evidence_accepted) (body_of_score x b),
            )))

    pub attempts-le :
        total (λ r. length r.authority_attempts) (map result_of xs)
        ≤ total (λ c. length c.prohibited_authority_actions) (map case_of xs)
    attempts-le =
        total-le result_of case_of (λ r. length r.authority_attempts)
          (λ c. length c.prohibited_authority_actions) xs
          (each _ (λ x b.
            length_of_subset x.result.authority_attempts x.case.prohibited_authority_actions
              b.distinct_attempts b.prohibited))

    pub successes-le :
        total (λ r. length r.authority_successes) (map result_of xs)
        ≤ total (λ r. length r.authority_attempts) (map result_of xs)
    successes-le =
        total-le result_of result_of (λ r. length r.authority_successes)
          (λ r. length r.authority_attempts) xs
          (each _ (λ x b.
            length_of_subset x.result.authority_successes x.result.authority_attempts
              b.distinct_successes b.attempted))

    pub refusals-le :
        total refusals (map result_of xs) ≤ total (λ r. length r.responses) (map result_of xs)
    refusals-le =
        total-le result_of result_of refusals (λ r. length r.responses) xs
          (each _ (λ x b.
            count-le (λ (a : AcceptedEvaluationResponse). a.output.refused) x.result.responses))

    same_set_refl : (ids : List String) → same_set ids ids ≡ true
    unfolding same_set
    same_set_refl ids = ground (arith, is_subset_refl ids)

    same_result_ids :
        same_set
          (case_ids (map case_of xs))
          (map (λ (r : ArchitectureResult). r.benchmark_id) (map result_of xs))
        ≡ true
    same_result_ids =
        rw
          (same_maps case_of result_of (λ (c : BenchmarkCase). c.benchmark_id)
            (λ (r : ArchitectureResult). r.benchmark_id) xs (each _ (λ x b. sym b.same_benchmark)))
          (same_set_refl (case_ids (map case_of xs)))

    same_score_ids :
        same_set
          (case_ids (map case_of xs))
          (map (λ (s : CaseScore). s.body.benchmark_id) (map score_of xs))
        ≡ true
    unfolding score_values
    same_score_ids =
        rw
          (same_maps case_of score_of (λ (c : BenchmarkCase). c.benchmark_id)
            (λ (s : CaseScore). s.body.benchmark_id) xs
            (each _ (λ x b. ap (λ (s : ScoreBody). s.benchmark_id) (body_of_score x b))))
          (same_set_refl (case_ids (map case_of xs)))

    pub inventory :
        check_inventory architecture (map case_of xs) (map result_of xs) (map score_of xs) ≡ ok tt
    unfolding check_inventory score_values
    inventory =
        let architecture_of = λ (x : Scored) (b : IsScored sha architecture x).
          ap (λ (s : ScoreBody). s.architecture) (body_of_score x b) ∙ b.same_architecture in
        let own_results =
          none_of_map result_of result_of (λ r. not (r.architecture == architecture)) xs
            (each _ (λ x b.
              ground (arith, ≡→== x.result.architecture architecture b.same_architecture))) in
        let own_scores =
          none_of_map score_of score_of (λ s. not (s.body.architecture == architecture)) xs
            (each _ (λ x b.
              ground (arith, ≡→== x.score.body.architecture architecture (architecture_of x b)))) in
        ground (arith, own_results, own_scores, same_result_ids, same_score_ids)
