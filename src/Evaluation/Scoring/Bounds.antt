-- ===== src/Evaluation/Scoring/Bounds.antt =====
-- The counts of a score of src/quantforge/evaluation/scoring.py, and their bounds.
use quantforge_ai.Common.{
  ℕ, ◌+◌, ◌*◌, ◌≤◌, ◌≡◌, refl, sym, subst, true, String, ok, ≡→==, is_unique, length, string_eq,
  arith,
}
use native.Mathlib.Nat.{mul-le-mul_left}
use quantforge_ai.Common.Counting.{count-le, length_of_subset}
use quantforge_ai.Common.Dictionary.{values}
use quantforge_ai.Evaluation.Kinds.{classification_eq, defect_kind_eq}
use quantforge_ai.Evaluation.Benchmark.{BenchmarkCase}
use quantforge_ai.Evaluation.Response.{ArchitectureResult}
use quantforge_ai.Evaluation.Score.{ScoreBody, CaseScore, score_identity_is_exact, identified_score}
use quantforge_ai.Evaluation.Scoring.{
  filter, no_tally, is_supported, references_of, score_values, score_case,
}
use quantforge_ai.Evaluation.Scoring.Tallies.{tally_all-IsTally}
use quantforge_ai.Evaluation.Scoring.Hits.{
  kinds, hits, length-hits, is_unique-hits, is_subset-hits, length-kinds, expected_kinds, AllCount,
}

-- What the counts of a score are bounded by
pub record IsBounded (c : BenchmarkCase) (b : ScoreBody) : Type 0 where
  pub accounted :
      b.exact_true_positives + b.partial_true_positives + b.false_negatives
      ≡ b.expected_finding_count
  pub critical : b.critical_detected ≤ b.critical_expected
  pub references : b.evidence_references_valid ≤ b.evidence_references_total
  pub checks : b.reproducibility_checks_complete ≤ b.reproducibility_checks_total
  pub credit :
      c.scoring_rubric.reasonable_concern_credit ≤ c.scoring_rubric.exact_detection_credit
      → b.detection_credit_earned ≤ b.detection_credit_available
  pub reported :
      is_unique (expected_kinds c.expected_minimum_findings) ≡ true
      → AllCount c.expected_minimum_findings
      → b.exact_true_positives + b.partial_true_positives ≤ b.reported_supported_findings

credit-le :
    (exact partial missed n full half : ℕ)
    → exact + partial + missed ≡ n + 0
    → half ≤ full
    → exact * full + partial * half ≤ n * full
credit-le exact partial missed n full half same h =
    let all_full : exact + partial + missed ≡ n = omega (arith, same) in
    subst (λ m. exact * full + partial * half ≤ m * full) all_full
      (omega (arith, mul-le-mul_left partial h))

score_values-IsBounded :
    (c : BenchmarkCase) (r : ArchitectureResult) → IsBounded c (score_values c r)
unfolding score_values no_tally
score_values-IsBounded c r =
    let findings = r.final_output.findings in
    let expected = c.expected_minimum_findings in
    let t =
      tally_all-IsTally c.scoring_rubric findings expected 0 no_tally
        (record { accounted = refl; critical = omega arith; credit = omega arith }) in
    record {
      accounted = omega (arith, t.accounted);
      critical = t.critical;
      references = count-le _ (references_of findings);
      checks = count-le _ (values r.final_output.reproducibility_checks);
      credit = λ h.
          subst (λ x. x ≤ length expected * c.scoring_rubric.exact_detection_credit) (sym t.credit)
            (credit-le _ _ _ _ _ _ t.accounted h);
      reported = λ unique supported. omega (
        arith,
        length-hits c.scoring_rubric findings expected no_tally,
        length-kinds (filter is_supported findings),
        length_of_subset (hits findings expected) (kinds (filter is_supported findings))
            (is_unique-hits findings expected unique) (is_subset-hits findings expected supported),
      );
    }

-- For a result of the same benchmark the score is made, its own validator accepts it, and its counts are bounded: exact, partial
-- and missed findings add up to the expected ones; detected critical findings, valid references and complete checks do not
-- exceed their totals; the earned credit does not exceed the available one where a concern earns no more than an exact
-- finding; detected findings do not exceed the reported ones where the expected kinds are distinct and count as findings.
pub score_case_total :
    (sha : ScoreBody → String) (c : BenchmarkCase) (r : ArchitectureResult)
    → c.benchmark_id ≡ r.benchmark_id
    → (s : CaseScore) × (score_case sha c r ≡ ok s)
      × (s.body ≡ score_values c r)
      × IsBounded c s.body
unfolding score_case identified_score score_identity_is_exact
score_case_total sha c r same =
    let b = score_values-IsBounded c r in
    (
      record { body = score_values c r; semantic_sha256 = sha (score_values c r) },
      ground (
        arith,
        ≡→== c.benchmark_id r.benchmark_id same,
        b.accounted,
        b.critical,
        ≡→== (sha (score_values c r)) (sha (score_values c r)) refl,
      ),
      refl,
      b,
    )
