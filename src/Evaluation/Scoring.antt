-- ===== src/Evaluation/Scoring.antt =====
-- `score_case` of src/quantforge/evaluation/scoring.py.
pub mod Tallies
pub mod Hits
pub mod Bounds
use quantforge_ai.Common.{
  ℕ, zero, suc, ◌+◌, ◌*◌, Bool, true, false, not, ◌&&◌, ◌||◌, String, List, [], ◌∷◌, ◌++◌, Option,
  none, some, value_error, Result, raise_if, ◌>>◌, if◌then◌else◌, ◌==◌, any, contains, is_some,
  is_empty, length, string_eq,
}
use quantforge_ai.Common.Counting.{count}
use quantforge_ai.Common.Dictionary.{values}
use quantforge_ai.Evaluation.Kinds.{
  BenchmarkStatus, benchmark_status_eq, FindingClassification, classification_eq, DefectKind,
  defect_kind_eq, Recommendation, recommendation_eq,
}
use quantforge_ai.Evaluation.Benchmark.{
  BenchmarkCase, FindingExpectation, ScoringRubric, evidence_ids,
}
use quantforge_ai.Evaluation.Response.{
  EvaluationFinding, EvaluationProviderOutput, ArchitectureResult,
}
use quantforge_ai.Evaluation.Score.{ScoreBody, CaseScore, identified_score}

-- `tuple(x for x in xs if p(x))`
unfoldable pub filter : {A : Type 0} → (A → Bool) → List A → List A
filter p [] = []
filter p (x ∷ xs) = if p x then x ∷ filter p xs else filter p xs

-- `next((x for x in xs if p(x)), None)`
unfoldable pub first : {A : Type 0} → (A → Bool) → List A → Option A
first p [] = none
first p (x ∷ xs) = if p x then some x else first p xs

-- The local variables that the loop over the expected findings counts with
pub record Tally : Type 0 where
  pub exact : ℕ
  pub partial : ℕ
  pub missed : ℕ
  pub critical_expected : ℕ
  pub critical_detected : ℕ
  pub earned : ℕ

unfoldable pub no_tally : Tally
no_tally = record {
  exact = 0;
  partial = 0;
  missed = 0;
  critical_expected = 0;
  critical_detected = 0;
  earned = 0;
}

-- `int(b)`
abbrev pub int : Bool → ℕ
int b = if b then 1 else 0

abbrev pub has_kind : DefectKind → EvaluationFinding → Bool
has_kind k f = f.defect_kind == k

abbrev pub has_class : FindingClassification → EvaluationFinding → Bool
has_class c f = f.classification == c

-- The body of the loop over the expected findings
unfoldable pub tally_one :
    ScoringRubric → List EvaluationFinding → FindingExpectation → Tally → Tally
unfolding filter first
tally_one rubric findings expected t =
    let candidates = filter (has_kind expected.defect_kind) findings in
    let exact_match = first (has_class expected.classification) candidates in
    let concern = first (has_class FindingClassification.reasonable_concern) candidates in
    let t = record t { critical_expected = t.critical_expected + int expected.critical } in
    if is_some exact_match
    then record t {
      exact = t.exact + 1;
      earned = t.earned + rubric.exact_detection_credit;
      critical_detected = t.critical_detected + int expected.critical;
    }
    else (if is_some concern
        then record t {
          partial = t.partial + 1;
          earned = t.earned + rubric.reasonable_concern_credit;
          critical_detected = t.critical_detected + int expected.critical;
        }
        else record t { missed = t.missed + 1 })

unfoldable pub tally_all :
    ScoringRubric → List EvaluationFinding → List FindingExpectation → Tally → Tally
unfolding tally_one
tally_all rubric findings [] t = t
tally_all rubric findings (e ∷ es) t = tally_all rubric findings es (tally_one rubric findings e t)

-- The condition of `supported_findings`
abbrev pub is_supported : EvaluationFinding → Bool
is_supported f = not (
    f.classification == FindingClassification.unsupported_speculation
    || f.classification == FindingClassification.clean_control)

-- The evidence identifiers of all findings, one after another
unfoldable pub references_of : List EvaluationFinding → List String
references_of [] = []
references_of (f ∷ fs) = f.evidence_ids ++ references_of fs

abbrev pub expects_kind : DefectKind → BenchmarkCase → Bool
expects_kind k c = any (λ (e : FindingExpectation). e.defect_kind == k) c.expected_minimum_findings

-- The dictionary `values`
unfoldable pub score_values : BenchmarkCase → ArchitectureResult → ScoreBody
unfolding tally_all no_tally references_of
score_values c r =
    let findings = r.final_output.findings in
    let t = tally_all c.scoring_rubric findings c.expected_minimum_findings no_tally in
    let supported_findings = filter is_supported findings in
    let references = references_of findings in
    let checks = values r.final_output.reproducibility_checks in
    let accepted = r.final_output.recommendation == Recommendation.accept in
    record {
      benchmark_id = c.benchmark_id;
      architecture = r.architecture;
      expected_finding_count = length c.expected_minimum_findings;
      exact_true_positives = t.exact;
      partial_true_positives = t.partial;
      false_negatives = t.missed;
      reported_supported_findings = length supported_findings;
      unsupported_speculation_count =
          count (has_class FindingClassification.unsupported_speculation) findings;
      clean_false_positive =
          c.expected_status == BenchmarkStatus.clean && not (is_empty supported_findings);
      critical_expected = t.critical_expected;
      critical_detected = t.critical_detected;
      evidence_references_valid = count (λ (id : String). contains id (evidence_ids c)) references;
      evidence_references_total = length references;
      unsupported_claim_accepted = c.expected_status == BenchmarkStatus.defect && accepted;
      fabricated_evidence_accepted =
          expects_kind DefectKind.fabricated_numerical_evidence c && accepted;
      reproducibility_checks_complete = count (λ (b : Bool). b) checks;
      reproducibility_checks_total = length checks;
      detection_credit_earned = t.earned;
      detection_credit_available =
          length c.expected_minimum_findings * c.scoring_rubric.exact_detection_credit;
    }

unfoldable pub score_case :
    (ScoreBody → String) → BenchmarkCase → ArchitectureResult → Result CaseScore
unfolding score_values
score_case sha c r =
    raise_if (not (c.benchmark_id == r.benchmark_id))
      (value_error "case scorer received a foreign architecture result")
    >> identified_score sha (score_values c r)
