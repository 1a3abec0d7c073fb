-- ===== src/Evaluation/Scoring/Tallies.antt =====
-- The counters of the loop of `score_case` (src/quantforge/evaluation/scoring.py).
use quantforge_ai.Common.{
  ℕ, suc, ◌+◌, ◌*◌, ◌≤◌, ◌≡◌, subst, inl, inr, List, [], ◌∷◌, is_some, length, Bool-cases,
  string_eq, arith,
}
use quantforge_ai.Evaluation.Kinds.{FindingClassification, classification_eq, defect_kind_eq}
use quantforge_ai.Evaluation.Benchmark.{FindingExpectation, ScoringRubric}
use quantforge_ai.Evaluation.Response.{EvaluationFinding}
use quantforge_ai.Evaluation.Scoring.{
  filter, first, Tally, has_kind, has_class, tally_one, tally_all,
}

-- What the counters say after `n` expected findings
pub record IsTally (rubric : ScoringRubric) (n : ℕ) (t : Tally) : Type 0 where
  pub accounted : t.exact + t.partial + t.missed ≡ n
  pub critical : t.critical_detected ≤ t.critical_expected
  pub credit :
      t.earned
      ≡ t.exact * rubric.exact_detection_credit + t.partial * rubric.reasonable_concern_credit

tally_one-IsTally :
    (rubric : ScoringRubric) (findings : List EvaluationFinding) (e : FindingExpectation) (n : ℕ)
    (t : Tally)
    → IsTally rubric n t
    → IsTally rubric (suc n) (tally_one rubric findings e t)
unfolding tally_one
tally_one-IsTally rubric findings e n t h =
    elim (Bool-cases
      (is_some (first (has_class e.classification) (filter (has_kind e.defect_kind) findings)))) [
        | inl exact ↦ rw exact (record {
          accounted = omega (arith, h.accounted);
          critical = ground (arith, h.critical);
          credit = omega (arith, h.credit);
        })
        | inr other ↦
            elim (Bool-cases (
              is_some (
                first (has_class FindingClassification.reasonable_concern)
                  (filter (has_kind e.defect_kind) findings)))) [
                    | inl concern ↦
                        rw (other, concern)
                          (record {
                            accounted = omega (arith, h.accounted);
                            critical = ground (arith, h.critical);
                            credit = omega (arith, h.credit);
                          })
                    | inr none' ↦
                        rw (other, none')
                          (record {
                            accounted = omega (arith, h.accounted);
                            critical = ground (arith, h.critical);
                            credit = h.credit;
                          })
                  ]
      ]

pub tally_all-IsTally :
    (rubric : ScoringRubric) (findings : List EvaluationFinding) (es : List FindingExpectation)
    (n : ℕ) (t : Tally)
    → IsTally rubric n t
    → IsTally rubric (length es + n) (tally_all rubric findings es t)
unfolding tally_all
tally_all-IsTally rubric findings [] n t h = subst (λ m. IsTally rubric m t) (omega arith) h
tally_all-IsTally rubric findings (e ∷ es) n t h =
    subst (λ m. IsTally rubric m (tally_all rubric findings es (tally_one rubric findings e t)))
      (omega arith)
      (tally_all-IsTally rubric findings es (suc n) (tally_one rubric findings e t)
        (tally_one-IsTally rubric findings e n t h))
