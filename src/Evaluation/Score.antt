-- ===== src/Evaluation/Score.antt =====
-- `CaseScore`, `MetricValue` and `ArchitectureMetrics` of src/quantforge/evaluation/models.py. The
-- score without its hash is `ScoreBody`. Python's decimal arithmetic, which rounds to the precision of its context, is
-- the parameter `DecimalContext`.
use quantforge_ai.Common.{
  ℕ, ◌+◌, Bool, not, ◌&&◌, String, Option, none, some, value_error, Result, ok, raise_if, ◌>>◌,
  if◌then◌else◌, ◌==◌, Eq, nat_eq, string_eq, eqb, ltb,
}
use quantforge_ai.Domain.Decimal.{Decimal, Decimal-discrete}
use quantforge_ai.Evaluation.Kinds.{EvaluationArchitecture}

pub record ScoreBody : Type 0 where
  pub benchmark_id : String
  pub architecture : EvaluationArchitecture
  pub expected_finding_count : ℕ
  pub exact_true_positives : ℕ
  pub partial_true_positives : ℕ
  pub false_negatives : ℕ
  pub reported_supported_findings : ℕ
  pub unsupported_speculation_count : ℕ
  pub clean_false_positive : Bool
  pub critical_expected : ℕ
  pub critical_detected : ℕ
  pub evidence_references_valid : ℕ
  pub evidence_references_total : ℕ
  pub unsupported_claim_accepted : Bool
  pub fabricated_evidence_accepted : Bool
  pub reproducibility_checks_complete : ℕ
  pub reproducibility_checks_total : ℕ
  pub detection_credit_earned : ℕ
  pub detection_credit_available : ℕ

pub record CaseScore : Type 0 where
  pub body : ScoreBody
  pub semantic_sha256 : String

unfoldable pub score_identity_is_exact : (ScoreBody → String) → CaseScore → Result (Unit {0})
score_identity_is_exact sha s = do
  let b = s.body
  raise_if
      (not (
        eqb (b.exact_true_positives + b.partial_true_positives + b.false_negatives)
          b.expected_finding_count))
      (value_error "case detection accounting is incomplete")
  raise_if (ltb b.critical_expected b.critical_detected)
      (value_error "critical detection count exceeds expected critical defects")
  raise_if (not (s.semantic_sha256 == sha b)) (value_error "case score semantic hash mismatch")

-- `identified(CaseScore, values)`
unfoldable pub identified_score : (ScoreBody → String) → ScoreBody → Result CaseScore
unfolding score_identity_is_exact
identified_score sha b = do
  let s : CaseScore = record { body = b; semantic_sha256 = sha b }
  score_identity_is_exact sha s
  ok s

-- `Decimal(n)`, and `+`, `*` and `/` of decimals, the last for a divisor that is not zero
pub record DecimalContext : Type 0 where
  pub from_int : ℕ → Decimal
  pub add : Decimal → Decimal → Decimal
  pub multiply : Decimal → Decimal → Decimal
  pub divide : Decimal → Decimal → Decimal

pub record MetricValue : Type 0 where
  pub numerator : ℕ
  pub denominator : ℕ
  pub value : Option Decimal

unfoldable pub OptionDecimal-discrete : Discrete (Option Decimal)
OptionDecimal-discrete = hlevel Decimal-discrete

instance abbrev pub option_decimal_eq : Eq (Option Decimal)
option_decimal_eq = record { dec = OptionDecimal-discrete }

-- `None if denominator == 0 else Decimal(numerator) / Decimal(denominator)`
abbrev pub quotient : DecimalContext → ℕ → ℕ → Option Decimal
quotient c n d = if eqb d 0 then none else some (c.divide (c.from_int n) (c.from_int d))

unfoldable pub ratio_is_exact : DecimalContext → MetricValue → Result (Unit {0})
ratio_is_exact c m = do
  raise_if (ltb m.denominator m.numerator && not (eqb m.denominator 0))
      (value_error "bounded metric numerator exceeds denominator")
  raise_if (not (m.value == quotient c m.numerator m.denominator))
      (value_error "metric value does not match its exact ratio")

pub record ArchitectureMetrics : Type 0 where
  pub architecture : EvaluationArchitecture
  pub defect_true_positive_rate : MetricValue
  pub defect_false_negative_rate : MetricValue
  pub clean_case_false_positive_rate : MetricValue
  pub precision : MetricValue
  pub recall : MetricValue
  pub f1 : Option Decimal
  pub critical_defect_detection_rate : MetricValue
  pub unsupported_claim_acceptance_rate : MetricValue
  pub fabricated_evidence_acceptance_rate : MetricValue
  pub evidence_reference_precision : MetricValue
  pub authority_violation_attempt_rate : MetricValue
  pub authority_violation_success_rate : MetricValue
  pub verdict_upgrade_success_rate : MetricValue
  pub constitution_mutation_success_rate : MetricValue
  pub cross_case_acceptance_rate : MetricValue
  pub cross_revision_acceptance_rate : MetricValue
  pub replay_induced_duplicate_transition_rate : MetricValue
  pub reproducibility_completeness_score : MetricValue
  pub deterministic_semantic_consistency : MetricValue
  pub schema_valid_output_rate : MetricValue
  pub refusal_rate : MetricValue
  pub failure_rate : MetricValue
