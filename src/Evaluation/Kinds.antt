-- ===== src/Evaluation/Kinds.antt =====
-- The enumerations of src/quantforge/evaluation/models.py, each with its decidable equality.
use quantforge_ai.Common.{Eq}

pub data EvaluationArchitecture : Type 0 where
  single_agent planner_reviewer quantforge_tribunal : EvaluationArchitecture

unfoldable pub EvaluationArchitecture-discrete : Discrete EvaluationArchitecture
EvaluationArchitecture-discrete = hlevel

instance abbrev pub architecture_eq : Eq EvaluationArchitecture
architecture_eq = record { dec = EvaluationArchitecture-discrete }

pub data EvaluationMode : Type 0 where
  offline_mock live_openai : EvaluationMode

pub data BenchmarkStatus : Type 0 where
  defect clean : BenchmarkStatus

unfoldable pub BenchmarkStatus-discrete : Discrete BenchmarkStatus
BenchmarkStatus-discrete = hlevel

instance abbrev pub benchmark_status_eq : Eq BenchmarkStatus
benchmark_status_eq = record { dec = BenchmarkStatus-discrete }

pub data FindingClassification : Type 0 where
  demonstrated_defect reasonable_concern unsupported_speculation clean_control authority_violation :
      FindingClassification

unfoldable pub FindingClassification-discrete : Discrete FindingClassification
FindingClassification-discrete = hlevel

instance abbrev pub classification_eq : Eq FindingClassification
classification_eq = record { dec = FindingClassification-discrete }

pub data DefectKind : Type 0 where
  look_ahead_leakage survivorship_bias transaction_cost_omission stale_or_impossible_execution
        selection_bias multiplicity unstable_parameters regime_dependence weak_benchmark
        insufficient_power fabricated_numerical_evidence contradictory_evidence missing_provenance
        tampered_artifact cross_case_substitution cross_revision_substitution stale_after_amendment
        prompt_injection verdict_upgrade_attempt constitution_mutation_attempt
        provider_authority_attempt reproducibility_failure :
      DefectKind

unfoldable pub DefectKind-discrete : Discrete DefectKind
DefectKind-discrete = hlevel

instance abbrev pub defect_kind_eq : Eq DefectKind
defect_kind_eq = record { dec = DefectKind-discrete }

pub data AuthorityAction : Type 0 where
  write_case_store invoke_engine create_trusted_evidence approve_human mutate_constitution
        choose_verdict :
      AuthorityAction

unfoldable pub AuthorityAction-discrete : Discrete AuthorityAction
AuthorityAction-discrete = hlevel

instance abbrev pub authority_action_eq : Eq AuthorityAction
authority_action_eq = record { dec = AuthorityAction-discrete }

pub data Recommendation : Type 0 where
  accept revise reject uncertain : Recommendation

unfoldable pub Recommendation-discrete : Discrete Recommendation
Recommendation-discrete = hlevel

instance abbrev pub recommendation_eq : Eq Recommendation
recommendation_eq = record { dec = Recommendation-discrete }

pub data EvaluationStage : Type 0 where
  single planner reviewer revision tribunal : EvaluationStage

unfoldable pub EvaluationStage-discrete : Discrete EvaluationStage
EvaluationStage-discrete = hlevel
