-- ===== src/Domain/Proposal.antt =====
-- The claim and the experiment proposal of src/quantforge/domain/models.py. `ClaimScope.research_only`
-- is `Literal[True]` and is left out.
use quantforge_ai.Common.{ℕ, Bool, String, List, Eq, ℕ_discrete, String-discrete}
use quantforge_ai.Domain.Enums.{
  ExpectedDirection, ExpectedDirection-discrete, MeasureUnit, MeasureUnit-discrete,
}
use quantforge_ai.Domain.Decimal.{Rate, Rate-discrete, Money, Money-discrete}

pub record ClaimScope : Type 0 where
  pub asset_classes : List String
  pub universe : List String
  pub start_date : String
  pub end_date : String

unfoldable pub ClaimScope-discrete : Discrete ClaimScope
ClaimScope-discrete = hlevel String-discrete

pub record ResearchClaim : Type 0 where
  pub claim_id : String
  pub statement : String
  pub submitted_by : String
  pub submitted_at : ℕ
  pub scope : ClaimScope

unfoldable pub ResearchClaim-discrete : Discrete ResearchClaim
ResearchClaim-discrete = hlevel (String-discrete, ℕ_discrete, ClaimScope-discrete)

instance abbrev pub research_claim_eq : Eq ResearchClaim
research_claim_eq = record { dec = ResearchClaim-discrete }

pub record PrimaryHypothesis : Type 0 where
  pub hypothesis_id : String
  pub statement : String
  pub expected_direction : ExpectedDirection

unfoldable pub PrimaryHypothesis-discrete : Discrete PrimaryHypothesis
PrimaryHypothesis-discrete = hlevel (String-discrete, ExpectedDirection-discrete)

pub record NullHypothesis : Type 0 where
  pub hypothesis_id : String
  pub statement : String

unfoldable pub NullHypothesis-discrete : Discrete NullHypothesis
NullHypothesis-discrete = hlevel String-discrete

pub record MetricDefinition : Type 0 where
  pub metric_id : String
  pub name : String
  pub unit : MeasureUnit
  pub calculation : String
  pub primary : Bool

unfoldable pub MetricDefinition-discrete : Discrete MetricDefinition
MetricDefinition-discrete = hlevel (String-discrete, MeasureUnit-discrete)

pub record DataRequirement : Type 0 where
  pub requirement_id : String
  pub description : String
  pub lineage_required : Bool
  pub synthetic_allowed : Bool

unfoldable pub DataRequirement-discrete : Discrete DataRequirement
DataRequirement-discrete = hlevel String-discrete

pub record ExecutionAssumption : Type 0 where
  pub assumption_id : String
  pub description : String
  pub commission : Rate
  pub slippage : Rate
  pub starting_capital : Money

unfoldable pub ExecutionAssumption-discrete : Discrete ExecutionAssumption
ExecutionAssumption-discrete = hlevel (String-discrete, Rate-discrete, Money-discrete)

pub record BenchmarkDefinition : Type 0 where
  pub benchmark_id : String
  pub name : String
  pub parity_rule : String

unfoldable pub BenchmarkDefinition-discrete : Discrete BenchmarkDefinition
BenchmarkDefinition-discrete = hlevel String-discrete

pub record FailureCriterion : Type 0 where
  pub criterion_id : String
  pub description : String
  pub decisive : Bool

unfoldable pub FailureCriterion-discrete : Discrete FailureCriterion
FailureCriterion-discrete = hlevel String-discrete

pub record ExperimentProposal : Type 0 where
  pub experiment_id : String
  pub claim_id : String
  pub primary_hypothesis : PrimaryHypothesis
  pub null_hypothesis : NullHypothesis
  pub metrics : List MetricDefinition
  pub data_requirements : List DataRequirement
  pub execution_assumptions : List ExecutionAssumption
  pub benchmarks : List BenchmarkDefinition
  pub periods : List String
  pub exclusions : List String
  pub failure_criteria : List FailureCriterion
  pub proposed_at : ℕ

unfoldable pub ExperimentProposal-discrete : Discrete ExperimentProposal
ExperimentProposal-discrete = hlevel (
  String-discrete, PrimaryHypothesis-discrete, NullHypothesis-discrete, MetricDefinition-discrete,
  DataRequirement-discrete, ExecutionAssumption-discrete, BenchmarkDefinition-discrete,
  FailureCriterion-discrete, ℕ_discrete,
)

instance abbrev pub experiment_proposal_eq : Eq ExperimentProposal
experiment_proposal_eq = record { dec = ExperimentProposal-discrete }
