-- ===== src/Roles/Texts.antt =====
-- The texts of a role's output, field by field, and the test that `_reject_authority_claims` of
-- src/quantforge/roles/validation.py makes of each of them.
use quantforge_ai.Common.{String, List, [], ◌∷◌, ◌++◌, All, All-map}
use quantforge_ai.Domain.Proposal.{
  ExperimentProposal, MetricDefinition, DataRequirement, ExecutionAssumption, BenchmarkDefinition,
  FailureCriterion,
}
use quantforge_ai.Domain.Reviews.{EvidenceReference, ReviewerFinding, AdversarialChallenge}
use quantforge_ai.Roles.Output.{
  RoleOutput, collect, reference_strings, finding_strings, challenge_strings, proposal_strings,
  strings,
}

module _ {ℓ} (P : String → Type ℓ) where
  abbrev pub InReference : EvidenceReference → Type ℓ
  InReference r = P r.evidence_id × All P r.numeric_fact_ids

  abbrev pub InFinding : ReviewerFinding → Type ℓ
  InFinding f = P f.finding_id × P f.summary × All InReference f.evidence_references

  abbrev pub InChallenge : AdversarialChallenge → Type ℓ
  InChallenge c = P c.challenge_id × P c.description × All InReference c.evidence_references

  abbrev pub InMetric : MetricDefinition → Type ℓ
  InMetric m = P m.metric_id × P m.name × P m.calculation

  abbrev pub InRequirement : DataRequirement → Type ℓ
  InRequirement d = P d.requirement_id × P d.description

  abbrev pub InAssumption : ExecutionAssumption → Type ℓ
  InAssumption a = P a.assumption_id × P a.description × P a.starting_capital.currency

  abbrev pub InBenchmark : BenchmarkDefinition → Type ℓ
  InBenchmark b = P b.benchmark_id × P b.name × P b.parity_rule

  abbrev pub InCriterion : FailureCriterion → Type ℓ
  InCriterion f = P f.criterion_id × P f.description

  pub record InProposal (x : ExperimentProposal) : Type ℓ where
    pub experiment_id : P x.experiment_id
    pub claim_id : P x.claim_id
    pub primary_id : P x.primary_hypothesis.hypothesis_id
    pub primary : P x.primary_hypothesis.statement
    pub null_id : P x.null_hypothesis.hypothesis_id
    pub null : P x.null_hypothesis.statement
    pub metrics : All InMetric x.metrics
    pub data_requirements : All InRequirement x.data_requirements
    pub execution_assumptions : All InAssumption x.execution_assumptions
    pub benchmarks : All InBenchmark x.benchmarks
    pub periods : All P x.periods
    pub exclusions : All P x.exclusions
    pub failure_criteria : All InCriterion x.failure_criteria

  -- The predicate holds of each text of the output.
  abbrev pub InOutput : RoleOutput → Type ℓ
  InOutput (RoleOutput.proposal x) = InProposal x
  InOutput (RoleOutput.methodology x) = P x.review_id × P x.experiment_id × All InFinding x.findings
  InOutput (RoleOutput.statistical x) =
      P x.review_id × All InFinding x.findings × All P x.sample_limitations
  InOutput (RoleOutput.adversarial x) =
      P x.review_id × All InChallenge x.challenges × All InFinding x.findings
  InOutput (RoleOutput.reproducibility x) =
      P x.review_id × P x.reconstruction_status × All InFinding x.findings
  InOutput (RoleOutput.explanation x) =
      P x.explanation_id
      × P x.summary
      × All InReference x.decisive_evidence
      × All InReference x.contradictory_evidence
      × All P x.limitations
      × All P x.verdict_change_conditions

  All-parts : (xs ys : List String) → All P (xs ++ ys) → All P xs × All P ys
  All-parts [] ys h = (tt, h)
  All-parts (x ∷ xs) ys (here, h) = let (front, back) = All-parts xs ys h in ((here, front), back)

  collect-All {κ} :
      {A : Type κ} (f : A → List String) (xs : List A)
      → All P (collect f xs)
      → All (λ x. All P (f x)) xs
  unfolding collect
  collect-All f [] h = tt
  collect-All f (x ∷ xs) h =
      let (here, there) = All-parts (f x) (collect f xs) h in (here, collect-All f xs there)

  references-In :
      (rs : List EvidenceReference) → All P (collect reference_strings rs) → All InReference rs
  references-In rs h = collect-All reference_strings rs h

  findings-In : (fs : List ReviewerFinding) → All P (collect finding_strings fs) → All InFinding fs
  unfolding finding_strings
  findings-In fs h =
      All-map {Q = InFinding}
        (λ f (k : All P (finding_strings f)).
          (k.0, k.1.0, references-In f.evidence_references k.1.1))
        fs (collect-All finding_strings fs h)

  challenges-In :
      (cs : List AdversarialChallenge) → All P (collect challenge_strings cs) → All InChallenge cs
  unfolding challenge_strings
  challenges-In cs h =
      All-map {Q = InChallenge}
        (λ c (k : All P (challenge_strings c)).
          (k.0, k.1.0, references-In c.evidence_references k.1.1))
        cs (collect-All challenge_strings cs h)

  proposal-In : (x : ExperimentProposal) → All P (proposal_strings x) → InProposal x
  unfolding proposal_strings
  proposal-In x (a, (b, (c, (d, (e, (f, h)))))) =
      let (metrics, h1) = All-parts _ _ h in
      let (requirements, h2) = All-parts _ _ h1 in
      let (assumptions, h3) = All-parts _ _ h2 in
      let (benchmarks, h4) = All-parts _ _ h3 in
      let (periods, h5) = All-parts x.periods _ h4 in
      let (exclusions, criteria) = All-parts x.exclusions _ h5 in
      record {
        experiment_id = a;
        claim_id = b;
        primary_id = c;
        primary = d;
        null_id = e;
        null = f;
        metrics =
            All-map {Q = InMetric}
              (λ m (k : All P (m.metric_id ∷ m.name ∷ m.calculation ∷ [])). (k.0, k.1.0, k.1.1.0))
              x.metrics
              (collect-All (λ (m : MetricDefinition). m.metric_id ∷ m.name ∷ m.calculation ∷ [])
                x.metrics metrics);
        data_requirements =
            All-map {Q = InRequirement}
              (λ d (k : All P (d.requirement_id ∷ d.description ∷ [])). (k.0, k.1.0))
              x.data_requirements
              (collect-All (λ (d : DataRequirement). d.requirement_id ∷ d.description ∷ [])
                x.data_requirements requirements);
        execution_assumptions =
            All-map {Q = InAssumption}
              (λ a (k : All P (a.assumption_id ∷ a.description ∷ a.starting_capital.currency ∷ [])).
                (k.0, k.1.0, k.1.1.0))
              x.execution_assumptions
              (collect-All
                (λ (a : ExecutionAssumption).
                  a.assumption_id ∷ a.description ∷ a.starting_capital.currency ∷ [])
                x.execution_assumptions assumptions);
        benchmarks =
            All-map {Q = InBenchmark}
              (λ b (k : All P (b.benchmark_id ∷ b.name ∷ b.parity_rule ∷ [])).
                (k.0, k.1.0, k.1.1.0))
              x.benchmarks
              (collect-All
                (λ (b : BenchmarkDefinition). b.benchmark_id ∷ b.name ∷ b.parity_rule ∷ [])
                x.benchmarks benchmarks);
        periods = periods;
        exclusions = exclusions;
        failure_criteria =
            All-map {Q = InCriterion}
              (λ f (k : All P (f.criterion_id ∷ f.description ∷ [])). (k.0, k.1.0))
              x.failure_criteria
              (collect-All (λ (f : FailureCriterion). f.criterion_id ∷ f.description ∷ [])
                x.failure_criteria criteria);
      }

  pub strings-In : (o : RoleOutput) → All P (strings o) → InOutput o
  unfolding strings
  strings-In (RoleOutput.proposal x) h = proposal-In x h
  strings-In (RoleOutput.methodology x) (a, (b, h)) = (a, b, findings-In x.findings h)
  strings-In (RoleOutput.statistical x) (a, h) =
      let (findings, limitations) = All-parts _ x.sample_limitations h in
      (a, findings-In x.findings findings, limitations)
  strings-In (RoleOutput.adversarial x) (a, h) =
      let (challenges, findings) = All-parts _ _ h in
      (a, challenges-In x.challenges challenges, findings-In x.findings findings)
  strings-In (RoleOutput.reproducibility x) (a, (b, h)) = (a, b, findings-In x.findings h)
  strings-In (RoleOutput.explanation x) (a, (b, h)) =
      let (decisive, h1) = All-parts _ _ h in
      let (contradictory, h2) = All-parts _ _ h1 in
      let (limitations, conditions) = All-parts x.limitations x.verdict_change_conditions h2 in
      (
        a,
        b,
        references-In x.decisive_evidence decisive,
        references-In x.contradictory_evidence contradictory,
        limitations,
        conditions,
      )
