-- ===== src/Tests/Samples.antt =====
-- A small case from the claim to the Chair, for the examples: every model of
-- src/quantforge/domain/models.py that the case holds, with one item of evidence. The digests and
-- the parsers from outside are simple functions here.
use quantforge_ai.Common.{ℕ, true, false, [], ◌∷◌, none, some, ok, if◌then◌else◌, ◌==◌, string_eq}
use quantforge_ai.Domain.Enums.{
  RoleName, ReviewDecision, ValidationStatus, EvidenceRelationship, AmendmentClassification,
  ChallengeType, ChallengeStatus, ReproducibilityStatus, GateStatus, Sensitivity, Stability,
  Verdict, CorrectedInference, ExpectedDirection, EffectDirection, MeasureUnit,
}
use quantforge_ai.Domain.Decimal.{Decimal, Exponent}
use quantforge_ai.Domain.Json.{JsonValue, JsonFields}
use quantforge_ai.Domain.Proposal.{ResearchClaim, ExperimentProposal}
use quantforge_ai.Domain.Constitution.{HumanApproval, ExperimentConstitution, ConstitutionAmendment}
use quantforge_ai.Domain.Evidence.{EvidenceObject}
use quantforge_ai.Domain.Reviews.{
  EvidenceReference, MethodologyReview, StatisticalReview, AdversarialReview, ReproducibilityReview,
  VerdictEligibility, ChairExplanation,
}
use quantforge_ai.Domain.Platform.{Platform}
use quantforge_ai.Verdict.{VerdictInputs}
use quantforge_ai.Evidence.Ledger.{EvidenceLedgerSnapshot}
use quantforge_ai.Audit.Event.{AuditPlatform}

abbrev pub platform : Platform
platform = record {
  from_iso_format = λ s.
      if s == "2020-01-01" then some 737425 else if s == "2021-01-01" then some 737791 else none;
  casefold = λ s. s;
  sha_proposal = λ x. x.experiment_id;
  sha_constitution = λ b. b.constitution_id;
  sha_amendment = λ b. b.amendment_id;
  sha_content = λ fields. "content";
}

abbrev pub audit_platform : AuditPlatform
audit_platform = record {
  domain = platform;
  sha_payload = λ x. "payload";
  sha_event = λ b. b.action;
  normalize_payload = λ x. ok x;
  validate_payload = λ x. ok x;
}

abbrev pub claim : ResearchClaim
claim = record {
  claim_id = "claim_1";
  statement = "momentum persists";
  submitted_by = "analyst";
  submitted_at = 10;
  scope = record {
    asset_classes = "equity" ∷ [];
    universe = "large caps" ∷ [];
    start_date = "2020-01-01";
    end_date = "2021-01-01";
  };
}

abbrev amount : ℕ → Decimal
amount n = record { negative = false; coefficient = n; exponent = Exponent.up 0 }

abbrev pub proposal : ExperimentProposal
proposal = record {
  experiment_id = "experiment_1";
  claim_id = "claim_1";
  primary_hypothesis = record {
    hypothesis_id = "h1";
    statement = "returns are higher";
    expected_direction = ExpectedDirection.positive;
  };
  null_hypothesis = record { hypothesis_id = "h0"; statement = "returns are equal" };
  metrics =
      record {
        metric_id = "m1";
        name = "excess return";
        unit = MeasureUnit.percent;
        calculation = "difference of means";
        primary = true;
      }
      ∷ [];
  data_requirements =
      record {
        requirement_id = "d1";
        description = "daily prices";
        lineage_required = true;
        synthetic_allowed = true;
      }
      ∷ [];
  execution_assumptions =
      record {
        assumption_id = "a1";
        description = "fills at close";
        commission = record { value = amount 1; unit = MeasureUnit.basis_points };
        slippage = record { value = amount 1; unit = MeasureUnit.basis_points };
        starting_capital = record {
          amount = record { negative = false; coefficient = 1; exponent = Exponent.up 3 };
          currency = "USD";
        };
      }
      ∷ [];
  benchmarks = record { benchmark_id = "b1"; name = "index"; parity_rule = "same dates" } ∷ [];
  periods = "sample" ∷ [];
  exclusions = [];
  failure_criteria =
      record { criterion_id = "f1"; description = "no effect"; decisive = true } ∷ [];
  proposed_at = 15;
}

abbrev pub methodology : MethodologyReview
methodology = record {
  review_id = "methodology_1";
  experiment_id = "experiment_1";
  decision = ReviewDecision.approved;
  causality_checked = true;
  leakage_checked = true;
  benchmark_parity_checked = true;
  execution_assumptions_checked = true;
  multiple_testing_checked = true;
  evaluable = true;
  findings = [];
  reviewed_at = 25;
}

abbrev pub approval : HumanApproval
approval = record {
  approval_id = "approval_1";
  experiment_id = "experiment_1";
  approved = true;
  approver = "lead";
  approved_at = 35;
  proposal_hash = "experiment_1";
}

abbrev pub constitution : ExperimentConstitution
constitution = record {
  body = record {
    constitution_id = "constitution_1";
    experiment_id = "experiment_1";
    proposal = proposal;
    human_approval = approval;
    locked_at = 45;
  };
  constitution_hash = "constitution_1";
}

abbrev pub amendment : ConstitutionAmendment
amendment = record {
  body = record {
    amendment_id = "amendment_1";
    classification = AmendmentClassification.exploratory;
    author_role = RoleName.researcher;
    reason = "a second look";
    changes = JsonFields.field "exploratory.window" (JsonValue.text "longer") JsonFields.end;
    created_at = 46;
    parent_constitution_hash = "constitution_1";
  };
  amendment_hash = "amendment_1";
}

abbrev pub evidence : EvidenceObject
evidence = record {
  evidence_id = "evidence_1";
  evidence_type = "backtest";
  case_id = "case_1";
  claim_ids = "claim_1" ∷ [];
  experiment_id = "experiment_1";
  constitution_hash = "constitution_1";
  source_adapter = "mock";
  source_artifact = "run.json";
  source_artifact_sha256 = "artifact";
  structured_location = none;
  content_sha256 = "content";
  created_at = 55;
  validation_status = ValidationStatus.validated;
  validation_method = "recomputed";
  content =
      JsonFields.field "facts"
        (JsonValue.object (JsonFields.field "fact_1" (JsonValue.text "12") JsonFields.end))
        JsonFields.end;
  numeric_facts =
      record {
        fact_id = "fact_1";
        name = "excess return";
        value = amount 12;
        unit = MeasureUnit.percent;
      }
      ∷ [];
  units = MeasureUnit.percent ∷ [];
  assumptions = [];
  limitations = [];
  relationship = EvidenceRelationship.supports;
  provenance = JsonFields.end;
}

abbrev pub snapshot : EvidenceLedgerSnapshot
snapshot = record {
  case_id = "case_1";
  experiment_id = "experiment_1";
  constitution_hash = "constitution_1";
  evidence = evidence ∷ [];
}

abbrev pub reference : EvidenceReference
reference = record { evidence_id = "evidence_1"; numeric_fact_ids = "fact_1" ∷ [] }

abbrev pub statistical : StatisticalReview
statistical = record {
  review_id = "statistics_1";
  effect_direction = EffectDirection.positive;
  corrected_inference = CorrectedInference.pass;
  practical_significance = true;
  findings = [];
  sample_limitations = [];
  reviewed_at = 65;
}

abbrev pub adversarial : AdversarialReview
adversarial = record {
  review_id = "adversarial_1";
  challenges =
      record {
        challenge_id = "challenge_1";
        challenge_type = ChallengeType.cost;
        description = "higher fees";
        status = ChallengeStatus.passed;
        evidence_references = [];
      }
      ∷ [];
  robustness_status = GateStatus.pass;
  cost_sensitivity = Sensitivity.low;
  parameter_stability = Stability.stable;
  regime_stability = Stability.stable;
  concentration_risk = Sensitivity.low;
  findings = [];
  reviewed_at = 75;
}

abbrev pub reproducibility : ReproducibilityReview
reproducibility = record {
  review_id = "reproducibility_1";
  status = ReproducibilityStatus.verified;
  configuration_verified = true;
  manifests_verified = true;
  hashes_verified = true;
  software_identity_verified = true;
  data_lineage_verified = true;
  evidence_complete = true;
  reconstruction_status = "rebuilt";
  findings = [];
  reviewed_at = 95;
}

abbrev pub inputs : VerdictInputs
inputs = record {
  methodology_status = ReviewDecision.approved;
  primary_experiment_complete = true;
  evidence_validation_statuses = ValidationStatus.validated ∷ [];
  corrected_inference = CorrectedInference.pass;
  expected_direction = ExpectedDirection.positive;
  effect_direction = EffectDirection.positive;
  practical_significance = true;
  robustness_status = GateStatus.pass;
  cost_sensitivity = Sensitivity.low;
  parameter_stability = Stability.stable;
  regime_stability = Stability.stable;
  concentration_risk = Sensitivity.low;
  reproducibility_status = ReproducibilityStatus.verified;
  unresolved_critical_findings = false;
  contradictory_evidence = [];
  unresolved_noncritical_limitations = false;
  decisive_evidence = reference ∷ [];
  provider_semantic_hashes = [];
}

abbrev pub eligibility : VerdictEligibility
eligibility = record {
  eligibility_id = "eligibility_1";
  verdict = Verdict.supported;
  decisive_reasons =
      "all strict methodology, evidence, inference, robustness, and replication gates pass" ∷ [];
  decisive_evidence = reference ∷ [];
  contradictory_evidence = [];
  computed_at = 105;
}

abbrev pub explanation : ChairExplanation
explanation = record {
  explanation_id = "explanation_1";
  computed_verdict = Verdict.supported;
  summary = "the claim stands";
  decisive_evidence = reference ∷ [];
  contradictory_evidence = [];
  limitations = [];
  verdict_change_conditions = "a failed replication" ∷ [];
  created_at = 115;
}
