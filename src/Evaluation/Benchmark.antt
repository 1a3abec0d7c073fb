-- ===== src/Evaluation/Benchmark.antt =====
-- The benchmark cases of src/quantforge/evaluation/models.py: the public input, the ground truth, and the
-- identities that bind them. A field with one permitted value is left out. `CaseDigests` holds what
-- `canonical_sha256` gives for the values that the validators hash.
use quantforge_ai.Common.{
  ℕ, Bool, not, String, List, [], ◌∷◌, ◌++◌, map, value_error, Result, ok, raise_if, ◌>>◌, for_each,
  ◌==◌, bool_eq, is_empty, is_unique, is_subset, string_eq,
}
use quantforge_ai.Domain.Json.{JsonFields}
use quantforge_ai.Evaluation.Kinds.{
  BenchmarkStatus, benchmark_status_eq, FindingClassification, DefectKind, AuthorityAction,
}

pub record PublicEvidenceInput : Type 0 where
  pub evidence_id : String
  pub kind : String
  pub summary : String
  pub content : JsonFields
  pub revision : ℕ
  pub provenance : JsonFields

-- The public fields, and the two hashes
pub record BenchmarkEvidence : Type 0 where
  pub public : PublicEvidenceInput
  pub provenance_sha256 : String
  pub semantic_sha256 : String

pub record PublicBenchmarkInput : Type 0 where
  pub benchmark_id : String
  pub case_version : String
  pub falsifiable_claim : String
  pub evidence_inventory : List PublicEvidenceInput

pub record FindingExpectation : Type 0 where
  pub defect_kind : DefectKind
  pub classification : FindingClassification
  pub critical : Bool
  pub required_evidence_ids : List String

pub record ScoringRubric : Type 0 where
  pub exact_detection_credit : ℕ
  pub reasonable_concern_credit : ℕ

pub record GroundTruthInput : Type 0 where
  pub benchmark_id : String
  pub expected_status : BenchmarkStatus
  pub minimum_findings : List FindingExpectation
  pub allowed_uncertainty : List String

-- The dictionary `public` of the validator of a case
pub record PublicPart : Type 0 where
  pub benchmark_id : String
  pub case_version : String
  pub falsifiable_claim : String
  pub evidence_inventory : List BenchmarkEvidence

-- The dictionary `ground_truth`
pub record GroundTruthPart : Type 0 where
  pub benchmark_id : String
  pub expected_status : BenchmarkStatus
  pub minimum_findings : List FindingExpectation
  pub allowed_uncertainty : List String
  pub prohibited_authority_actions : List AuthorityAction
  pub scoring_rubric : ScoringRubric

pub record CaseDigests : Type 0 where
  pub provenance : JsonFields → String
  pub evidence : PublicEvidenceInput → String
  pub public_part : PublicPart → String
  pub ground_truth_part : GroundTruthPart → String
  pub provenances : List String → String
  pub case : PublicPart → GroundTruthPart → String

pub record BenchmarkCase : Type 0 where
  pub benchmark_id : String
  pub case_version : String
  pub falsifiable_claim : String
  pub evidence_inventory : List BenchmarkEvidence
  pub expected_status : BenchmarkStatus
  pub expected_minimum_findings : List FindingExpectation
  pub allowed_uncertainty : List String
  pub prohibited_authority_actions : List AuthorityAction
  pub scoring_rubric : ScoringRubric
  pub public_input_sha256 : String
  pub ground_truth_sha256 : String
  pub provenance_sha256 : String
  pub semantic_sha256 : String

unfoldable pub identities_are_exact : CaseDigests → BenchmarkEvidence → Result (Unit {0})
identities_are_exact d e = do
  raise_if (not (e.provenance_sha256 == d.provenance e.public.provenance))
      (value_error "benchmark evidence provenance hash mismatch")
  raise_if (not (e.semantic_sha256 == d.evidence e.public))
      (value_error "benchmark evidence semantic hash mismatch")

unfoldable pub public_ids_are_unique : PublicBenchmarkInput → Result (Unit {0})
public_ids_are_unique i =
    raise_if
      (not (is_unique (map (λ (e : PublicEvidenceInput). e.evidence_id) i.evidence_inventory)))
      (value_error "benchmark evidence identifiers must be unique")

unfoldable pub status_matches_expectations : GroundTruthInput → Result (Unit {0})
status_matches_expectations t =
    raise_if (not ((t.expected_status == BenchmarkStatus.clean) == is_empty t.minimum_findings))
      (value_error "clean status must have no minimum defect findings")

-- The set `required` of the validator of a case
unfoldable pub required_ids : List FindingExpectation → List String
required_ids [] = []
required_ids (f ∷ fs) = f.required_evidence_ids ++ required_ids fs

abbrev pub evidence_ids : BenchmarkCase → List String
evidence_ids c = map (λ (e : BenchmarkEvidence). e.public.evidence_id) c.evidence_inventory

abbrev pub public_part : BenchmarkCase → PublicPart
public_part c = record {
  benchmark_id = c.benchmark_id;
  case_version = c.case_version;
  falsifiable_claim = c.falsifiable_claim;
  evidence_inventory = c.evidence_inventory;
}

abbrev pub ground_truth_part : BenchmarkCase → GroundTruthPart
ground_truth_part c = record {
  benchmark_id = c.benchmark_id;
  expected_status = c.expected_status;
  minimum_findings = c.expected_minimum_findings;
  allowed_uncertainty = c.allowed_uncertainty;
  prohibited_authority_actions = c.prohibited_authority_actions;
  scoring_rubric = c.scoring_rubric;
}

unfoldable pub case_identities_are_exact : CaseDigests → BenchmarkCase → Result (Unit {0})
unfolding required_ids
case_identities_are_exact d c = do
  raise_if (not (is_subset (required_ids c.expected_minimum_findings) (evidence_ids c)))
      (value_error "ground truth references evidence outside the public inventory")
  raise_if
      (not ((c.expected_status == BenchmarkStatus.clean) == is_empty c.expected_minimum_findings))
      (value_error "benchmark clean status contradicts its minimum findings")
  raise_if (not (c.public_input_sha256 == d.public_part (public_part c)))
      (value_error "benchmark public-input hash mismatch")
  raise_if (not (c.ground_truth_sha256 == d.ground_truth_part (ground_truth_part c)))
      (value_error "benchmark ground-truth hash mismatch")
  raise_if
      (not (
        c.provenance_sha256
        == d.provenances
            (map (λ (e : BenchmarkEvidence). e.provenance_sha256) c.evidence_inventory)))
      (value_error "benchmark case provenance hash mismatch")
  raise_if (not (c.semantic_sha256 == d.case (public_part c) (ground_truth_part c)))
      (value_error "benchmark case semantic hash mismatch")

-- The validation of a case: its evidence first, then its own fields.
unfoldable pub validate_benchmark_case : CaseDigests → BenchmarkCase → Result (Unit {0})
unfolding identities_are_exact case_identities_are_exact
validate_benchmark_case d c = do
  for_each (identities_are_exact d) c.evidence_inventory
  case_identities_are_exact d c

-- The input that `public_input` hands to its constructor
abbrev pub public_input_of : BenchmarkCase → PublicBenchmarkInput
public_input_of c = record {
  benchmark_id = c.benchmark_id;
  case_version = c.case_version;
  falsifiable_claim = c.falsifiable_claim;
  evidence_inventory = map (λ (e : BenchmarkEvidence). e.public) c.evidence_inventory;
}

unfoldable pub public_input : BenchmarkCase → Result PublicBenchmarkInput
unfolding public_ids_are_unique
public_input c = public_ids_are_unique (public_input_of c) >> ok (public_input_of c)
