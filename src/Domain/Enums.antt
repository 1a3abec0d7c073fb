-- ===== src/Domain/Enums.antt =====
-- The enumerations of src/quantforge/domain/models.py, and its `Literal` fields of several values
-- (the directions, the units, the follow-up disposition), each with its decidable equality.
use quantforge_ai.Common.{List, Eq}

pub data WorkflowState : Type 0 where
  claim_received researcher_protocol_proposed methodology_reviewed human_approval
        constitution_locked experiment_executed statistics_reviewed adversarial_reviewed
        optional_follow_up reproducibility_verified verdict_eligibility_computed chair_explanation :
      WorkflowState

unfoldable pub WorkflowState-discrete : Discrete WorkflowState
WorkflowState-discrete = hlevel

instance abbrev pub workflow_state_eq : Eq WorkflowState
workflow_state_eq = record { dec = WorkflowState-discrete }

pub data RoleName : Type 0 where
  researcher methodology_auditor statistical_reviewer adversarial_reviewer reproducibility_reviewer
        tribunal_chair human_approver system :
      RoleName

unfoldable pub RoleName-discrete : Discrete RoleName
RoleName-discrete = hlevel

instance abbrev pub role_name_eq : Eq RoleName
role_name_eq = record { dec = RoleName-discrete }

pub data ReviewDecision : Type 0 where
  approved revision_requested rejected : ReviewDecision

unfoldable pub ReviewDecision-discrete : Discrete ReviewDecision
ReviewDecision-discrete = hlevel

instance abbrev pub review_decision_eq : Eq ReviewDecision
review_decision_eq = record { dec = ReviewDecision-discrete }

pub data FindingSeverity : Type 0 where
  info noncritical critical : FindingSeverity

unfoldable pub FindingSeverity-discrete : Discrete FindingSeverity
FindingSeverity-discrete = hlevel

instance abbrev pub finding_severity_eq : Eq FindingSeverity
finding_severity_eq = record { dec = FindingSeverity-discrete }

pub data ValidationStatus : Type 0 where
  validated failed pending : ValidationStatus

unfoldable pub ValidationStatus-discrete : Discrete ValidationStatus
ValidationStatus-discrete = hlevel

instance abbrev pub validation_status_eq : Eq ValidationStatus
validation_status_eq = record { dec = ValidationStatus-discrete }

pub data EvidenceRelationship : Type 0 where
  supports contradicts qualifies : EvidenceRelationship

unfoldable pub EvidenceRelationship-discrete : Discrete EvidenceRelationship
EvidenceRelationship-discrete = hlevel

instance abbrev pub evidence_relationship_eq : Eq EvidenceRelationship
evidence_relationship_eq = record { dec = EvidenceRelationship-discrete }

pub data AmendmentClassification : Type 0 where
  reviewer_requested exploratory administrative : AmendmentClassification

unfoldable pub AmendmentClassification-discrete : Discrete AmendmentClassification
AmendmentClassification-discrete = hlevel

instance abbrev pub amendment_classification_eq : Eq AmendmentClassification
amendment_classification_eq = record { dec = AmendmentClassification-discrete }

pub data ChallengeType : Type 0 where
  cost regime parameter benchmark placebo concentration robustness : ChallengeType

unfoldable pub ChallengeType-discrete : Discrete ChallengeType
ChallengeType-discrete = hlevel

instance abbrev pub challenge_type_eq : Eq ChallengeType
challenge_type_eq = record { dec = ChallengeType-discrete }

pub data ChallengeStatus : Type 0 where
  passed failed unresolved : ChallengeStatus

unfoldable pub ChallengeStatus-discrete : Discrete ChallengeStatus
ChallengeStatus-discrete = hlevel

instance abbrev pub challenge_status_eq : Eq ChallengeStatus
challenge_status_eq = record { dec = ChallengeStatus-discrete }

pub data ReproducibilityStatus : Type 0 where
  verified partial failed : ReproducibilityStatus

unfoldable pub ReproducibilityStatus-discrete : Discrete ReproducibilityStatus
ReproducibilityStatus-discrete = hlevel

instance abbrev pub reproducibility_status_eq : Eq ReproducibilityStatus
reproducibility_status_eq = record { dec = ReproducibilityStatus-discrete }

pub data GateStatus : Type 0 where
  pass fail unresolved : GateStatus

unfoldable pub GateStatus-discrete : Discrete GateStatus
GateStatus-discrete = hlevel

instance abbrev pub gate_status_eq : Eq GateStatus
gate_status_eq = record { dec = GateStatus-discrete }

pub data Sensitivity : Type 0 where
  low moderate high : Sensitivity

unfoldable pub Sensitivity-discrete : Discrete Sensitivity
Sensitivity-discrete = hlevel

instance abbrev pub sensitivity_eq : Eq Sensitivity
sensitivity_eq = record { dec = Sensitivity-discrete }

pub data Stability : Type 0 where
  stable mixed unstable : Stability

unfoldable pub Stability-discrete : Discrete Stability
Stability-discrete = hlevel

instance abbrev pub stability_eq : Eq Stability
stability_eq = record { dec = Stability-discrete }

pub data Verdict : Type 0 where
  supported provisionally_supported inconclusive fragile rejected : Verdict

unfoldable pub Verdict-discrete : Discrete Verdict
Verdict-discrete = hlevel

instance abbrev pub verdict_eq : Eq Verdict
verdict_eq = record { dec = Verdict-discrete }

pub data CorrectedInference : Type 0 where
  pass fail unresolved : CorrectedInference

unfoldable pub CorrectedInference-discrete : Discrete CorrectedInference
CorrectedInference-discrete = hlevel

instance abbrev pub corrected_inference_eq : Eq CorrectedInference
corrected_inference_eq = record { dec = CorrectedInference-discrete }

pub data ExpectedDirection : Type 0 where
  positive negative two_sided : ExpectedDirection

unfoldable pub ExpectedDirection-discrete : Discrete ExpectedDirection
ExpectedDirection-discrete = hlevel

instance abbrev pub expected_direction_eq : Eq ExpectedDirection
expected_direction_eq = record { dec = ExpectedDirection-discrete }

pub data EffectDirection : Type 0 where
  positive negative null mixed : EffectDirection

unfoldable pub EffectDirection-discrete : Discrete EffectDirection
EffectDirection-discrete = hlevel

instance abbrev pub effect_direction_eq : Eq EffectDirection
effect_direction_eq = record { dec = EffectDirection-discrete }

pub data MeasureUnit : Type 0 where
  basis_points fraction percent currency_units count days ratio : MeasureUnit

unfoldable pub MeasureUnit-discrete : Discrete MeasureUnit
MeasureUnit-discrete = hlevel

instance abbrev pub measure_unit_eq : Eq MeasureUnit
measure_unit_eq = record { dec = MeasureUnit-discrete }

pub data Disposition : Type 0 where
  completed skipped : Disposition

unfoldable pub Disposition-discrete : Discrete Disposition
Disposition-discrete = hlevel

instance abbrev pub disposition_eq : Eq Disposition
disposition_eq = record { dec = Disposition-discrete }

unfoldable pub statuses-discrete : Discrete (List ValidationStatus)
statuses-discrete = hlevel ValidationStatus-discrete

instance abbrev pub statuses_eq : Eq (List ValidationStatus)
statuses_eq = record { dec = statuses-discrete }
