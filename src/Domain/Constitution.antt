-- ===== src/Domain/Constitution.antt =====
-- Human approval, the locked constitution and its amendments, of src/quantforge/domain/models.py.
-- A model that carries the hash of its other fields is those fields, the `body`, which
-- `model_dump(exclude={...})` gives, with the hash beside them.
use quantforge_ai.Common.{ℕ, Bool, String, Eq, ℕ_discrete, String-discrete}
use quantforge_ai.Domain.Enums.{
  AmendmentClassification, AmendmentClassification-discrete, RoleName, RoleName-discrete,
}
use quantforge_ai.Domain.Json.{JsonFields, JsonFields-discrete}
use quantforge_ai.Domain.Proposal.{ExperimentProposal, ExperimentProposal-discrete}

pub record HumanApproval : Type 0 where
  pub approval_id : String
  pub experiment_id : String
  pub approved : Bool
  pub approver : String
  pub approved_at : ℕ
  pub proposal_hash : String

unfoldable pub HumanApproval-discrete : Discrete HumanApproval
HumanApproval-discrete = hlevel (String-discrete, ℕ_discrete)

instance abbrev pub human_approval_eq : Eq HumanApproval
human_approval_eq = record { dec = HumanApproval-discrete }

pub record ConstitutionBody : Type 0 where
  pub constitution_id : String
  pub experiment_id : String
  pub proposal : ExperimentProposal
  pub human_approval : HumanApproval
  pub locked_at : ℕ

unfoldable pub ConstitutionBody-discrete : Discrete ConstitutionBody
ConstitutionBody-discrete =
    hlevel (String-discrete, ExperimentProposal-discrete, HumanApproval-discrete, ℕ_discrete)

pub record ExperimentConstitution : Type 0 where
  pub body : ConstitutionBody
  pub open body use *
  pub constitution_hash : String

unfoldable pub ExperimentConstitution-discrete : Discrete ExperimentConstitution
ExperimentConstitution-discrete = hlevel (ConstitutionBody-discrete, String-discrete)

instance abbrev pub experiment_constitution_eq : Eq ExperimentConstitution
experiment_constitution_eq = record { dec = ExperimentConstitution-discrete }

pub record AmendmentBody : Type 0 where
  pub amendment_id : String
  pub classification : AmendmentClassification
  pub author_role : RoleName
  pub reason : String
  pub changes : JsonFields
  pub created_at : ℕ
  pub parent_constitution_hash : String

unfoldable pub AmendmentBody-discrete : Discrete AmendmentBody
AmendmentBody-discrete = hlevel (
  String-discrete, AmendmentClassification-discrete, RoleName-discrete, JsonFields-discrete,
  ℕ_discrete,
)

pub record ConstitutionAmendment : Type 0 where
  pub body : AmendmentBody
  pub open body use *
  pub amendment_hash : String

unfoldable pub ConstitutionAmendment-discrete : Discrete ConstitutionAmendment
ConstitutionAmendment-discrete = hlevel (AmendmentBody-discrete, String-discrete)
