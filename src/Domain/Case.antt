-- ===== src/Domain/Case.antt =====
-- The tribunal case of src/quantforge/domain/models.py. Its validator is in `Visibility`.
use quantforge_ai.Common.{String, List, Option, Eq, String-discrete}
use quantforge_ai.Domain.Enums.{
  WorkflowState, WorkflowState-discrete, Disposition, Disposition-discrete,
}
use quantforge_ai.Domain.Proposal.{
  ResearchClaim, ResearchClaim-discrete, ExperimentProposal, ExperimentProposal-discrete,
}
use quantforge_ai.Domain.Constitution.{
  HumanApproval, HumanApproval-discrete, ExperimentConstitution, ExperimentConstitution-discrete,
  ConstitutionAmendment, ConstitutionAmendment-discrete,
}
use quantforge_ai.Domain.Reviews.{
  MethodologyReview, MethodologyReview-discrete, StatisticalReview, StatisticalReview-discrete,
  AdversarialReview, AdversarialReview-discrete, ReproducibilityReview,
  ReproducibilityReview-discrete, VerdictEligibility, VerdictEligibility-discrete, ChairExplanation,
  ChairExplanation-discrete,
}

pub record TribunalCase : Type 0 where
  pub case_id : String
  pub state : WorkflowState
  pub claim : ResearchClaim
  pub proposal : Option ExperimentProposal
  pub methodology_review : Option MethodologyReview
  pub human_approval : Option HumanApproval
  pub constitution : Option ExperimentConstitution
  pub amendments : List ConstitutionAmendment
  pub evidence_ids : List String
  pub statistical_review : Option StatisticalReview
  pub adversarial_review : Option AdversarialReview
  pub follow_up_disposition : Option Disposition
  pub reproducibility_review : Option ReproducibilityReview
  pub verdict_eligibility : Option VerdictEligibility
  pub chair_explanation : Option ChairExplanation

unfoldable pub TribunalCase-discrete : Discrete TribunalCase
TribunalCase-discrete = hlevel (
  String-discrete, WorkflowState-discrete, ResearchClaim-discrete, ExperimentProposal-discrete,
  MethodologyReview-discrete, HumanApproval-discrete, ExperimentConstitution-discrete,
  ConstitutionAmendment-discrete, StatisticalReview-discrete, AdversarialReview-discrete,
  Disposition-discrete, ReproducibilityReview-discrete, VerdictEligibility-discrete,
  ChairExplanation-discrete,
)

instance abbrev pub tribunal_case_eq : Eq TribunalCase
tribunal_case_eq = record { dec = TribunalCase-discrete }
