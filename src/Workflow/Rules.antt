-- ===== src/Workflow/Rules.antt =====
-- src/quantforge/workflow/rules.py: the table of transitions, and the two dictionaries made of it.
use quantforge_ai.Common.{
  not, ◌||◌, String, List, [], ◌∷◌, Option, none, some, value_error, permission_error, Result, err,
  raise_if, ◌>>◌, if◌then◌else◌, ◌==◌, contains, string_eq, Eq,
}
use quantforge_ai.Domain.Enums.{
  WorkflowState, WorkflowState-discrete, workflow_state_eq, RoleName, role_name_eq,
}

pub record TransitionRule : Type 0 where
  pub source : Option WorkflowState
  pub target : WorkflowState
  pub actor : RoleName
  pub actions : List String

abbrev pub rules : List TransitionRule
rules =
    record {
      source = none;
      target = WorkflowState.claim_received;
      actor = RoleName.system;
      actions = "receive_claim" ∷ [];
    }
    ∷ record {
      source = some WorkflowState.claim_received;
      target = WorkflowState.researcher_protocol_proposed;
      actor = RoleName.researcher;
      actions = "propose_protocol" ∷ [];
    }
    ∷ record {
      source = some WorkflowState.researcher_protocol_proposed;
      target = WorkflowState.methodology_reviewed;
      actor = RoleName.methodology_auditor;
      actions = "review_methodology" ∷ [];
    }
    ∷ record {
      source = some WorkflowState.methodology_reviewed;
      target = WorkflowState.human_approval;
      actor = RoleName.human_approver;
      actions = "record_approval" ∷ [];
    }
    ∷ record {
      source = some WorkflowState.human_approval;
      target = WorkflowState.constitution_locked;
      actor = RoleName.system;
      actions = "lock_constitution" ∷ [];
    }
    ∷ record {
      source = some WorkflowState.constitution_locked;
      target = WorkflowState.experiment_executed;
      actor = RoleName.system;
      actions = "admit_engine_evidence" ∷ "load_mock_evidence" ∷ [];
    }
    ∷ record {
      source = some WorkflowState.experiment_executed;
      target = WorkflowState.statistics_reviewed;
      actor = RoleName.statistical_reviewer;
      actions = "review_statistics" ∷ [];
    }
    ∷ record {
      source = some WorkflowState.statistics_reviewed;
      target = WorkflowState.adversarial_reviewed;
      actor = RoleName.adversarial_reviewer;
      actions = "review_adversarially" ∷ [];
    }
    ∷ record {
      source = some WorkflowState.adversarial_reviewed;
      target = WorkflowState.optional_follow_up;
      actor = RoleName.system;
      actions = "enter_follow_up" ∷ [];
    }
    ∷ record {
      source = some WorkflowState.optional_follow_up;
      target = WorkflowState.reproducibility_verified;
      actor = RoleName.reproducibility_reviewer;
      actions = "skip_follow_up" ∷ "complete_follow_up" ∷ [];
    }
    ∷ record {
      source = some WorkflowState.reproducibility_verified;
      target = WorkflowState.verdict_eligibility_computed;
      actor = RoleName.system;
      actions = "compute_verdict" ∷ [];
    }
    ∷ record {
      source = some WorkflowState.verdict_eligibility_computed;
      target = WorkflowState.chair_explanation;
      actor = RoleName.tribunal_chair;
      actions = "explain_verdict" ∷ [];
    }
    ∷ []

unfoldable pub source-discrete : Discrete (Option WorkflowState)
source-discrete = hlevel WorkflowState-discrete

instance abbrev pub source_eq : Eq (Option WorkflowState)
source_eq = record { dec = source-discrete }

-- `{rule.target: rule for rule in RULES}.get(target)`: of two rules with one target the later is kept.
unfoldable pub last_rule : List TransitionRule → WorkflowState → Option TransitionRule
last_rule [] target = none
last_rule (r ∷ rs) target = elim (last_rule rs target) [
  | none ↦ if r.target == target then some r else none
  | some later ↦ some later
]

unfoldable pub rule_by_target : WorkflowState → Option TransitionRule
unfolding last_rule
rule_by_target = last_rule rules

-- `{rule.source: rule.target for rule in RULES if rule.source is not None}.get(source)`
unfoldable pub last_target : List TransitionRule → WorkflowState → Option WorkflowState
last_target [] source = none
last_target (r ∷ rs) source = elim (last_target rs source) [
  | none ↦ if r.source == some source then some r.target else none
  | some later ↦ some later
]

unfoldable pub next_state : WorkflowState → Option WorkflowState
unfolding last_target
next_state = last_target rules

-- The part of `require_transition_authority` after the look-up
unfoldable pub require_rule :
    Option TransitionRule → Option WorkflowState → RoleName → String → Result (Unit {0})
require_rule none source actor action = err (value_error "illegal workflow transition")
require_rule (some r) source actor action = do
  raise_if (not (r.source == source)) (value_error "illegal workflow transition")
  raise_if (not (r.actor == actor) || not (contains action r.actions))
      (permission_error "actor is not authorized")

unfoldable pub require_transition_authority :
    Option WorkflowState → WorkflowState → RoleName → String → Result (Unit {0})
unfolding require_rule
require_transition_authority source target actor action =
    require_rule (rule_by_target target) source actor action
