-- ===== src/Tests/LogExamples.antt =====
-- The theorems on the audit log and on the state machine, at the log of `History`.
use quantforge_ai.Common.{
  suc, ◌≡◌, refl, ap, subst, true, false, length, [], ◌∷◌, value_error, arith,
}
use quantforge_ai.Domain.Enums.{WorkflowState, RoleName}
use quantforge_ai.Domain.Visibility.{state_index}
use quantforge_ai.Domain.Governance.{Approved}
use quantforge_ai.Audit.Event.{Payload}
use quantforge_ai.Audit.Log.{append}
use quantforge_ai.Audit.Tamper.{history_unique}
use quantforge_ai.Audit.Succession.{IsSuccession, check_chain-IsSuccession}
use quantforge_ai.Audit.Append.{append_error_unchanged, Added, append_ok}
use quantforge_ai.Audit.History.{Justified}
use quantforge_ai.Machine.{advance, skip_follow_up, complete_follow_up}
use quantforge_ai.Machine.Coherence.{
  Coherent, Transition, advance-Transition, skip_follow_up-Transition,
  complete_follow_up-Transition,
}
use quantforge_ai.Machine.Progress.{Advanced, advance-Advanced}
use quantforge_ai.Machine.Reach.{
  Step, advanced, Reachable, opened, stepped, Step-Coherent, Reachable-position, Reachable-Approved,
  Reachable-Justified,
}
use quantforge_ai.Machine.Refinement.{Calls, none_made, one_more, Refines, Calls-Refines}
use quantforge_ai.Tests.Samples.{platform, audit_platform, explanation, reproducibility}
use quantforge_ai.Tests.History.{
  received, proposed, explained, judged_history, history, final_case, judged_case, judged_machine,
  final_machine, explanation_update, explanation_entry, downgraded_entry, open_machine,
}
use quantforge_ai.Tests.Runs.{runs}

final-Step : Step audit_platform judged_machine final_machine
final-Step = subst (Step audit_platform judged_machine) (ap (λ r. r.1) runs.chair_advances) (
    advanced judged_machine WorkflowState.chair_explanation RoleName.tribunal_chair
      "explain_verdict" 120 (Payload.explanation explanation) explanation_update)

final_Reachable : Reachable audit_platform final_machine
final_Reachable =
    stepped judged_machine final_machine
      (opened judged_case judged_history judged_machine runs.judged_opens) final-Step

Reachable-position_example :
    Coherent audit_platform final_machine
    × (length history ≡ suc (state_index WorkflowState.chair_explanation))
Reachable-position_example = Reachable-position audit_platform final_machine final_Reachable

Reachable-Approved_example : Approved platform final_case
Reachable-Approved_example =
    Reachable-Approved audit_platform final_machine final_Reachable (omega arith)

Reachable-Justified_example : Justified final_machine.audit_log final_machine.case explanation
Reachable-Justified_example =
    Reachable-Justified audit_platform final_machine explanation final_Reachable refl

check_chain-IsSuccession_example : IsSuccession audit_platform history
check_chain-IsSuccession_example =
    check_chain-IsSuccession audit_platform true history runs.history_checks

judged-Calls : Calls audit_platform judged_machine final_machine
judged-Calls = one_more (none_made refl) final-Step

Calls-Refines_example : Refines judged_machine final_machine
Calls-Refines_example = Calls-Refines audit_platform judged-Calls runs.judged_replays

Step-Coherent_example : Coherent audit_platform final_machine
Step-Coherent_example = Step-Coherent audit_platform final-Step runs.judged_replays

history_unique_example : received ∷ proposed ∷ [] ≡ received ∷ proposed ∷ []
history_unique_example =
    history_unique audit_platform false received (proposed ∷ []) received (proposed ∷ [])
      (((λ q. refl), ((λ q. cc), tt)), (((λ q. cc), ((λ q. refl), tt)), tt)) runs.first_checks
      runs.first_checks refl

append_error_unchanged_example :
    (append audit_platform judged_history downgraded_entry).1 ≡ judged_history
append_error_unchanged_example =
    append_error_unchanged audit_platform judged_history downgraded_entry
      (value_error "Chair cannot alter the computed verdict") runs.judged_checks
      (ap (λ r. r.0) runs.downgrade_raises)

append_ok_example :
    Added audit_platform judged_history explanation_entry explained
      (append audit_platform judged_history explanation_entry).1
append_ok_example =
    append_ok audit_platform judged_history explanation_entry explained
      (ap (λ r. r.0) runs.explanation_appends)

advance-Transition_example : Transition audit_platform judged_machine (
    advance audit_platform judged_machine WorkflowState.chair_explanation RoleName.tribunal_chair
      "explain_verdict" 120
      (Payload.explanation explanation)
      explanation_update)
advance-Transition_example =
    advance-Transition audit_platform judged_machine WorkflowState.chair_explanation
      RoleName.tribunal_chair "explain_verdict" 120 (Payload.explanation explanation)
      explanation_update runs.judged_replays

skip_follow_up-Transition_example : Transition audit_platform open_machine (
    skip_follow_up audit_platform open_machine RoleName.reproducibility_reviewer "not needed" 100
      reproducibility)
skip_follow_up-Transition_example =
    skip_follow_up-Transition audit_platform open_machine RoleName.reproducibility_reviewer
      "not needed" 100 reproducibility runs.open_replays

complete_follow_up-Transition_example : Transition audit_platform open_machine (
    complete_follow_up audit_platform open_machine RoleName.reproducibility_reviewer "replicated"
      100 reproducibility)
complete_follow_up-Transition_example =
    complete_follow_up-Transition audit_platform open_machine RoleName.reproducibility_reviewer
      "replicated" 100 reproducibility runs.open_replays

advance-Advanced_example :
    Advanced audit_platform judged_case WorkflowState.chair_explanation RoleName.tribunal_chair
      "explain_verdict" explanation_update final_case
advance-Advanced_example =
    advance-Advanced audit_platform judged_machine WorkflowState.chair_explanation
      RoleName.tribunal_chair "explain_verdict" 120 (Payload.explanation explanation)
      explanation_update final_case (ap (λ r. r.0) runs.chair_advances)
