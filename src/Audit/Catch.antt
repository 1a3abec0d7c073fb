-- ===== src/Audit/Catch.antt =====
-- The replay of src/quantforge/audit/log.py raises nothing but `ValueError`.
use quantforge_ai.Common.{false, String, List, [], ◌∷◌, Option, none, some}
use quantforge_ai.Common.Catchable.{Catchable, catch_rules, returned, value, Catchable-bind}
use quantforge_ai.Domain.Enums.{WorkflowState}
use quantforge_ai.Domain.Proposal.{ExperimentProposal}
use quantforge_ai.Domain.Constitution.{ExperimentConstitution}
use quantforge_ai.Domain.Evidence.{EvidenceObject}
use quantforge_ai.Domain.Reviews.{EvidenceReference, ReproducibilityReview, VerdictEligibility}
use quantforge_ai.Domain.Platform.{Platform}
use quantforge_ai.Domain.Case.{TribunalCase}
use quantforge_ai.Domain.Catch.{
  validate_claim-Catchable, scientific_identity-Catchable, approved_review_is_complete-Catchable,
  constitution_integrity-Catchable, validate_statistical_review-Catchable,
  challenge_summary_is_consistent-Catchable, validate_explanation-Catchable,
  verified_review_is_complete-Catchable, validate_eligibility-Catchable,
}
use quantforge_ai.Domain.CatchCase.{evidence_integrity-Catchable, validated_model_update-Catchable}
use quantforge_ai.Verdict.{VerdictInputs}
use quantforge_ai.Evidence.Ledger.{EvidenceLedgerSnapshot, EvidenceLedger}
use quantforge_ai.Evidence.Catch.{
  validate_inputs-Catchable, compute-Catchable, unique_and_bound-Catchable,
  validate_reference-Catchable, validate_references-Catchable, snapshot-Catchable,
  from_snapshot-Catchable,
}
use quantforge_ai.Audit.Event.{
  Payload, claim, proposal, methodology, approval, constitution, ledger, statistical, adversarial,
  follow_up_entry, follow_up, verdict, explanation, AuditEvent, AuditPlatform, parse_claim,
  parse_proposal, parse_methodology, parse_approval, parse_constitution, parse_snapshot,
  parse_statistical, parse_adversarial, parse_reproducibility, parse_inputs, parse_eligibility,
  parse_explanation,
}
use quantforge_ai.Audit.Policy.{
  Governed, compare_inputs, check_contradictory, compare_governed, compare_gathered,
  validate_policy_inputs,
}
use quantforge_ai.Audit.Replay.{
  Rebuilt, bound_ledger, read_follow_up, read_verdict, read_follow_up_entry, read_update,
  replay_event, replay_from, rebuild_cases,
}
use quantforge_ai.Audit.Log.{last_case}

pub parse_claim-Catchable : (p : Platform) (y : Payload) → Catchable (parse_claim p y)
unfolding parse_claim
parse_claim-Catchable p (claim x) = search (catch_rules, validate_claim-Catchable) depth 24
parse_claim-Catchable p _ = value _

pub parse_proposal-Catchable : (y : Payload) → Catchable (parse_proposal y)
unfolding parse_proposal
parse_proposal-Catchable (proposal x) = search (catch_rules, scientific_identity-Catchable) depth 24
parse_proposal-Catchable _ = value _

pub parse_methodology-Catchable : (y : Payload) → Catchable (parse_methodology y)
unfolding parse_methodology
parse_methodology-Catchable (methodology x) =
    search (catch_rules, approved_review_is_complete-Catchable) depth 24
parse_methodology-Catchable _ = value _

pub parse_approval-Catchable : (y : Payload) → Catchable (parse_approval y)
unfolding parse_approval
parse_approval-Catchable (approval x) = search (catch_rules) depth 24
parse_approval-Catchable _ = value _

pub parse_constitution-Catchable : (p : Platform) (y : Payload) → Catchable (parse_constitution p y)
unfolding parse_constitution
parse_constitution-Catchable p (constitution x) =
    search (catch_rules, constitution_integrity-Catchable) depth 24
parse_constitution-Catchable p _ = value _

pub parse_snapshot-Catchable : (p : Platform) (y : Payload) → Catchable (parse_snapshot p y)
unfolding parse_snapshot
parse_snapshot-Catchable p (ledger x) =
    search (catch_rules, evidence_integrity-Catchable, unique_and_bound-Catchable) depth 24
parse_snapshot-Catchable p _ = value _

pub parse_statistical-Catchable : (y : Payload) → Catchable (parse_statistical y)
unfolding parse_statistical
parse_statistical-Catchable (statistical x) =
    search (catch_rules, validate_statistical_review-Catchable) depth 24
parse_statistical-Catchable _ = value _

pub parse_adversarial-Catchable : (y : Payload) → Catchable (parse_adversarial y)
unfolding parse_adversarial
parse_adversarial-Catchable (adversarial x) =
    search (catch_rules, challenge_summary_is_consistent-Catchable) depth 24
parse_adversarial-Catchable _ = value _

pub parse_explanation-Catchable : (y : Payload) → Catchable (parse_explanation y)
unfolding parse_explanation
parse_explanation-Catchable (explanation x) =
    search (catch_rules, validate_explanation-Catchable) depth 24
parse_explanation-Catchable _ = value _

pub parse_reproducibility-Catchable :
    (x : ReproducibilityReview) → Catchable (parse_reproducibility x)
unfolding parse_reproducibility
parse_reproducibility-Catchable x =
    search (catch_rules, verified_review_is_complete-Catchable) depth 24

pub parse_inputs-Catchable : (x : VerdictInputs) → Catchable (parse_inputs x)
unfolding parse_inputs
parse_inputs-Catchable x = search (catch_rules, validate_inputs-Catchable) depth 24

pub parse_eligibility-Catchable : (x : VerdictEligibility) → Catchable (parse_eligibility x)
unfolding parse_eligibility
parse_eligibility-Catchable x = search (catch_rules, validate_eligibility-Catchable) depth 24

pub compare_inputs-Catchable :
    (g : Governed) (es : List EvidenceObject) (i : VerdictInputs)
    → Catchable (compare_inputs g es i)
unfolding compare_inputs
compare_inputs-Catchable g es i = search (catch_rules) depth 40

pub check_contradictory-Catchable :
    (l : EvidenceLedger) (r : EvidenceReference) → Catchable (check_contradictory l r)
unfolding check_contradictory
check_contradictory-Catchable l r = search (catch_rules, validate_reference-Catchable) depth 24

pub compare_governed-Catchable :
    (g : Governed) (i : VerdictInputs) → Catchable (compare_governed g i)
unfolding compare_governed
compare_governed-Catchable g i =
    search
      (
        catch_rules, snapshot-Catchable, compare_inputs-Catchable, validate_references-Catchable,
        check_contradictory-Catchable,
      )
      depth 24

pub compare_gathered-Catchable :
    (g : Option Governed) (i : VerdictInputs) → Catchable (compare_gathered g i)
compare_gathered-Catchable none i = value _
compare_gathered-Catchable (some g) i = compare_governed-Catchable g i

pub validate_policy_inputs-Catchable :
    (c : TribunalCase) (l : Option EvidenceLedger) (i : VerdictInputs)
    → Catchable (validate_policy_inputs c l i)
unfolding validate_policy_inputs
validate_policy_inputs-Catchable c l i = compare_gathered-Catchable _ i

pub bound_ledger-Catchable :
    (r : Rebuilt) (c : Option ExperimentConstitution) (x : Option ExperimentProposal)
    (s : EvidenceLedgerSnapshot)
    → Catchable (bound_ledger r c x s)
unfolding bound_ledger
bound_ledger-Catchable r (some c) (some x) s =
    search (catch_rules, from_snapshot-Catchable) depth 24
bound_ledger-Catchable r _ _ s = value _

pub read_follow_up-Catchable :
    (r : Rebuilt) (a : String) (y : Payload) → Catchable (read_follow_up r a y)
unfolding read_follow_up
read_follow_up-Catchable r a (follow_up d t v) =
    search (catch_rules, parse_reproducibility-Catchable) depth 24
read_follow_up-Catchable r a _ = value _

pub read_verdict-Catchable : (r : Rebuilt) (y : Payload) → Catchable (read_verdict r y)
unfolding read_verdict
read_verdict-Catchable r (verdict i e) =
    search
      (
        catch_rules, parse_inputs-Catchable, parse_eligibility-Catchable,
        validate_policy_inputs-Catchable, compute-Catchable,
      )
      depth 24
read_verdict-Catchable r _ = value _

pub read_follow_up_entry-Catchable :
    (r : Rebuilt) (y : Payload) → Catchable (read_follow_up_entry r y)
unfolding read_follow_up_entry
read_follow_up_entry-Catchable r (follow_up_entry false) = returned _
read_follow_up_entry-Catchable r _ = value _

ruleset read_rules = (
  catch_rules, parse_proposal-Catchable, parse_methodology-Catchable, parse_approval-Catchable,
  parse_constitution-Catchable, parse_snapshot-Catchable, bound_ledger-Catchable,
  parse_statistical-Catchable, parse_adversarial-Catchable, read_follow_up_entry-Catchable,
  read_follow_up-Catchable, read_verdict-Catchable, parse_explanation-Catchable,
)

pub read_update-Catchable :
    (p : AuditPlatform) (r : Rebuilt) (s : WorkflowState) (a : String) (y : Payload)
    → Catchable (read_update p r s a y)
unfolding read_update
read_update-Catchable p r WorkflowState.claim_received a y = value _
read_update-Catchable p r _ a y = search read_rules

pub replay_event-Catchable :
    (p : AuditPlatform) (r : Rebuilt) (e : AuditEvent) → Catchable (replay_event p r e)
unfolding replay_event
replay_event-Catchable p r e =
    search (catch_rules, read_update-Catchable, validated_model_update-Catchable) depth 24

pub replay_from-Catchable :
    (p : AuditPlatform) (r : Rebuilt) (es : List AuditEvent) → Catchable (replay_from p r es)
unfolding replay_from
replay_from-Catchable p r [] = returned []
replay_from-Catchable p r (e ∷ es) =
    Catchable-bind (replay_event p r e) _ (replay_event-Catchable p r e) λ r'.
      Catchable-bind (replay_from p r' es) _ (replay_from-Catchable p r' es)
        (λ cs. returned (r'.case ∷ cs))

pub rebuild_cases-Catchable :
    (p : AuditPlatform) (es : List AuditEvent) → Catchable (rebuild_cases p es)
unfolding rebuild_cases
rebuild_cases-Catchable p [] = returned []
rebuild_cases-Catchable p (e ∷ es) =
    search
      (catch_rules, parse_claim-Catchable, validated_model_update-Catchable, replay_from-Catchable)
      depth 24

pub last_case-Catchable : (cs : List TribunalCase) → Catchable (last_case cs)
last_case-Catchable [] = value _
last_case-Catchable (c ∷ []) = returned c
last_case-Catchable (c ∷ d ∷ cs) = last_case-Catchable (d ∷ cs)
