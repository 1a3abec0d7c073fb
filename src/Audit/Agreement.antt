-- ===== src/Audit/Agreement.antt =====
-- What `AuditLog._validate_policy_inputs` of src/quantforge/audit/log.py has found of inputs that it accepts: they are those
-- that the reviews and the audited evidence give.
use quantforge_ai.Common.{
  ◌≡◌, ◌↔◌, refl, sym, ap, subst, true, not, List, ◌++◌, map, Option, none, some, ok, raise_if,
  raise_if-eq-ok, for_each, >>-eq-ok, >>=-eq-ok, ok-injective, ◌==◌, ==→≡, any, is_subset, same_set,
  bool_eq, string_eq, All, arith,
}
use quantforge_ai.Domain.Enums.{
  FindingSeverity, finding_severity_eq, EvidenceRelationship, evidence_relationship_eq, statuses_eq,
  review_decision_eq, corrected_inference_eq, expected_direction_eq, effect_direction_eq,
  gate_status_eq, sensitivity_eq, stability_eq, reproducibility_status_eq,
}
use quantforge_ai.Domain.Evidence.{EvidenceObject}
use quantforge_ai.Domain.Proposal.{ExperimentProposal}
use quantforge_ai.Domain.Reviews.{
  MethodologyReview, StatisticalReview, AdversarialReview, ReproducibilityReview,
}
use quantforge_ai.Domain.Validate.{is_unresolved, evidence_ids_of}
use quantforge_ai.Domain.Case.{TribunalCase}
use quantforge_ai.Verdict.{VerdictInputs}
use quantforge_ai.Evidence.Ledger.{
  EvidenceLedger, EvidenceLedgerSnapshot, id_of, unique_and_bound, snapshot_of, snapshot,
  validate_references,
}
use quantforge_ai.Evidence.Ledger.Binding.{IsBound}
use quantforge_ai.Audit.Policy.{
  Governed, gather, all_findings, compare_inputs, contradicting, check_contradictory,
  compare_governed, compare_gathered, validate_policy_inputs,
}
use quantforge_ai.Audit.Citations.{
  Cites, IsCited, HasUnresolved, flag-HasUnresolved, covered_of_subset, contradictions_covered,
  references-Cites, contradictory-Cites,
}

pub record Agrees (c : TribunalCase) (es : List EvidenceObject) (i : VerdictInputs) : Type 0 where
  pub proposal : ExperimentProposal
  pub methodology : MethodologyReview
  pub statistical : StatisticalReview
  pub adversarial : AdversarialReview
  pub reproducibility : ReproducibilityReview
  pub proposed : c.proposal ≡ some proposal
  pub method_reviewed : c.methodology_review ≡ some methodology
  pub statistics_reviewed : c.statistical_review ≡ some statistical
  pub challenged : c.adversarial_review ≡ some adversarial
  pub reproduced : c.reproducibility_review ≡ some reproducibility
  pub methodology_status : i.methodology_status ≡ methodology.decision
  pub complete : i.primary_experiment_complete ≡ true
  pub statuses :
      i.evidence_validation_statuses ≡ map (λ (e : EvidenceObject). e.validation_status) es
  pub corrected_inference : i.corrected_inference ≡ statistical.corrected_inference
  pub expected_direction : i.expected_direction ≡ proposal.primary_hypothesis.expected_direction
  pub effect_direction : i.effect_direction ≡ statistical.effect_direction
  pub practical_significance : i.practical_significance ≡ statistical.practical_significance
  pub robustness_status : i.robustness_status ≡ adversarial.robustness_status
  pub cost_sensitivity : i.cost_sensitivity ≡ adversarial.cost_sensitivity
  pub parameter_stability : i.parameter_stability ≡ adversarial.parameter_stability
  pub regime_stability : i.regime_stability ≡ adversarial.regime_stability
  pub concentration_risk : i.concentration_risk ≡ adversarial.concentration_risk
  pub reproducibility_status : i.reproducibility_status ≡ reproducibility.status
  pub critical :
      (i.unresolved_critical_findings ≡ true)
      ↔ HasUnresolved FindingSeverity.critical (
          methodology.findings
          ++ (statistical.findings ++ (adversarial.findings ++ reproducibility.findings)))
  pub noncritical :
      (i.unresolved_noncritical_limitations ≡ true)
      ↔ HasUnresolved FindingSeverity.noncritical (
          methodology.findings
          ++ (statistical.findings ++ (adversarial.findings ++ reproducibility.findings)))
  pub decisive : All (λ r. (e : EvidenceObject) × Cites es r e) i.decisive_evidence
  pub covered : All (IsCited i.decisive_evidence) es
  pub contradictory :
      All
        (λ r.
          (e : EvidenceObject) × Cites es r e × (e.relationship ≡ EvidenceRelationship.contradicts))
        i.contradictory_evidence
  pub no_contradiction_left :
      All
        (λ (e : EvidenceObject).
          e.relationship ≡ EvidenceRelationship.contradicts → IsCited i.contradictory_evidence e)
        es

-- The tests of the loop over `expected`
input_tests :
    (g : Governed) (es : List EvidenceObject) (i : VerdictInputs)
    → compare_inputs g es i ≡ ok tt
    → ((i.methodology_status == g.methodology.decision) ≡ true)
      × ((i.primary_experiment_complete == true) ≡ true)
      × ((i.evidence_validation_statuses == map (λ (e : EvidenceObject). e.validation_status) es)
          ≡ true)
      × ((i.corrected_inference == g.statistical.corrected_inference) ≡ true)
      × ((i.expected_direction == g.proposal.primary_hypothesis.expected_direction) ≡ true)
      × ((i.effect_direction == g.statistical.effect_direction) ≡ true)
      × ((i.practical_significance == g.statistical.practical_significance) ≡ true)
      × ((i.robustness_status == g.adversarial.robustness_status) ≡ true)
      × ((i.cost_sensitivity == g.adversarial.cost_sensitivity) ≡ true)
      × ((i.parameter_stability == g.adversarial.parameter_stability) ≡ true)
      × ((i.regime_stability == g.adversarial.regime_stability) ≡ true)
      × ((i.concentration_risk == g.adversarial.concentration_risk) ≡ true)
      × ((i.reproducibility_status == g.reproducibility.status) ≡ true)
      × ((i.unresolved_critical_findings
            == any (is_unresolved FindingSeverity.critical) (all_findings g))
          ≡ true)
      × ((i.unresolved_noncritical_limitations
            == any (is_unresolved FindingSeverity.noncritical) (all_findings g))
          ≡ true)
unfolding compare_inputs
input_tests g es i h = ground arith

-- The parts of a case that the comparison has found
record Gathered (c : TribunalCase) (o : Option EvidenceLedger) (i : VerdictInputs) : Type 0 where
  g : Governed
  ledger : o ≡ some g.ledger
  proposal : c.proposal ≡ some g.proposal
  methodology : c.methodology_review ≡ some g.methodology
  statistical : c.statistical_review ≡ some g.statistical
  adversarial : c.adversarial_review ≡ some g.adversarial
  reproducibility : c.reproducibility_review ≡ some g.reproducibility
  compared : compare_governed g i ≡ ok tt

gathered_parts :
    (l : Option EvidenceLedger) (p : Option ExperimentProposal) (m : Option MethodologyReview)
    (s : Option StatisticalReview) (a : Option AdversarialReview) (r : Option ReproducibilityReview)
    (i : VerdictInputs)
    → compare_gathered (gather l p m s a r) i ≡ ok tt
    → (g : Governed) × (l ≡ some g.ledger)
      × (p ≡ some g.proposal)
      × (m ≡ some g.methodology)
      × (s ≡ some g.statistical)
      × (a ≡ some g.adversarial)
      × (r ≡ some g.reproducibility)
      × (compare_governed g i ≡ ok tt)
gathered_parts (some l) (some p) (some m) (some s) (some a) (some r) i h =
    (_, refl, refl, refl, refl, refl, refl, h)
gathered_parts none p m s a r i h = cc
gathered_parts (some l) none m s a r i h = cc
gathered_parts (some l) (some p) none s a r i h = cc
gathered_parts (some l) (some p) (some m) none a r i h = cc
gathered_parts (some l) (some p) (some m) (some s) none r i h = cc
gathered_parts (some l) (some p) (some m) (some s) (some a) none i h = cc

validate_policy_inputs-Gathered :
    (c : TribunalCase) (o : Option EvidenceLedger) (i : VerdictInputs)
    → validate_policy_inputs c o i ≡ ok tt
    → Gathered c o i
unfolding validate_policy_inputs
validate_policy_inputs-Gathered c o i h =
    let (g, l, p, m, s, a, r, k) =
      gathered_parts o c.proposal c.methodology_review c.statistical_review c.adversarial_review
        c.reproducibility_review i h in
    record {
      g = g;
      ledger = l;
      proposal = p;
      methodology = m;
      statistical = s;
      adversarial = a;
      reproducibility = r;
      compared = k;
    }

-- The parts of `compare_governed`
compare_governed_parts :
    (g : Governed) (i : VerdictInputs)
    → compare_governed g i ≡ ok tt
    → (compare_inputs g g.ledger.items i ≡ ok tt)
      × (is_subset (map id_of g.ledger.items) (evidence_ids_of i.decisive_evidence) ≡ true)
      × (validate_references g.ledger i.decisive_evidence ≡ ok tt)
      × (is_subset (contradicting g.ledger.items) (evidence_ids_of i.contradictory_evidence) ≡ true)
      × (for_each (check_contradictory g.ledger) i.contradictory_evidence ≡ ok tt)
unfolding compare_governed snapshot same_set
compare_governed_parts g i h =
    let (s, made, h1) = >>=-eq-ok (snapshot g.ledger) _ h in
    let (_, k) = >>-eq-ok (unique_and_bound (snapshot_of g.ledger)) _ made in
    let q = ok-injective k in
    let (a, h2) = >>-eq-ok (compare_inputs g s.evidence i) _ h1 in
    let (b, h3) =
      >>-eq-ok
        (raise_if (not (same_set (evidence_ids_of i.decisive_evidence) (map id_of s.evidence))) _) _
        h2 in
    let (c, h4) = >>-eq-ok (validate_references g.ledger i.decisive_evidence) _ h3 in
    let (d, e) =
      >>-eq-ok
        (raise_if
          (not (same_set (evidence_ids_of i.contradictory_evidence) (contradicting s.evidence))) _)
        _ h4 in
    let items : s.evidence ≡ g.ledger.items =
      ap (λ (z : EvidenceLedgerSnapshot). z.evidence) (sym q) in
    (
      subst (λ es. compare_inputs g es i ≡ ok tt) items a,
      subst (λ es. is_subset (map id_of es) (evidence_ids_of i.decisive_evidence) ≡ true) items
          (ground (arith, raise_if-eq-ok _ _ b)),
      c,
      subst (λ es. is_subset (contradicting es) (evidence_ids_of i.contradictory_evidence) ≡ true)
          items (ground (arith, raise_if-eq-ok _ _ d)),
      e,
    )

pub validate_policy_inputs-Agrees :
    (c : TribunalCase) (o : Option EvidenceLedger) (i : VerdictInputs)
    → ((l : EvidenceLedger) → o ≡ some l → IsBound l)
    → validate_policy_inputs c o i ≡ ok tt
    → (l : EvidenceLedger) × (o ≡ some l) × Agrees c l.items i
unfolding all_findings
validate_policy_inputs-Agrees c o i bound h =
    let f = validate_policy_inputs-Gathered c o i h in
    let g = f.g in
    let b = bound g.ledger f.ledger in
    let (inputs, covers, decisive, contradicted, contradictory) =
      compare_governed_parts g i f.compared in
    let (t1, t2, t3, t4, t5, t6, t7, t8, t9, t10, t11, t12, t13, t14, t15) =
      input_tests g g.ledger.items i inputs in
    (
      g.ledger,
      f.ledger,
      record {
        proposal = g.proposal;
        methodology = g.methodology;
        statistical = g.statistical;
        adversarial = g.adversarial;
        reproducibility = g.reproducibility;
        proposed = f.proposal;
        method_reviewed = f.methodology;
        statistics_reviewed = f.statistical;
        challenged = f.adversarial;
        reproduced = f.reproducibility;
        methodology_status = ==→≡ i.methodology_status g.methodology.decision t1;
        complete = ==→≡ i.primary_experiment_complete true t2;
        statuses = ==→≡ i.evidence_validation_statuses _ t3;
        corrected_inference = ==→≡ i.corrected_inference g.statistical.corrected_inference t4;
        expected_direction =
            ==→≡ i.expected_direction g.proposal.primary_hypothesis.expected_direction t5;
        effect_direction = ==→≡ i.effect_direction g.statistical.effect_direction t6;
        practical_significance =
            ==→≡ i.practical_significance g.statistical.practical_significance t7;
        robustness_status = ==→≡ i.robustness_status g.adversarial.robustness_status t8;
        cost_sensitivity = ==→≡ i.cost_sensitivity g.adversarial.cost_sensitivity t9;
        parameter_stability = ==→≡ i.parameter_stability g.adversarial.parameter_stability t10;
        regime_stability = ==→≡ i.regime_stability g.adversarial.regime_stability t11;
        concentration_risk = ==→≡ i.concentration_risk g.adversarial.concentration_risk t12;
        reproducibility_status = ==→≡ i.reproducibility_status g.reproducibility.status t13;
        critical =
            flag-HasUnresolved FindingSeverity.critical _ i.unresolved_critical_findings
              (==→≡ i.unresolved_critical_findings _ t14);
        noncritical =
            flag-HasUnresolved FindingSeverity.noncritical _ i.unresolved_noncritical_limitations
              (==→≡ i.unresolved_noncritical_limitations _ t15);
        decisive = references-Cites g.ledger b i.decisive_evidence decisive;
        covered = covered_of_subset i.decisive_evidence g.ledger.items covers;
        contradictory = contradictory-Cites g.ledger b i.contradictory_evidence contradictory;
        no_contradiction_left =
            contradictions_covered i.contradictory_evidence g.ledger.items contradicted;
      },
    )
