-- ===== src/Audit/Governed.antt =====
-- What the replay of src/quantforge/audit/log.py says of the cases that it rebuilds.
use quantforge_ai.Common.{
  ℕ, ◌<◌, ◌≡◌, sym, ap, ◌∙◌, subst, false, not, [], ◌∷◌, Option, some, is_some, ok, raise_if,
  raise_if-eq-ok, ok-injective, some-injective, >>-eq-ok, >>=-eq-ok, ◌==◌, ==→≡, any, ltb, String,
  arith,
}
use mathlib.Core.Path.{subst₂}
use quantforge_ai.Domain.Validate.{validate_eligibility}
use quantforge_ai.Domain.Enums.{WorkflowState}
use quantforge_ai.Domain.Reviews.{VerdictEligibility, verdict_eligibility_eq}
use quantforge_ai.Domain.Case.{TribunalCase}
use quantforge_ai.Domain.Platform.{Platform}
use quantforge_ai.Domain.Visibility.{state_index, validate_case, validated_model_update}
use quantforge_ai.Domain.Governance.{validate_case-IsStaged}
use quantforge_ai.Verdict.{VerdictInputs, eligibility_of, compute, decide}
use quantforge_ai.Evidence.Ledger.{EvidenceLedger}
use quantforge_ai.Audit.Event.{
  Payload, verdict, AuditEvent, AuditPlatform, parse_inputs, parse_eligibility, parse_explanation,
}
use quantforge_ai.Audit.Policy.{validate_policy_inputs}
use quantforge_ai.Audit.Replay.{Rebuilt, Update, read_verdict, read_update, replay_event}

pub update-eq-ok :
    (p : Platform) (c : TribunalCase) {d : TribunalCase}
    → validated_model_update p c ≡ ok d
    → (validate_case p d ≡ ok tt) × (c ≡ d)
unfolding validated_model_update
update-eq-ok p c h =
    let (v, k) = >>-eq-ok (validate_case p c) _ h in
    let q = ok-injective k in (subst (λ x. validate_case p x ≡ ok tt) q v, q)

-- The eligibility of a rebuilt case is the policy's verdict on inputs that the governed state gives.
abbrev pub Judged : TribunalCase → Option EvidenceLedger → Type 0
Judged c ledger =
    (e : VerdictEligibility)
    → c.verdict_eligibility ≡ some e
    → (i : VerdictInputs) × (validate_policy_inputs c ledger i ≡ ok tt) × ((decide i).0 ≡ e.verdict)

-- What holds of each round's case
pub record Sound (p : AuditPlatform) (r : Rebuilt) : Type 0 where
  pub valid : validate_case p.domain r.case ≡ ok tt
  pub judged : Judged r.case r.ledger

pub early-Judged :
    (p : Platform) (c : TribunalCase) (ledger : Option EvidenceLedger)
    → validate_case p c ≡ ok tt
    → state_index c.state < 10
    → Judged c ledger
early-Judged p c ledger h l e q =
    let absent = (validate_case-IsStaged p c h).verdict_eligibility.1 l in
    absurd (no_value q absent)
  where
    no_value : {o : Option VerdictEligibility} → o ≡ some e → is_some o ≡ false → ⊥
    no_value q k = ground arith

-- A round in parts
pub event_parts :
    (p : AuditPlatform) (r : Rebuilt) (e : AuditEvent) {r' : Rebuilt}
    → replay_event p r e ≡ ok r'
    → (u : Update) × (read_update p r e.workflow_state e.action e.payload ≡ ok u)
      × (validate_case p.domain r'.case ≡ ok tt)
      × (record u.changed { state = e.workflow_state } ≡ r'.case)
      × (u.ledger ≡ r'.ledger)
unfolding replay_event
event_parts p r e h =
    let (u, a, h1) = >>=-eq-ok (read_update p r e.workflow_state e.action e.payload) _ h in
    let (_, h2) = >>-eq-ok (raise_if (any (λ t. ltb e.timestamp t) u.timestamps) _) _ h1 in
    let (c, v, k) =
      >>=-eq-ok (validated_model_update p.domain (record u.changed { state = e.workflow_state })) _
        h2 in
    let (valid, same) = update-eq-ok p.domain (record u.changed { state = e.workflow_state }) v in
    let q = ok-injective k in
    (
      u,
      a,
      subst (λ (x : Rebuilt). validate_case p.domain x.case ≡ ok tt) q valid,
      same ∙ ap (λ (x : Rebuilt). x.case) q,
      ap (λ (x : Rebuilt). x.ledger) q,
    )

-- The accepted branch of VERDICT_ELIGIBILITY_COMPUTED
record VerdictRead (r : Rebuilt) (u : Update) : Type 0 where
  inputs : VerdictInputs
  eligibility : VerdictEligibility
  recomputed : VerdictEligibility
  governed : validate_policy_inputs r.case r.ledger inputs ≡ ok tt
  computed : compute inputs eligibility.eligibility_id eligibility.computed_at ≡ ok recomputed
  same : recomputed ≡ eligibility
  update : u ≡ record {
    changed = record r.case { verdict_eligibility = some eligibility };
    ledger = r.ledger;
    timestamps = eligibility.computed_at ∷ [];
  }

verdict_parts :
    (r : Rebuilt) (a : VerdictInputs) (b : VerdictEligibility) {u : Update}
    → read_verdict r (verdict a b) ≡ ok u
    → VerdictRead r u
unfolding read_verdict
verdict_parts r a b h =
    let (i, _, h1) = >>=-eq-ok (parse_inputs a) _ h in
    let (e, _, h2) = >>=-eq-ok (parse_eligibility b) _ h1 in
    let (g, h3) = >>-eq-ok (validate_policy_inputs r.case r.ledger i) _ h2 in
    let (d, c, h4) = >>=-eq-ok (compute i e.eligibility_id e.computed_at) _ h3 in
    let (s, k) = >>-eq-ok (raise_if (not (d == e)) _) _ h4 in
    record {
      inputs = i;
      eligibility = e;
      recomputed = d;
      governed = g;
      computed = c;
      same = ==→≡ d e (ground (arith, raise_if-eq-ok _ _ s));
      update = sym (ok-injective k);
    }

computed_verdict :
    (i : VerdictInputs) (x : String) (t : ℕ) {d : VerdictEligibility}
    → compute i x t ≡ ok d
    → d.verdict ≡ (decide i).0
unfolding compute
computed_verdict i x t h =
    let (_, k) = >>-eq-ok (validate_eligibility (eligibility_of i x t)) _ h in
    ap (λ (e : VerdictEligibility). e.verdict) (sym (ok-injective k))

verdict-Judged :
    (r : Rebuilt) (y : Payload) (s : WorkflowState) {u : Update}
    → read_verdict r y ≡ ok u
    → Judged (record u.changed { state = s }) u.ledger
unfolding validate_policy_inputs read_verdict
verdict-Judged r (verdict a b) s h = of_parts (verdict_parts r a b h)
  where
    of_parts : {u : Update} → VerdictRead r u → Judged (record u.changed { state = s }) u.ledger
    of_parts v =
        subst (λ (w : Update). Judged (record w.changed { state = s }) w.ledger) (sym v.update)
          (λ e q. (
            v.inputs,
            v.governed,
            sym (
                  computed_verdict v.inputs v.eligibility.eligibility_id v.eligibility.computed_at
                    v.computed)
                ∙ (ap (λ (z : VerdictEligibility). z.verdict) v.same
                    ∙ ap (λ (z : VerdictEligibility). z.verdict) (some-injective q)),
          ))
verdict-Judged r _ s h = cc

chair-Judged :
    (p : AuditPlatform) (r : Rebuilt) (a : String) (y : Payload) {u : Update}
    → Judged r.case r.ledger
    → read_update p r WorkflowState.chair_explanation a y ≡ ok u
    → Judged (record u.changed { state = WorkflowState.chair_explanation }) u.ledger
unfolding read_update validate_policy_inputs
chair-Judged p r a y j h =
    let (x, _, k) = >>=-eq-ok (parse_explanation y) _ h in
    subst
      (λ (w : Update).
        Judged (record w.changed { state = WorkflowState.chair_explanation }) w.ledger)
      (ok-injective k) j

state-Judged :
    (p : AuditPlatform) (r : Rebuilt) (s : WorkflowState) (a : String) (y : Payload) {u : Update}
    → Judged r.case r.ledger
    → validate_case p.domain (record u.changed { state = s }) ≡ ok tt
    → read_update p r s a y ≡ ok u
    → Judged (record u.changed { state = s }) u.ledger
unfolding read_update
state-Judged p r WorkflowState.verdict_eligibility_computed a y j v h =
    verdict-Judged r y WorkflowState.verdict_eligibility_computed h
state-Judged p r WorkflowState.chair_explanation a y j v h = chair-Judged p r a y j h
state-Judged p r _ a y j v h = early-Judged p.domain _ _ v (omega arith)

pub replay_event-Sound :
    (p : AuditPlatform) (r : Rebuilt) (e : AuditEvent) {r' : Rebuilt}
    → Sound p r
    → replay_event p r e ≡ ok r'
    → Sound p r'
replay_event-Sound p r e s h =
    let (u, a, v, c, l) = event_parts p r e h in
    let w = subst (λ x. validate_case p.domain x ≡ ok tt) (sym c) v in
    record {
      valid = v;
      judged =
          subst₂ Judged c l (state-Judged p r e.workflow_state e.action e.payload s.judged w a);
    }
