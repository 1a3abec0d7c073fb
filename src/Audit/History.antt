-- ===== src/Audit/History.antt =====
-- What `AuditLog.replay_case` of src/quantforge/audit/log.py returns, for the whole log.
use quantforge_ai.Common.{
  suc, ◌+◌, ◌≤◌, ◌≡◌, refl, sym, ap, ◌∙◌, subst, false, not, List, [], ◌∷◌, map, Option, none, some,
  ok, raise_if, ok-injective, ◌>>◌, >>-eq-ok, >>=-eq-ok, All, length, eqb, arith,
}
use quantforge_ai.Domain.Enums.{WorkflowState}
use quantforge_ai.Domain.Reviews.{ChairExplanation}
use quantforge_ai.Domain.Case.{TribunalCase}
use quantforge_ai.Domain.Visibility.{state_index, validate_case, validated_model_update}
use quantforge_ai.Domain.Governance.{validate_case-chair, Approved, validate_case-Approved}
use quantforge_ai.Verdict.{VerdictInputs, decide}
use quantforge_ai.Domain.Evidence.{EvidenceObject}
use quantforge_ai.Evidence.Ledger.{EvidenceLedger, EvidenceLedgerSnapshot}
use quantforge_ai.Audit.Agreement.{Agrees, validate_policy_inputs-Agrees}
use quantforge_ai.Audit.Held.{Held, Recorded, replay_event-Held}
use mathlib.Core.List.{Memᴰ}
use quantforge_ai.Audit.Event.{AuditEvent, AuditPlatform, parse_claim}
use quantforge_ai.Audit.Verify.{Cursor, move, start, check_chain}
use quantforge_ai.Audit.Chain.{Chain, check_chain-IsChain, InOrder, check_chain_ordered}
use quantforge_ai.Audit.Tamper.{last_event, All-last_event}
use quantforge_ai.Audit.Replay.{Rebuilt, replay_event, replay_from, received, rebuild_cases}
use quantforge_ai.Audit.Log.{replay_cases, last_case, replay_case}
use quantforge_ai.Audit.Governed.{
  Judged, Sound, update-eq-ok, early-Judged, event_parts, replay_event-Sound,
}

-- A case that the replay of a log returns: it is valid, its ledger is that of an event of the log, and its verdict is the
-- policy's.
pub record IsGoverned (p : AuditPlatform) (log : List AuditEvent) (c : TribunalCase) : Type 0 where
  pub valid : validate_case p.domain c ≡ ok tt
  pub ledger : Option EvidenceLedger
  pub held : Held log c ledger
  pub judged : Judged c ledger

replay_from-All :
    (p : AuditPlatform) (log : List AuditEvent) (r : Rebuilt) (es : List AuditEvent)
    {cs : List TribunalCase}
    → All (λ e. Memᴰ e log) es
    → Sound p r
    → Held log r.case r.ledger
    → replay_from p r es ≡ ok cs
    → All (IsGoverned p log) cs
      × (map (λ (c : TribunalCase). c.state) cs ≡ map (λ (e : AuditEvent). e.workflow_state) es)
unfolding replay_from
replay_from-All p log r [] m s held h =
    subst (λ cs. All (IsGoverned p log) cs × (map (λ (c : TribunalCase). c.state) cs ≡ []))
      (ok-injective h) (tt, refl)
replay_from-All p log r (e ∷ es) m s held h =
    let (r', a, h1) = >>=-eq-ok (replay_event p r e) _ h in
    let (cs, b, k) = >>=-eq-ok (replay_from p r' es) _ h1 in
    let s' = replay_event-Sound p r e s a in
    let (_, _, _, c, _) = event_parts p r e a in
    let held' = replay_event-Held p log r e m.0 held a in
    let (all, states) = replay_from-All p log r' es m.1 s' held' b in
    subst
      (λ ds.
        All (IsGoverned p log) ds
        × (map (λ (d : TribunalCase). d.state) ds
            ≡ e.workflow_state ∷ map (λ (d : AuditEvent). d.workflow_state) es))
      (ok-injective k)
      (
        (record { valid = s'.valid; ledger = r'.ledger; held = held'; judged = s'.judged }, all),
        λ i. sym (ap (λ (d : TribunalCase). d.state) c) i ∷ states i,
      )

members {κ} :
    (Q : AuditEvent → Type κ) (es : List AuditEvent)
    → ((e : AuditEvent) → Memᴰ e es → Q e)
    → All Q es
members Q [] f = tt
members Q (e ∷ es) f = (f e (Memᴰ.head refl), members Q es (λ d m. f d (Memᴰ.tail m)))

later_members : (e : AuditEvent) (es : List AuditEvent) → All (λ d. Memᴰ d (e ∷ es)) es
later_members e es = members (λ d. Memᴰ d (e ∷ es)) es (λ d m. Memᴰ.tail m)

-- The cases of a log, of which the first event is the receipt of the claim
rebuild_cases-All :
    (p : AuditPlatform) (e : AuditEvent) (es : List AuditEvent) {cs : List TribunalCase}
    → e.workflow_state ≡ WorkflowState.claim_received
    → rebuild_cases p (e ∷ es) ≡ ok cs
    → All (IsGoverned p (e ∷ es)) cs
      × (map (λ (c : TribunalCase). c.state) cs
          ≡ map (λ (d : AuditEvent). d.workflow_state) (e ∷ es))
unfolding rebuild_cases
rebuild_cases-All p e es q h =
    let (claim, _, h1) = >>=-eq-ok (parse_claim p.domain e.payload) _ h in
    let (_, h2) = >>-eq-ok (raise_if (not (eqb e.timestamp claim.submitted_at)) _) _ h1 in
    let (c, v, h3) = >>=-eq-ok (validated_model_update p.domain (received e.case_id claim)) _ h2 in
    let (cs, b, k) = >>=-eq-ok (replay_from p (record { case = c; ledger = none }) es) _ h3 in
    let (valid, same) = update-eq-ok p.domain (received e.case_id claim) v in
    let first : c.state ≡ WorkflowState.claim_received =
      sym (ap (λ (d : TribunalCase). d.state) same) in
    let judged : Judged c none = early-Judged p.domain c none valid (rw first (omega arith)) in
    let (all, states) =
      replay_from-All p (e ∷ es) (record { case = c; ledger = none }) es (later_members e es)
        (record { valid = valid; judged = judged }) (λ l q. cc) b in
    subst
      (λ ds.
        All (IsGoverned p (e ∷ es)) ds
        × (map (λ (d : TribunalCase). d.state) ds
            ≡ e.workflow_state ∷ map (λ (d : AuditEvent). d.workflow_state) es))
      (ok-injective k)
      (
        (record { valid = valid; ledger = none; held = λ l q. cc; judged = judged }, all),
        λ i. (first ∙ sym q) i ∷ states i,
      )

last_case-All {ℓ} :
    (P : TribunalCase → Type ℓ) (cs : List TribunalCase) {c : TribunalCase}
    → All P cs
    → last_case cs ≡ ok c
    → P c
last_case-All P [] a h = cc
last_case-All P (d ∷ []) a h = subst P (ok-injective h) a.0
last_case-All P (d ∷ e ∷ cs) a h = last_case-All P (e ∷ cs) a.1 h

first_state :
    (e : AuditEvent) (es : List AuditEvent)
    → InOrder (e ∷ es)
    → e.sequence ≡ 1
    → e.workflow_state ≡ WorkflowState.claim_received
first_state e es o s = state_of_index e.workflow_state (omega (arith, o.0))
  where
    state_of_index : (s : WorkflowState) → state_index s ≡ 0 → s ≡ WorkflowState.claim_received
    state_of_index WorkflowState.claim_received h = refl
    state_of_index _ h = absurd (omega arith)

last_state_eq :
    (cs : List TribunalCase) (e : AuditEvent) (es : List AuditEvent) {c : TribunalCase}
    → map (λ (d : TribunalCase). d.state) cs ≡ map (λ (d : AuditEvent). d.workflow_state) (e ∷ es)
    → last_case cs ≡ ok c
    → c.state ≡ (last_event e es).workflow_state
last_state_eq [] e es q h = cc
last_state_eq (d ∷ []) e [] q h = ground arith
last_state_eq (d ∷ []) e (f ∷ es) q h = cc
last_state_eq (d ∷ d' ∷ cs) e [] q h = cc
last_state_eq (d ∷ d' ∷ cs) e (f ∷ es) q h = last_state_eq (d' ∷ cs) f es (cc q) h

last_sequence :
    (p : AuditPlatform) (c : Cursor) (e : AuditEvent) (es : List AuditEvent)
    → Chain p c (e ∷ es)
    → (last_event e es).sequence ≡ c.expected_sequence + length es
unfolding move
last_sequence p c e [] (l, _) = omega (arith, l.sequence)
last_sequence p c e (d ∷ es) (l, h) = omega (arith, last_sequence p (move c e) d es h)

-- What `replay_case` returns
pub record Replayed (p : AuditPlatform) (es : List AuditEvent) (c : TribunalCase) : Type 0 where
  pub governed : IsGoverned p es c
  pub position : length es ≡ suc (state_index c.state)
  pub chained : check_chain p false es ≡ ok tt

replayed :
    (p : AuditPlatform) (e : AuditEvent) (es : List AuditEvent) (cs : List TribunalCase)
    {c : TribunalCase}
    → check_chain p false (e ∷ es) ≡ ok tt
    → rebuild_cases p (e ∷ es) ≡ ok cs
    → last_case cs ≡ ok c
    → Replayed p (e ∷ es) c
unfolding start
replayed p e es cs h b l =
    let chain = check_chain-IsChain p false (e ∷ es) h in
    let (order, _) = check_chain_ordered p false (e ∷ es) h in
    let (all, states) = rebuild_cases-All p e es (first_state e es order chain.0.sequence) b in
    let last = last_state_eq cs e es states l in
    let index = All-last_event _ e es order in
    record {
      governed = last_case-All (IsGoverned p (e ∷ es)) cs all l;
      position =
          omega (arith, last_sequence p (start e.case_id) e es chain, index, ap state_index last);
      chained = h;
    }

replay_parts :
    (p : AuditPlatform) (es : List AuditEvent) {c : TribunalCase}
    → replay_case p false es ≡ ok c
    → (cs : List TribunalCase) × (check_chain p false es ≡ ok tt)
      × (rebuild_cases p es ≡ ok cs)
      × (last_case cs ≡ ok c)
unfolding replay_case replay_cases
replay_parts p es h =
    let (cs, a, l) = >>=-eq-ok (check_chain p false es >> rebuild_cases p es) _ h in
    let (k, b) = >>-eq-ok (check_chain p false es) _ a in (cs, k, b, l)

Replayed-at :
    (p : AuditPlatform) (es : List AuditEvent) (cs : List TribunalCase) {c : TribunalCase}
    → check_chain p false es ≡ ok tt
    → rebuild_cases p es ≡ ok cs
    → last_case cs ≡ ok c
    → Replayed p es c
unfolding rebuild_cases
Replayed-at p [] [] k b l = cc
Replayed-at p [] (d ∷ cs) k b l = cc
Replayed-at p (e ∷ es) cs k b l = replayed p e es cs k b l

-- If a log replays to a case, the log's chain is accepted, the case is valid, its verdict eligibility, if
-- it has one, has the policy's verdict on inputs that agree with its governed state, and the place of
-- its state in the workflow, counted from one, is the number of the log's events.
pub replay_case-Replayed :
    (p : AuditPlatform) (es : List AuditEvent) (c : TribunalCase)
    → replay_case p false es ≡ ok c
    → Replayed p es c
replay_case-Replayed p es c h = let (cs, k, b, l) = replay_parts p es h in Replayed-at p es cs k b l

-- What stands behind the verdict that the Chair of a case reports: the evidence that an event of the log records, which
-- is the evidence of the case, and inputs that agree with the reviews of the case and with that evidence
pub record Justified (log : List AuditEvent) (c : TribunalCase) (x : ChairExplanation)
    : Type 0 where
  pub snapshot : EvidenceLedgerSnapshot
  pub recorded : Recorded log snapshot
  pub ids : c.evidence_ids ≡ map (λ (e : EvidenceObject). e.evidence_id) snapshot.evidence
  pub inputs : VerdictInputs
  pub agrees : Agrees c snapshot.evidence inputs
  pub verdict : x.computed_verdict ≡ (decide inputs).0

-- The Chair of a replayed case reports the verdict that the policy decides on inputs which agree with the reviews of the
-- case and with the evidence that the log records.
pub replay_case-Justified :
    (p : AuditPlatform) (es : List AuditEvent) (c : TribunalCase) (x : ChairExplanation)
    → replay_case p false es ≡ ok c
    → c.chair_explanation ≡ some x
    → Justified es c x
replay_case-Justified p es c x h q =
    let g = (replay_case-Replayed p es c h).governed in
    let (e, some_e, v, _, _) = validate_case-chair p.domain c x g.valid q in
    let (i, k, d) = g.judged e some_e in
    let (l, there, a) = validate_policy_inputs-Agrees c g.ledger i (λ l q. (g.held l q).bound) k in
    let held = g.held l there in
    record {
      snapshot = held.snapshot;
      recorded = held.recorded;
      ids = held.ids;
      inputs = i;
      agrees = subst (λ evidence. Agrees c evidence i) held.items a;
      verdict = v ∙ sym d;
    }

-- Every history that reaches CONSTITUTION_LOCKED has an approving methodology review and a positive human
-- approval of exactly the recorded proposal.
pub replay_case-Approved :
    (p : AuditPlatform) (es : List AuditEvent) (c : TribunalCase)
    → replay_case p false es ≡ ok c
    → 5 ≤ length es
    → Approved p.domain c
replay_case-Approved p es c h l =
    let r = replay_case-Replayed p es c h in
    validate_case-Approved p.domain c r.governed.valid (omega (arith, r.position))
