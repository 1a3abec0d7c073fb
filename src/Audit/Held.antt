-- ===== src/Audit/Held.antt =====
-- Where the ledger of the replay of src/quantforge/audit/log.py comes from: the audited event that records the evidence.
use quantforge_ai.Common.{
  ◌≡◌, refl, sym, ap, ◌∙◌, subst, true, false, not, ◌||◌, String, List, [], ◌∷◌, ◌++◌, map, Option,
  none, some, some-injective, ok, raise_if, for_each, ok-injective, >>-eq-ok, >>=-eq-ok, ◌==◌,
  string_eq, if◌then◌else◌,
}
use mathlib.Core.List.{Memᴰ, append_assoc, append-nil}
use quantforge_ai.Domain.Enums.{WorkflowState, Disposition, disposition_eq}
use quantforge_ai.Domain.Text.{is_blank}
use quantforge_ai.Domain.Proposal.{ExperimentProposal}
use quantforge_ai.Domain.Constitution.{ExperimentConstitution}
use quantforge_ai.Domain.Evidence.{EvidenceObject}
use quantforge_ai.Domain.Platform.{Platform}
use quantforge_ai.Domain.Locked.{evidence_integrity}
use quantforge_ai.Domain.Reviews.{verdict_eligibility_eq}
use quantforge_ai.Domain.Case.{TribunalCase}
use quantforge_ai.Verdict.{compute}
use quantforge_ai.Evidence.Ledger.{
  EvidenceLedger, EvidenceLedgerSnapshot, unique_and_bound, new, append, append_all, from_snapshot,
}
use quantforge_ai.Evidence.Ledger.Binding.{IsBound, new-IsBound, append-eq-ok, append-IsBound}
use quantforge_ai.Audit.Event.{
  Payload, ledger, verdict, follow_up, follow_up_entry, AuditEvent, AuditPlatform, parse_proposal,
  parse_methodology, parse_approval, parse_constitution, parse_snapshot, parse_statistical,
  parse_adversarial, parse_reproducibility, parse_inputs, parse_eligibility, parse_explanation,
}
use quantforge_ai.Audit.Policy.{validate_policy_inputs}
use quantforge_ai.Audit.Replay.{
  Rebuilt, Update, bound_ledger, read_follow_up, read_verdict, read_follow_up_entry, read_update,
  replay_event,
}
use quantforge_ai.Audit.Governed.{event_parts}

-- The log has an event of EXPERIMENT_EXECUTED with this snapshot as its payload.
pub record Recorded (log : List AuditEvent) (s : EvidenceLedgerSnapshot) : Type 0 where
  pub event : AuditEvent
  pub member : Memᴰ event log
  pub state : event.workflow_state ≡ WorkflowState.experiment_executed
  pub payload : event.payload ≡ Payload.ledger s

-- The ledger has the evidence of a recorded snapshot, and the case has its identifiers.
pub record HeldBy (log : List AuditEvent) (c : TribunalCase) (l : EvidenceLedger) : Type 0 where
  pub snapshot : EvidenceLedgerSnapshot
  pub recorded : Recorded log snapshot
  pub items : l.items ≡ snapshot.evidence
  pub bound : IsBound l
  pub ids : c.evidence_ids ≡ map (λ (e : EvidenceObject). e.evidence_id) snapshot.evidence

abbrev pub Held : List AuditEvent → TribunalCase → Option EvidenceLedger → Type 0
Held log c o = (l : EvidenceLedger) → o ≡ some l → HeldBy log c l

append_all-IsBound :
    (l : EvidenceLedger) (es : List EvidenceObject) {l' : EvidenceLedger}
    → IsBound l
    → append_all l es ≡ ok l'
    → IsBound l' × (l'.items ≡ l.items ++ es)
unfolding append_all
append_all-IsBound l [] b h =
    let q = ok-injective h in
    (subst IsBound q b, ap (λ (z : EvidenceLedger). z.items) (sym q) ∙ sym (append-nil l.items))
append_all-IsBound l (e ∷ es) b h =
    let (m, a, k) = >>=-eq-ok (append l e) _ h in
    let (c, items) = append_all-IsBound m es (append-IsBound l e b a) k in
    (
      c,
      items
          ∙ (ap (λ (z : EvidenceLedger). z.items ++ es) (append-eq-ok l e a).result
              ∙ append_assoc l.items (e ∷ []) es),
    )

from_snapshot-IsBound :
    (s : EvidenceLedgerSnapshot) (claims : List String) {l : EvidenceLedger}
    → from_snapshot s claims ≡ ok l
    → IsBound l × (l.items ≡ s.evidence)
unfolding from_snapshot new
from_snapshot-IsBound s claims h =
    append_all-IsBound (new s.case_id s.experiment_id s.constitution_hash claims) s.evidence
      (new-IsBound s.case_id s.experiment_id s.constitution_hash claims) h

parsed_snapshot :
    (p : Platform) (y : Payload) {s : EvidenceLedgerSnapshot}
    → parse_snapshot p y ≡ ok s
    → y ≡ Payload.ledger s
unfolding parse_snapshot
parsed_snapshot p (ledger x) h =
    let (_, h1) = >>-eq-ok (for_each (evidence_integrity p) x.evidence) _ h in
    let (_, k) = >>-eq-ok (unique_and_bound x) _ h1 in ap Payload.ledger (ok-injective k)
parsed_snapshot p _ h = cc

-- A branch that changes neither the ledger nor the identifiers of the evidence
abbrev Kept : Rebuilt → Update → Type 0
Kept r u = (u.ledger ≡ r.ledger) × (u.changed.evidence_ids ≡ r.case.evidence_ids)

Kept-Held :
    (log : List AuditEvent) (r : Rebuilt) (u : Update)
    → Kept r u
    → Held log r.case r.ledger
    → Held log u.changed u.ledger
Kept-Held log r u (same, ids) held l q =
    let h = held l (sym same ∙ q) in
    record {
      snapshot = h.snapshot;
      recorded = h.recorded;
      items = h.items;
      bound = h.bound;
      ids = ids ∙ h.ids;
    }

follow_up-Kept :
    (r : Rebuilt) (a : String) (y : Payload) {u : Update} → read_follow_up r a y ≡ ok u → Kept r u
unfolding read_follow_up
follow_up-Kept r a (follow_up d reason review) h =
    let (_, h1) =
      >>-eq-ok
        (raise_if
          (not (d == (if a == "skip_follow_up" then Disposition.skipped else Disposition.completed))
            || is_blank reason)
          _)
        _ h in
    let (v, _, k) = >>=-eq-ok (parse_reproducibility review) _ h1 in
    subst (Kept r) (ok-injective k) (refl, refl)
follow_up-Kept r a _ h = cc

verdict-Kept : (r : Rebuilt) (y : Payload) {u : Update} → read_verdict r y ≡ ok u → Kept r u
unfolding read_verdict validate_policy_inputs
verdict-Kept r (verdict a b) h =
    let (i, _, h1) = >>=-eq-ok (parse_inputs a) _ h in
    let (e, _, h2) = >>=-eq-ok (parse_eligibility b) _ h1 in
    let (_, h3) = >>-eq-ok (validate_policy_inputs r.case r.ledger i) _ h2 in
    let (d, _, h4) = >>=-eq-ok (compute i e.eligibility_id e.computed_at) _ h3 in
    let (_, k) = >>-eq-ok (raise_if (not (d == e)) _) _ h4 in
    subst (Kept r) (ok-injective k) (refl, refl)
verdict-Kept r _ h = cc

entry-Kept : (r : Rebuilt) (y : Payload) {u : Update} → read_follow_up_entry r y ≡ ok u → Kept r u
unfolding read_follow_up_entry
entry-Kept r (follow_up_entry false) h = subst (Kept r) (ok-injective h) (refl, refl)
entry-Kept r (follow_up_entry true) h = cc
entry-Kept r _ h = cc

bound_ledger-Held :
    (log : List AuditEvent) (r : Rebuilt) (c : Option ExperimentConstitution)
    (x : Option ExperimentProposal) (s : EvidenceLedgerSnapshot) {u : Update}
    → Recorded log s
    → bound_ledger r c x s ≡ ok u
    → Held log u.changed u.ledger
unfolding bound_ledger
bound_ledger-Held log r none x s recorded h = cc
bound_ledger-Held log r (some c) none s recorded h = cc
bound_ledger-Held log r (some c) (some x) s recorded h =
    let (_, h1) =
      >>-eq-ok
        (raise_if
          (not (s.case_id == r.case.case_id)
            || not (s.experiment_id == x.experiment_id)
            || not (s.constitution_hash == c.constitution_hash))
          _)
        _ h in
    let (l, made, k) = >>=-eq-ok (from_snapshot s (r.case.claim.claim_id ∷ [])) _ h1 in
    let (bound, items) = from_snapshot-IsBound s (r.case.claim.claim_id ∷ []) made in
    subst (λ (v : Update). Held log v.changed v.ledger) (ok-injective k)
      (λ m q. record {
        snapshot = s;
        recorded = recorded;
        items = ap (λ (z : EvidenceLedger). z.items) (sym (some-injective q)) ∙ items;
        bound = subst IsBound (some-injective q) bound;
        ids = refl;
      })

read_update-Held :
    (p : AuditPlatform) (log : List AuditEvent) (r : Rebuilt) (s : WorkflowState) (a : String)
    (y : Payload) {u : Update}
    → ((x : EvidenceLedgerSnapshot)
        → s ≡ WorkflowState.experiment_executed
        → y ≡ Payload.ledger x
        → Recorded log x)
    → Held log r.case r.ledger
    → read_update p r s a y ≡ ok u
    → Held log u.changed u.ledger
unfolding read_update bound_ledger read_follow_up read_verdict read_follow_up_entry
    validate_policy_inputs
read_update-Held p log r WorkflowState.claim_received a y {u} recorded held h = cc
read_update-Held p log r WorkflowState.researcher_protocol_proposed a y {u} recorded held h =
    let (x, _, k) = >>=-eq-ok (parse_proposal y) _ h in
    Kept-Held log r u (subst (Kept r) (ok-injective k) (refl, refl)) held
read_update-Held p log r WorkflowState.methodology_reviewed a y {u} recorded held h =
    let (x, _, k) = >>=-eq-ok (parse_methodology y) _ h in
    Kept-Held log r u (subst (Kept r) (ok-injective k) (refl, refl)) held
read_update-Held p log r WorkflowState.human_approval a y {u} recorded held h =
    let (x, _, k) = >>=-eq-ok (parse_approval y) _ h in
    Kept-Held log r u (subst (Kept r) (ok-injective k) (refl, refl)) held
read_update-Held p log r WorkflowState.constitution_locked a y {u} recorded held h =
    let (x, _, k) = >>=-eq-ok (parse_constitution p.domain y) _ h in
    Kept-Held log r u (subst (Kept r) (ok-injective k) (refl, refl)) held
read_update-Held p log r WorkflowState.experiment_executed a y {u} recorded held h =
    let (s, parsed, k) = >>=-eq-ok (parse_snapshot p.domain y) _ h in
    bound_ledger-Held log r r.case.constitution r.case.proposal s
      (recorded s refl (parsed_snapshot p.domain y parsed)) k
read_update-Held p log r WorkflowState.statistics_reviewed a y {u} recorded held h =
    let (x, _, k) = >>=-eq-ok (parse_statistical y) _ h in
    Kept-Held log r u (subst (Kept r) (ok-injective k) (refl, refl)) held
read_update-Held p log r WorkflowState.adversarial_reviewed a y {u} recorded held h =
    let (x, _, k) = >>=-eq-ok (parse_adversarial y) _ h in
    Kept-Held log r u (subst (Kept r) (ok-injective k) (refl, refl)) held
read_update-Held p log r WorkflowState.optional_follow_up a y {u} recorded held h =
    Kept-Held log r u (entry-Kept r y h) held
read_update-Held p log r WorkflowState.reproducibility_verified a y {u} recorded held h =
    Kept-Held log r u (follow_up-Kept r a y h) held
read_update-Held p log r WorkflowState.verdict_eligibility_computed a y {u} recorded held h =
    Kept-Held log r u (verdict-Kept r y h) held
read_update-Held p log r WorkflowState.chair_explanation a y {u} recorded held h =
    let (x, _, k) = >>=-eq-ok (parse_explanation y) _ h in
    Kept-Held log r u (subst (Kept r) (ok-injective k) (refl, refl)) held

-- A round of the replay, on an event of the log
pub replay_event-Held :
    (p : AuditPlatform) (log : List AuditEvent) (r : Rebuilt) (e : AuditEvent) {r' : Rebuilt}
    → Memᴰ e log
    → Held log r.case r.ledger
    → replay_event p r e ≡ ok r'
    → Held log r'.case r'.ledger
replay_event-Held p log r e member held h l q =
    let (u, a, _, c, same) = event_parts p r e h in
    let k =
      read_update-Held p log r e.workflow_state e.action e.payload
        (λ x state payload. record { event = e; member = member; state = state; payload = payload })
        held a l (same ∙ q) in
    record {
      snapshot = k.snapshot;
      recorded = k.recorded;
      items = k.items;
      bound = k.bound;
      ids = ap (λ (z : TribunalCase). z.evidence_ids) (sym c) ∙ k.ids;
    }
