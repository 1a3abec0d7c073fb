-- ===== src/Engine/Trust/Receipts.antt =====
-- What a receipt of src/quantforge/engine/trust.py grants: one capability.
use quantforge_ai.Common.{
  ◌≤◌, ◌≡◌, ◌∙◌, refl, sym, ap, inl, inr, true, false, not, ◌||◌, String, List, [], ◌∷◌, Result, ok,
  is_ok, raise_if, raise_if-eq-ok, >>=-eq-ok, >>-eq-ok, ok-injective, ◌==◌, ==→≡, Result-cases,
  string_eq, nat_eq, arith,
}
use quantforge_ai.Common.Counting.{count}
use quantforge_ai.Evidence.Bundle.{
  EvidenceBundle, engine_identity_eq, invocation_eq, semantic_identities_eq, observations_eq,
  validator_results_eq, fact_references_eq,
}
use quantforge_ai.Engine.Run.{EngineRun}
use quantforge_ai.Engine.Trust.{
  receipt_record_eq, Sources, receipt_record, TrustedExecutionReceipt, TrustedAdmissionCapability,
  binding_of, differs, capability_for, consume_receipt,
}

module _ (fingerprint : EngineRun → String) where
  -- What a receipt checks before it gives its capability
  pub record Granted (t : TrustedExecutionReceipt) (r : EngineRun) (b : EvidenceBundle)
      (s : Sources) (c : TrustedAdmissionCapability) : Type 0 where
    pub fresh : t.consumed ≡ false
    pub bound : receipt_record fingerprint r (binding_of b) s ≡ ok t.receipt
    pub faithful : differs r b ≡ false
    pub granted : c ≡ record {
      authority = true;
      bundle_hash = b.bundle_hash;
      case_id = b.semantic.case_id;
      workflow_revision = b.semantic.workflow_revision;
      nonce = t.nonce;
      consumed = false;
    }

  pub capability_for-Granted :
      (t : TrustedExecutionReceipt) (r : EngineRun) (b : EvidenceBundle) (s : Sources)
      (c : TrustedAdmissionCapability)
      → capability_for fingerprint t r b s ≡ ok c
      → Granted t r b s c
  unfolding capability_for
  capability_for-Granted t r b s c h =
      let (expected, made, h1) = >>=-eq-ok (receipt_record fingerprint r (binding_of b) s) _ h in
      let (fresh, h2) = >>-eq-ok (raise_if (not t.authority || t.consumed) _) _ h1 in
      let (same, h3) = >>-eq-ok (raise_if (not (t.receipt == expected)) _) _ h2 in
      let (faithful, last) = >>-eq-ok (raise_if (differs r b) _) _ h3 in
      record {
        fresh = ground (arith, raise_if-eq-ok _ _ fresh);
        bound =
            made ∙ ap ok (sym (==→≡ t.receipt expected (ground (arith, raise_if-eq-ok _ _ same))));
        faithful = raise_if-eq-ok _ _ faithful;
        granted = sym (ok-injective last);
      }

  -- One call of `_consume`
  pub record Attempt : Type 0 where
    pub run : EngineRun
    pub bundle : EvidenceBundle
    pub sources : Sources

  -- The results of calls one after another on one receipt
  unfoldable pub attempts :
      TrustedExecutionReceipt → List Attempt → List (Result TrustedAdmissionCapability)
  attempts t [] = []
  attempts t (a ∷ as') =
      let (result, next) = consume_receipt fingerprint t a.run a.bundle a.sources in
      result ∷ attempts next as'

  consumed_fails :
      (t : TrustedExecutionReceipt) (r : EngineRun) (b : EvidenceBundle) (s : Sources)
      → t.consumed ≡ true
      → is_ok (capability_for fingerprint t r b s) ≡ false
  consumed_fails t r b s spent' = elim (Result-cases (capability_for fingerprint t r b s)) [
    | inl (raised, e) ↦ ap is_ok e
    | inr (c, e) ↦ let fresh = (capability_for-Granted t r b s c e).fresh in cc
  ]

  none_after :
      (t : TrustedExecutionReceipt) (as' : List Attempt)
      → t.consumed ≡ true
      → count is_ok (attempts t as') ≡ 0
  unfolding attempts count consume_receipt
  none_after t [] h = refl
  none_after t (a ∷ as') h =
      elim (Result-cases (capability_for fingerprint t a.run a.bundle a.sources)) [
        | inl (raised, e) ↦ rw e (none_after t as' h)
        | inr (c, e) ↦
            let failed = consumed_fails t a.run a.bundle a.sources h in
            let returned = ap is_ok e in cc
      ]

  -- However often and with whatever runs and bundles a receipt is used, it gives one capability at most.
  pub one_capability :
      (t : TrustedExecutionReceipt) (as' : List Attempt) → count is_ok (attempts t as') ≤ 1
  unfolding attempts count consume_receipt
  one_capability t [] = omega arith
  one_capability t (a ∷ as') =
      elim (Result-cases (capability_for fingerprint t a.run a.bundle a.sources)) [
        | inl (raised, e) ↦ rw e (one_capability t as')
        | inr (c, e) ↦ rw e (omega (arith, none_after (record t { consumed = true }) as' refl))
      ]
