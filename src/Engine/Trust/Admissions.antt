-- ===== src/Engine/Trust/Admissions.antt =====
-- What an admission by src/quantforge/engine/trust.py says of the run: that it is the run, and the case
-- revision, that the receipt was issued for.
use quantforge_ai.Common.{
  ℕ, ◌≡◌, ◌∙◌, refl, sym, ap, subst, true, false, not, ◌||◌, String, [], Option, ok, raise_if,
  raise_if-eq-ok, >>=-eq-ok, >>-eq-ok, ok-injective, ==→≡, ≡→==, is_empty, string_eq, nat_eq, arith,
}
use quantforge_ai.Evidence.Bundle.{
  EvidenceBundleSemantic, EvidenceBundle, BundleDigests, BundleSigner, engine_identity_eq,
  invocation_eq, semantic_identities_eq, observations_eq, validator_results_eq, fact_references_eq,
  integrity, bundle_of, create,
}
use quantforge_ai.Engine.Run.{EngineRun, Binding, semantic_of, observations_of, evidence_bundle}
use quantforge_ai.Engine.Trust.{
  TrustedReceiptRecord, receipt_record_eq, Sources, receipt_record, TrustedExecutionReceipt,
  new_receipt, TrustedAdmissionCapability, binding_of, capability_for, consume_receipt,
  artifact_hashes, by_path, check_capability, consume_capability, issue_receipt,
}
use quantforge_ai.Engine.Trust.Contents.{
  HoldsRun, differs-HoldsRun, NoCollision, same_contents, HoldsRun-subst,
}
use quantforge_ai.Engine.Trust.Receipts.{capability_for-Granted, Attempt}

module _ (fingerprint : EngineRun → String) where
  -- What an admission has been through: a receipt was issued, it gave a capability for a bundle, and the capability
  -- was consumed with a bundle, the case of an audit event, and a revision.
  pub record Admitted : Type 0 where
    pub run : EngineRun
    pub binding : Binding
    pub sources : Sources
    pub nonce : String
    pub receipt : TrustedExecutionReceipt
    pub issued : issue_receipt fingerprint run binding sources nonce ≡ ok receipt
    pub attempt : Attempt fingerprint
    pub capability : TrustedAdmissionCapability
    pub given :
        (consume_receipt fingerprint receipt attempt.run attempt.bundle attempt.sources).0
        ≡ ok capability
    pub bundle : EvidenceBundle
    pub event_case_id : String
    pub expected_revision : ℕ
    pub used : (consume_capability capability bundle event_case_id expected_revision).0 ≡ ok tt
    -- A bundle that exists has passed its validator.
    pub digests : BundleDigests
    pub given_whole : integrity digests attempt.bundle ≡ ok tt
    pub whole : integrity digests bundle ≡ ok tt

  -- The admission is that of the issued run, case and revision.
  pub record IsBoundTo (a : Admitted) : Type 0 where
    pub same_run : fingerprint a.attempt.run ≡ fingerprint a.run
    pub same_constitution : a.bundle.semantic.constitution_hash ≡ a.binding.constitution_hash
    pub same_amendments : a.bundle.semantic.amendment_chain_hash ≡ a.binding.amendment_chain_hash
    pub same_sources : a.attempt.sources ≡ a.sources
    pub same_semantic : a.bundle.semantic ≡ a.attempt.bundle.semantic
    pub same_observations : a.bundle.observations ≡ a.attempt.bundle.observations
    pub bundle_case : a.bundle.semantic.case_id ≡ a.binding.case_id
    pub bundle_revision : a.bundle.semantic.workflow_revision ≡ a.binding.workflow_revision
    pub event_case : a.event_case_id ≡ a.binding.case_id
    pub revision : a.expected_revision ≡ a.binding.workflow_revision
    pub holds_run : HoldsRun a.attempt.run a.bundle

  pub record IsRecordOf (t : TrustedReceiptRecord) (r : EngineRun) (b : Binding) (s : Sources)
      : Type 0 where
    pub case_id : t.case_id ≡ b.case_id
    pub workflow_revision : t.workflow_revision ≡ b.workflow_revision
    pub constitution_hash : t.constitution_hash ≡ b.constitution_hash
    pub amendment_chain_hash : t.amendment_chain_hash ≡ b.amendment_chain_hash
    pub configuration : t.configuration_semantic_sha256 ≡ s.configuration_semantic_sha256
    pub repository : t.repository_snapshot_sha256 ≡ s.repository_snapshot_sha256
    pub validator_source : t.validator_source_sha256 ≡ s.validator_source_sha256
    pub run_fingerprint : t.run_fingerprint ≡ fingerprint r

  receipt_record-IsRecordOf :
      (t : TrustedReceiptRecord) (r : EngineRun) (b : Binding) (s : Sources)
      → receipt_record fingerprint r b s ≡ ok t
      → IsRecordOf t r b s
  unfolding receipt_record
  receipt_record-IsRecordOf t r b s h =
      let (ins, _, h1) =
        >>=-eq-ok (artifact_hashes (by_path [] r.input_semantics) r.input_observations) _ h in
      let (outs, _, h2) =
        >>=-eq-ok (artifact_hashes (by_path [] r.output_semantics) r.output_observations) _ h1 in
      let t_eq = sym (ok-injective h2) in
      record {
        case_id = ap (λ (x : TrustedReceiptRecord). x.case_id) t_eq;
        workflow_revision = ap (λ (x : TrustedReceiptRecord). x.workflow_revision) t_eq;
        constitution_hash = ap (λ (x : TrustedReceiptRecord). x.constitution_hash) t_eq;
        amendment_chain_hash = ap (λ (x : TrustedReceiptRecord). x.amendment_chain_hash) t_eq;
        configuration = ap (λ (x : TrustedReceiptRecord). x.configuration_semantic_sha256) t_eq;
        repository = ap (λ (x : TrustedReceiptRecord). x.repository_snapshot_sha256) t_eq;
        validator_source = ap (λ (x : TrustedReceiptRecord). x.validator_source_sha256) t_eq;
        run_fingerprint = ap (λ (x : TrustedReceiptRecord). x.run_fingerprint) t_eq;
      }

  issue_receipt-IsRecordOf :
      (r : EngineRun) (b : Binding) (s : Sources) (nonce : String) (t : TrustedExecutionReceipt)
      → issue_receipt fingerprint r b s nonce ≡ ok t
      → IsRecordOf t.receipt r b s
  unfolding issue_receipt new_receipt
  issue_receipt-IsRecordOf r b s nonce t h =
      let (_, h1) = >>-eq-ok (raise_if (is_empty r.validators) _) _ h in
      let (receipt, made, h2) = >>=-eq-ok (receipt_record fingerprint r b s) _ h1 in
      subst (λ (x : TrustedExecutionReceipt). IsRecordOf x.receipt r b s) (ok-injective h2)
        (receipt_record-IsRecordOf receipt r b s made)

  -- Where the digests of the bundle that the capability was given for and of the admitted bundle do not collide, the
  -- admission is of the run by fingerprint, the case, the revision, the constitution, the amendments and the sources that
  -- its receipt was issued for; and the admitted bundle has the contents of the other one: the run's engine, invocation,
  -- configuration, artifacts with their observations, validator results and numeric facts.
  pub Admitted-IsBoundTo :
      (a : Admitted) → NoCollision a.digests a.bundle a.attempt.bundle → IsBoundTo a
  unfolding consume_receipt consume_capability check_capability binding_of
  Admitted-IsBoundTo a free =
      let g =
        capability_for-Granted fingerprint a.receipt a.attempt.run a.attempt.bundle
          a.attempt.sources a.capability a.given in
      let from_issue =
        issue_receipt-IsRecordOf a.run a.binding a.sources a.nonce a.receipt a.issued in
      let from_use =
        receipt_record-IsRecordOf a.receipt.receipt a.attempt.run (binding_of a.attempt.bundle)
          a.attempt.sources g.bound in
      let (_, checks) =
        >>-eq-ok (raise_if (not a.capability.authority || a.capability.consumed) _) _ a.used in
      let none_differ = raise_if-eq-ok _ _ checks in
      let case_bound : a.capability.case_id ≡ a.binding.case_id =
        ap (λ (c : TrustedAdmissionCapability). c.case_id) g.granted
        ∙ sym from_use.case_id
        ∙ from_issue.case_id in
      let revision_bound : a.capability.workflow_revision ≡ a.binding.workflow_revision =
        ap (λ (c : TrustedAdmissionCapability). c.workflow_revision) g.granted
        ∙ sym from_use.workflow_revision
        ∙ from_issue.workflow_revision in
      let same_hash : a.bundle.bundle_hash ≡ a.attempt.bundle.bundle_hash =
        ==→≡ a.bundle.bundle_hash a.capability.bundle_hash (ground (arith, none_differ))
        ∙ ap (λ (c : TrustedAdmissionCapability). c.bundle_hash) g.granted in
      let (semantic, observations) =
        same_contents a.digests a.bundle a.attempt.bundle a.whole a.given_whole free same_hash in
      record {
        same_run = sym from_use.run_fingerprint ∙ from_issue.run_fingerprint;
        same_constitution =
            ap (λ (z : EvidenceBundleSemantic). z.constitution_hash) semantic
            ∙ sym from_use.constitution_hash
            ∙ from_issue.constitution_hash;
        same_amendments =
            ap (λ (z : EvidenceBundleSemantic). z.amendment_chain_hash) semantic
            ∙ sym from_use.amendment_chain_hash
            ∙ from_issue.amendment_chain_hash;
        same_sources = λ i. record {
          configuration_semantic_sha256 = (sym from_use.configuration ∙ from_issue.configuration) i;
          repository_snapshot_sha256 = (sym from_use.repository ∙ from_issue.repository) i;
          validator_source_sha256 = (sym from_use.validator_source ∙ from_issue.validator_source) i;
        };
        same_semantic = semantic;
        same_observations = observations;
        bundle_case =
            ==→≡ a.bundle.semantic.case_id a.capability.case_id (ground (arith, none_differ))
            ∙ case_bound;
        bundle_revision =
            ==→≡ a.bundle.semantic.workflow_revision a.capability.workflow_revision
              (ground (arith, none_differ))
            ∙ revision_bound;
        event_case =
            ==→≡ a.event_case_id a.capability.case_id (ground (arith, none_differ)) ∙ case_bound;
        revision =
            ==→≡ a.expected_revision a.capability.workflow_revision (ground (arith, none_differ))
            ∙ revision_bound;
        holds_run =
            HoldsRun-subst a.attempt.run a.bundle a.attempt.bundle semantic observations
              (differs-HoldsRun a.attempt.run a.attempt.bundle g.faithful);
      }

  -- A receipt gives a capability for a bundle, and the capability admits it for the case and the revision.
  abbrev pub Admits :
      EngineRun → Binding → Sources → TrustedExecutionReceipt → EvidenceBundle → Type 0
  Admits r b s t bundle =
      (c : TrustedAdmissionCapability) × ((consume_receipt fingerprint t r bundle s).0 ≡ ok c)
      × ((consume_capability c bundle b.case_id b.workflow_revision).0 ≡ ok tt)

  own_bundle-Admits :
      (d : BundleDigests) (r : EngineRun) (b : Binding) (s : Sources)
      (nonce bundle_id previous_bundle_hash : String) (admitted_at : ℕ)
      (signer : Option BundleSigner) (receipt : TrustedReceiptRecord)
      → receipt_record fingerprint r b s ≡ ok receipt
      → Admits r b s
          (record { authority = true; receipt = receipt; nonce = nonce; consumed = false })
          (bundle_of d
            (semantic_of r b bundle_id previous_bundle_hash)
            (observations_of r admitted_at)
            signer)
  unfolding bundle_of semantic_of observations_of consume_receipt capability_for consume_capability
      check_capability binding_of
  own_bundle-Admits d r b s nonce bundle_id previous_bundle_hash admitted_at signer receipt
        recorded =
      let hash =
        d.bundle (d.observations (observations_of r admitted_at))
          (d.semantic (semantic_of r b bundle_id previous_bundle_hash)) in
      (
        record {
          authority = true;
          bundle_hash = hash;
          case_id = b.case_id;
          workflow_revision = b.workflow_revision;
          nonce = nonce;
          consumed = false;
        },
        ground (
          arith,
          recorded,
          ≡→== receipt receipt refl,
          ≡→== r.engine r.engine refl,
          ≡→== r.invocation r.invocation refl,
          ≡→== r.configuration_sha256 r.configuration_sha256 refl,
          ≡→== r.input_semantics r.input_semantics refl,
          ≡→== r.output_semantics r.output_semantics refl,
          ≡→== r.validators r.validators refl,
          ≡→== r.numeric_facts r.numeric_facts refl,
          ≡→== r.input_observations r.input_observations refl,
          ≡→== r.output_observations r.output_observations refl,
        ),
        ground (
          arith,
          ≡→== hash hash refl,
          ≡→== b.case_id b.case_id refl,
          ≡→== b.workflow_revision b.workflow_revision refl,
        ),
      )

  -- A receipt that was issued for a run admits the run's own evidence bundle: the receipt gives a capability for it, and
  -- the capability admits it for the case and the revision.
  pub issued-Admits :
      (d : BundleDigests) (r : EngineRun) (b : Binding) (s : Sources)
      (nonce bundle_id previous_bundle_hash : String) (admitted_at : ℕ)
      (signer : Option BundleSigner) (t : TrustedExecutionReceipt) (bundle : EvidenceBundle)
      → issue_receipt fingerprint r b s nonce ≡ ok t
      → evidence_bundle d r b bundle_id previous_bundle_hash admitted_at signer ≡ ok bundle
      → Admits r b s t bundle
  unfolding issue_receipt new_receipt evidence_bundle create
  issued-Admits d r b s nonce bundle_id previous_bundle_hash admitted_at signer t bundle issued
        made =
      let (present, h1) = >>-eq-ok (raise_if (is_empty r.validators) _) _ issued in
      let (receipt, recorded, h2) = >>=-eq-ok (receipt_record fingerprint r b s) _ h1 in
      let t_eq = ok-injective h2 in
      let (checked, made2) = >>-eq-ok _ (create d _ _ signer) made in
      let (whole, made3) = >>-eq-ok (integrity d _) _ made2 in
      let bundle_eq = ok-injective made3 in
      subst (λ (x : TrustedExecutionReceipt). Admits r b s x bundle) t_eq
        (subst
          (Admits r b s
            (record { authority = true; receipt = receipt; nonce = nonce; consumed = false }))
          bundle_eq
          (own_bundle-Admits d r b s nonce bundle_id previous_bundle_hash admitted_at signer receipt
            recorded))
