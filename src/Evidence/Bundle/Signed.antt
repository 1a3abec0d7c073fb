-- ===== src/Evidence/Bundle/Signed.antt =====
-- Which bundles `EvidenceBundle.create` of src/quantforge/evidence/bundle.py makes.
use quantforge_ai.Common.{
  ◌≡◌, ◌↔◌, refl, sym, true, false, not, ◌||◌, String, map, Option, none, some, ok, raise_if,
  raise_if-eq-ok, >>-eq-ok, ok-injective, ◌==◌, ≡→==, same_set, string_eq, arith,
}
use quantforge_ai.Evidence.Bundle.{
  EvidenceBundleSemantic, EvidenceBundleObservations, EvidenceBundle, BundleDigests, BundleSigner,
  path_of, observed_path, signed, signs_another, integrity, bundle_of, create,
}
use quantforge_ai.Evidence.Bundle.Admission.{hmac_verify, hmac_signer}

-- The semantic and the observed inventories name the same artifacts.
pub record SameInventories (semantic : EvidenceBundleSemantic)
    (observations : EvidenceBundleObservations) : Type 0 where
  pub inputs :
      same_set
        (map path_of semantic.input_artifacts)
        (map observed_path observations.input_artifacts)
      ≡ true
  pub outputs :
      same_set
        (map path_of semantic.output_artifacts)
        (map observed_path observations.output_artifacts)
      ≡ true

-- A signer signs the hash that it is given.
abbrev pub SignsIts : Option BundleSigner → Type 0
SignsIts none = Unit
SignsIts (some s) = (hash : String) → (s.sign hash).signed_hash ≡ hash

own_signature :
    (signer : Option BundleSigner) (hash : String)
    → SignsIts signer
    → signs_another hash (signed signer hash) ≡ false
own_signature none hash h = refl
own_signature (some s) hash h = ground (arith, ≡→== (s.sign hash).signed_hash hash (h hash))

integrity_inventories :
    (d : BundleDigests) (b : EvidenceBundle)
    → integrity d b ≡ ok tt
    → SameInventories b.semantic b.observations
unfolding integrity
integrity_inventories d b h =
    let (_, h1) = >>-eq-ok (raise_if (not (b.semantic_hash == d.semantic b.semantic)) _) _ h in
    let (_, h2) =
      >>-eq-ok (raise_if (not (b.observation_hash == d.observations b.observations)) _) _ h1 in
    let (_, h3) = >>-eq-ok (raise_if (not (b.bundle_hash == _)) _) _ h2 in
    let (checked, _) = >>-eq-ok (raise_if (not (same_set _ _) || not (same_set _ _)) _) _ h3 in
    let agree = raise_if-eq-ok _ _ checked in
    record { inputs = ground (arith, agree); outputs = ground (arith, agree) }

-- With a signer that signs the hash it is given, or none, create returns exactly if the inventories agree, and
-- then the bundle with the digests of its parts: no other check of its validator can fail.
pub create_iff :
    (d : BundleDigests) (semantic : EvidenceBundleSemantic)
    (observations : EvidenceBundleObservations) (signer : Option BundleSigner) (b : EvidenceBundle)
    → SignsIts signer
    → (create d semantic observations signer ≡ ok b)
      ↔ (SameInventories semantic observations × (b ≡ bundle_of d semantic observations signer))
unfolding create integrity bundle_of
create_iff d semantic observations signer b signs =
    let semantic_hash = d.semantic semantic in
    let observation_hash = d.observations observations in
    let hash = d.bundle observation_hash semantic_hash in
    let own = own_signature signer hash signs in
    (
      λ r.
          let (whole, last) = >>-eq-ok _ (ok _) r in
          let inventories =
            integrity_inventories d (bundle_of d semantic observations signer) whole in
          (inventories, sym (ok-injective last)),
      λ (inventories, b_eq). ground (
        arith,
        ≡→== semantic_hash semantic_hash refl,
        ≡→== observation_hash observation_hash refl,
        ≡→== hash hash refl,
        own,
        inventories.inputs,
        inventories.outputs,
        b_eq,
      ),
    )

-- The test signer verifies what it has signed.
pub hmac_verify-sign :
    (signer_id : String) (mac : String → String) (hash : String)
    → (hmac_signer signer_id mac).verify ((hmac_signer signer_id mac).sign hash) ≡ ok tt
unfolding hmac_signer hmac_verify
hmac_verify-sign signer_id mac hash =
    ground (arith, ≡→== signer_id signer_id refl, ≡→== (mac hash) (mac hash) refl)

pub hmac_signer-SignsIts :
    (signer_id : String) (mac : String → String) → SignsIts (some (hmac_signer signer_id mac))
unfolding hmac_signer
hmac_signer-SignsIts signer_id mac hash = refl
