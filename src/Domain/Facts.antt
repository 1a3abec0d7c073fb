-- ===== src/Domain/Facts.antt =====
-- What an evidence object that passes its validation (src/quantforge/domain/models.py) shows of its facts.
use quantforge_ai.Common.{
  ◌≡◌, refl, Bool, true, false, not, ◌&&◌, ◌||◌, List, [], ◌∷◌, map, Option, none, some, Result, ok,
  err, raise_if, raise_if-eq-ok, ok-injective, ◌>>=◌, >>-eq-ok, >>=-eq-ok, ◌==◌, ==→≡, string_eq,
  is_unique, same_set, length, eqb, arith, All, ℕ,
}
use quantforge_ai.Domain.Enums.{measure_unit_eq}
use quantforge_ai.Domain.Json.{JsonValue, JsonFields}
use quantforge_ai.Domain.Evidence.{NumericFact, EvidenceObject}
use quantforge_ai.Domain.Platform.{Platform}
use quantforge_ai.Domain.Validate.{min_length}
use quantforge_ai.Domain.Locked.{
  get_field, fields_length, is_text, has_fact, have_facts, facts_match, evidence_integrity,
}
use quantforge_ai.Serialization.CanonicalDecimal.{canonical_decimal}

-- The object has the canonical text of the fact's value under the fact's identifier.
abbrev pub IsHeld : JsonFields → NumericFact → Type 0
IsHeld fields f =
    (text : List ℕ) × (canonical_decimal f.value ≡ ok text)
    × (is_text text (get_field f.fact_id fields) ≡ true)

have_facts-All :
    (fields : JsonFields) (fs : List NumericFact)
    → have_facts fields fs ≡ ok true
    → All (IsHeld fields) fs
unfolding have_facts has_fact
have_facts-All fields [] h = tt
have_facts-All fields (f ∷ fs) h =
    let (here, a, h1) = >>=-eq-ok (has_fact fields f) _ h in
    let (rest, b, k) = >>=-eq-ok (have_facts fields fs) _ h1 in
    let both : (here && rest) ≡ true = ok-injective k in
    let (text, c, l) = >>=-eq-ok (canonical_decimal f.value) _ a in
    let q : is_text text (get_field f.fact_id fields) ≡ here = ok-injective l in
    ((text, c, ground (arith, both, q)), have_facts-All fields fs (ground (arith, both, b)))

-- The facts of the object, and of its content
pub record IsStructured (content : JsonFields) (fs : List NumericFact) : Type 0 where
  pub fields : JsonFields
  pub found : get_field "facts" content ≡ some (JsonValue.object fields)
  pub held : All (IsHeld fields) fs
  pub no_more : fields_length fields ≡ length fs

never_matches : (r : Result Bool) → (r >>= λ _. ok false) ≡ ok true → ⊥
never_matches (ok b) h = cc
never_matches (err e) h = cc

facts_match-IsStructured :
    (content : JsonFields) (o : Option JsonValue) (fs : List NumericFact)
    → get_field "facts" content ≡ o
    → facts_match o fs ≡ ok true
    → IsStructured content fs
unfolding facts_match
facts_match-IsStructured content (some (JsonValue.object fields)) fs q h =
    let (found, a, k) = >>=-eq-ok (have_facts fields fs) _ h in
    let both : (eqb (fields_length fields) (length fs) && found) ≡ true = ok-injective k in
    record {
      fields = fields;
      found = q;
      held = have_facts-All fields fs (ground (arith, both, a));
      no_more = ground (arith, both);
    }
facts_match-IsStructured content none fs q h =
    absurd (never_matches (have_facts JsonFields.end fs) h)
facts_match-IsStructured content (some _) fs q h =
    absurd (never_matches (have_facts JsonFields.end fs) h)

-- What an accepted evidence object is
pub record IsWitnessed (p : Platform) (e : EvidenceObject) : Type 0 where
  pub hash_binds : p.sha_content e.content ≡ e.content_sha256
  pub distinct_facts : is_unique (map (λ (f : NumericFact). f.fact_id) e.numeric_facts) ≡ true
  pub distinct_claims : is_unique e.claim_ids ≡ true
  pub same_units : same_set e.units (map (λ (f : NumericFact). f.unit) e.numeric_facts) ≡ true
  pub structured : IsStructured e.content e.numeric_facts

-- An evidence object that is accepted has the digest of its content, distinct facts, distinct claims,
-- and the units of its facts; and its content has under "facts" an object with as many entries as
-- there are facts, of which each has its canonical text there under its identifier.
pub evidence_integrity-IsWitnessed :
    (p : Platform) (e : EvidenceObject) → evidence_integrity p e ≡ ok tt → IsWitnessed p e
unfolding evidence_integrity
evidence_integrity-IsWitnessed p e h =
    let (_, h1) = >>-eq-ok (min_length e.claim_ids) _ h in
    let (d, h2) = >>-eq-ok (raise_if (not (p.sha_content e.content == e.content_sha256)) _) _ h1 in
    let (u, h3) =
      >>-eq-ok (raise_if (not (is_unique (map (λ (f : NumericFact). f.fact_id) e.numeric_facts))) _)
        _ h2 in
    let (c, h4) = >>-eq-ok (raise_if (not (is_unique e.claim_ids)) _) _ h3 in
    let (s, h5) =
      >>-eq-ok
        (raise_if
          (not (is_unique e.units)
            || not (same_set e.units (map (λ (f : NumericFact). f.unit) e.numeric_facts)))
          _)
        _ h4 in
    let (m, a, k) = >>=-eq-ok (facts_match (get_field "facts" e.content) e.numeric_facts) _ h5 in
    let matches : facts_match (get_field "facts" e.content) e.numeric_facts ≡ ok true =
      ground (arith, a, raise_if-eq-ok _ _ k) in
    record {
      hash_binds =
          ==→≡ (p.sha_content e.content) e.content_sha256 (ground (arith, raise_if-eq-ok _ _ d));
      distinct_facts = ground (arith, raise_if-eq-ok _ _ u);
      distinct_claims = ground (arith, raise_if-eq-ok _ _ c);
      same_units = ground (arith, raise_if-eq-ok _ _ s);
      structured =
          facts_match-IsStructured e.content (get_field "facts" e.content) e.numeric_facts refl
            matches;
    }
