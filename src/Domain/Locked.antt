-- ===== src/Domain/Locked.antt =====
-- The `integrity` validators of src/quantforge/domain/models.py: the constitution, its amendments, and
-- the evidence objects, each of which carries a hash of what it holds.
use quantforge_ai.Common.{
  ℕ, suc, Bool, true, false, not, ◌&&◌, ◌||◌, String, List, [], ◌∷◌, ◌++◌, map, Option, none, some,
  value_error, Result, ok, raise_if, ◌>>=◌, ◌>>◌, length, if◌then◌else◌, ◌==◌, any, contains,
  is_empty, is_unique, same_set, string_eq, nat_eq, eqb,
}
use quantforge_ai.Domain.Enums.{
  AmendmentClassification, amendment_classification_eq, RoleName, role_name_eq, measure_unit_eq,
}
use quantforge_ai.Domain.Json.{JsonValue, JsonItems, JsonFields}
use quantforge_ai.Domain.Text.{codes, has_prefix, has_infix, replace_slash}
use quantforge_ai.Domain.Constitution.{ExperimentConstitution, ConstitutionAmendment}
use quantforge_ai.Domain.Evidence.{NumericFact, EvidenceObject}
use quantforge_ai.Domain.Platform.{Platform}
use quantforge_ai.Domain.Validate.{min_length, scientific_identity}
use quantforge_ai.Serialization.CanonicalDecimal.{canonical_decimal}

unfoldable pub constitution_integrity : Platform → ExperimentConstitution → Result (Unit {0})
constitution_integrity p c = do
  scientific_identity c.proposal
  raise_if (not c.human_approval.approved)
      (value_error "constitution requires explicit human approval")
  raise_if (not (c.human_approval.experiment_id == c.experiment_id))
      (value_error "approval and constitution experiment mismatch")
  raise_if (not (c.proposal.experiment_id == c.experiment_id))
      (value_error "proposal and constitution experiment mismatch")
  raise_if (not (c.human_approval.proposal_hash == p.sha_proposal c.proposal))
      (value_error "approval does not bind the proposal")
  raise_if (not (p.sha_constitution c.body == c.constitution_hash))
      (value_error "constitution hash mismatch")

-- `key.casefold().replace("/", ".")`
unfoldable pub normalized_key : Platform → String → List ℕ
normalized_key p key = replace_slash (codes (p.casefold key))

-- `normalized_keys`, the keys of the object itself
unfoldable pub top_keys : Platform → JsonFields → List (List ℕ)
top_keys p JsonFields.end = []
top_keys p (JsonFields.field key v rest) = normalized_key p key ∷ top_keys p rest

-- `collect_keys`: the keys of an object and of all that it holds, at any depth
unfoldable mutual
  pub collect_keys : Platform → JsonValue → List (List ℕ)
  collect_keys p (JsonValue.array items) = collect_items p items
  collect_keys p (JsonValue.object fields) = collect_fields p fields
  collect_keys p _ = []

  pub collect_items : Platform → JsonItems → List (List ℕ)
  collect_items p JsonItems.nil = []
  collect_items p (JsonItems.cons v rest) = collect_keys p v ++ collect_items p rest

  pub collect_fields : Platform → JsonFields → List (List ℕ)
  collect_fields p JsonFields.end = []
  collect_fields p (JsonFields.field key v rest) =
      normalized_key p key ∷ (collect_keys p v ++ collect_fields p rest)

-- `forbidden_fragments`
abbrev pub forbidden_fragments : List String
forbidden_fragments = "primary_hypothesis" ∷ "null_hypothesis" ∷ "failure_criteria" ∷ []

-- A key holds one of the forbidden fragments.
unfoldable pub is_forbidden : List ℕ → Bool
is_forbidden key = any (λ fragment. has_infix (codes fragment) key) forbidden_fragments

-- The table `permitted_prefixes`
abbrev pub permitted_prefixes : AmendmentClassification → List String
permitted_prefixes AmendmentClassification.administrative = "metadata." ∷ "display_label" ∷ []
permitted_prefixes AmendmentClassification.exploratory = "exploratory." ∷ []
permitted_prefixes AmendmentClassification.reviewer_requested = "follow_up." ∷ "robustness." ∷ []

unfoldable pub is_permitted_key : AmendmentClassification → List ℕ → Bool
is_permitted_key c key = any (λ prefix. has_prefix (codes prefix) key) (permitted_prefixes c)

-- The table `permitted_roles`
abbrev pub permitted_roles : AmendmentClassification → List RoleName
permitted_roles AmendmentClassification.administrative =
    RoleName.researcher ∷ RoleName.human_approver ∷ RoleName.system ∷ []
permitted_roles AmendmentClassification.exploratory = RoleName.researcher ∷ []
permitted_roles AmendmentClassification.reviewer_requested =
    RoleName.methodology_auditor ∷ RoleName.statistical_reviewer ∷ RoleName.adversarial_reviewer
    ∷ RoleName.reproducibility_reviewer ∷ []

unfoldable pub amendment_integrity : Platform → ConstitutionAmendment → Result (Unit {0})
amendment_integrity p a = do
  raise_if (any is_forbidden (top_keys p a.changes ++ collect_fields p a.changes))
      (value_error "amendments cannot rewrite primary or null hypotheses")
  raise_if
      (is_empty (top_keys p a.changes)
        || any (λ key. not (is_permitted_key a.classification key)) (top_keys p a.changes))
      (value_error "amendment changes do not match their classification")
  raise_if (not (contains a.author_role (permitted_roles a.classification)))
      (value_error "amendment author is not permitted for the classification")
  raise_if (not (p.sha_amendment a.body == a.amendment_hash))
      (value_error "amendment hash mismatch")

-- `self.content.get(key)`
unfoldable pub get_field : String → JsonFields → Option JsonValue
get_field key JsonFields.end = none
get_field key (JsonFields.field k v rest) = if k == key then some v else get_field key rest

abbrev pub fields_length : JsonFields → ℕ
fields_length JsonFields.end = 0
fields_length (JsonFields.field k v rest) = suc (fields_length rest)

unfoldable pub same_text : List ℕ → List ℕ → Bool
same_text [] [] = true
same_text (c ∷ s) (d ∷ t) = eqb c d && same_text s t
same_text _ _ = false

-- The value is the expected text.
abbrev pub is_text : List ℕ → Option JsonValue → Bool
is_text expected (some (JsonValue.text s)) = same_text (codes s) expected
is_text expected _ = false

-- The entry of `expected_facts` that a fact makes is an entry of the object.
unfoldable pub has_fact : JsonFields → NumericFact → Result Bool
has_fact fields f = do
  text ← canonical_decimal f.value
  ok (is_text text (get_field f.fact_id fields))

unfoldable pub have_facts : JsonFields → List NumericFact → Result Bool
unfolding has_fact
have_facts fields [] = ok true
have_facts fields (f ∷ fs) = do
  here ← has_fact fields f
  rest ← have_facts fields fs
  ok (here && rest)

-- `self.content.get("facts") == expected_facts`: the fact identifiers are distinct here, and so are
-- the keys of an object, so the two are equal if they have as many entries and the object has each
-- that is expected.
unfoldable pub facts_match : Option JsonValue → List NumericFact → Result Bool
unfolding have_facts
facts_match (some (JsonValue.object fields)) facts = do
  found ← have_facts fields facts
  ok (eqb (fields_length fields) (length facts) && found)
facts_match _ facts = do _ ← have_facts JsonFields.end facts; ok false

unfoldable pub evidence_integrity : Platform → EvidenceObject → Result (Unit {0})
unfolding facts_match
evidence_integrity p e = do
  min_length e.claim_ids
  raise_if (not (p.sha_content e.content == e.content_sha256))
      (value_error "evidence content hash mismatch")
  raise_if (not (is_unique (map (λ (f : NumericFact). f.fact_id) e.numeric_facts)))
      (value_error "duplicate numeric fact identifier")
  raise_if (not (is_unique e.claim_ids)) (value_error "duplicate evidence claim identifier")
  raise_if
      (not (is_unique e.units)
        || not (same_set e.units (map (λ (f : NumericFact). f.unit) e.numeric_facts)))
      (value_error "evidence units must exactly match numeric fact units")
  matching ← facts_match (get_field "facts" e.content) e.numeric_facts
  raise_if (not matching)
      (value_error "structured numeric facts do not match hashed evidence content")
