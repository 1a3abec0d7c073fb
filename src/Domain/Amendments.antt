-- ===== src/Domain/Amendments.antt =====
-- What the amendments that src/quantforge/domain/models.py accepts can change.
use quantforge_ai.Common.{
  ◌≡◌, refl, Bool, true, false, not, ◌||◌, String, List, [], ◌∷◌, ◌++◌, ok, raise_if,
  raise_if-eq-ok, >>-eq-ok, any, any-eq-false, All, All-map, contains, is_empty, ==→≡, string_eq, ℕ,
  arith,
}
use quantforge_ai.Domain.Enums.{role_name_eq}
use quantforge_ai.Domain.Json.{JsonValue, JsonItems, JsonFields}
use quantforge_ai.Domain.Constitution.{ConstitutionAmendment}
use quantforge_ai.Domain.Platform.{Platform}
use quantforge_ai.Domain.Locked.{
  normalized_key, top_keys, collect_keys, collect_items, collect_fields, is_forbidden,
  is_permitted_key, permitted_roles, amendment_integrity,
}

-- An object, a list or any value of JSON has the key somewhere inside.
mutual
  pub data InValue (key : String) : JsonValue → Type 0 where
    in_array : {items : JsonItems} → InItems key items → InValue key (JsonValue.array items)
    in_object : {fields : JsonFields} → InFields key fields → InValue key (JsonValue.object fields)

  pub data InItems (key : String) : JsonItems → Type 0 where
    first : {v : JsonValue} {rest : JsonItems} → InValue key v → InItems key (JsonItems.cons v rest)
    later :
        {v : JsonValue} {rest : JsonItems} → InItems key rest → InItems key (JsonItems.cons v rest)

  pub data InFields (key : String) : JsonFields → Type 0 where
    here : {v : JsonValue} {rest : JsonFields} → InFields key (JsonFields.field key v rest)
    inside :
        {k : String} {v : JsonValue} {rest : JsonFields}
        → InValue key v
        → InFields key (JsonFields.field k v rest)
    after :
        {k : String} {v : JsonValue} {rest : JsonFields}
        → InFields key rest
        → InFields key (JsonFields.field k v rest)

any-append_false {ℓ} :
    {A : Type ℓ} (f : A → Bool) (xs ys : List A)
    → any f (xs ++ ys) ≡ false
    → (any f xs ≡ false) × (any f ys ≡ false)
unfolding any
any-append_false f [] ys h = (refl, h)
any-append_false f (x ∷ xs) ys h =
    (ground (arith, any-append_false f xs ys), ground (arith, any-append_false f xs ys))

any-cons_false {ℓ} :
    {A : Type ℓ} (f : A → Bool) (x : A) (xs : List A)
    → any f (x ∷ xs) ≡ false
    → (f x ≡ false) × (any f xs ≡ false)
unfolding any
any-cons_false f x xs h = (ground arith, ground arith)

mutual
  unfolding collect_keys collect_items collect_fields

  collected_value :
      (p : Platform) (f : List ℕ → Bool) (key : String) {v : JsonValue}
      → InValue key v
      → any f (collect_keys p v) ≡ false
      → f (normalized_key p key) ≡ false
  collected_value p f key (in_array o) h = collected_items p f key o h
  collected_value p f key (in_object o) h = collected_fields p f key o h

  collected_items :
      (p : Platform) (f : List ℕ → Bool) (key : String) {items : JsonItems}
      → InItems key items
      → any f (collect_items p items) ≡ false
      → f (normalized_key p key) ≡ false
  collected_items p f key (first o) h = collected_value p f key o (any-append_false f _ _ h).0
  collected_items p f key (later o) h = collected_items p f key o (any-append_false f _ _ h).1

  collected_fields :
      (p : Platform) (f : List ℕ → Bool) (key : String) {fields : JsonFields}
      → InFields key fields
      → any f (collect_fields p fields) ≡ false
      → f (normalized_key p key) ≡ false
  collected_fields p f key here h = (any-cons_false f _ _ h).0
  collected_fields p f key (inside o) h =
      collected_value p f key o (any-append_false f _ _ (any-cons_false f _ _ h).1).0
  collected_fields p f key (after o) h =
      collected_fields p f key o (any-append_false f _ _ (any-cons_false f _ _ h).1).1

-- What an accepted amendment is
pub record IsAdmissible (p : Platform) (a : ConstitutionAmendment) : Type 0 where
  pub changes_something : is_empty (top_keys p a.changes) ≡ false
  pub keeps_hypotheses :
      (key : String) → InFields key a.changes → is_forbidden (normalized_key p key) ≡ false
  pub stays_in_class :
      All (λ key. is_permitted_key a.classification key ≡ true) (top_keys p a.changes)
  pub author_permitted : contains a.author_role (permitted_roles a.classification) ≡ true
  pub hash_binds : p.sha_amendment a.body ≡ a.amendment_hash

-- An amendment that is accepted changes something; no key of its changes, however deep, holds the name
-- of a hypothesis or of the failure criteria; every key of the object itself begins with a prefix of its
-- classification; its author has a role of that classification; and its hash is the hash of the rest.
pub amendment_integrity-IsAdmissible :
    (p : Platform) (a : ConstitutionAmendment) → amendment_integrity p a ≡ ok tt → IsAdmissible p a
unfolding amendment_integrity
amendment_integrity-IsAdmissible p a h =
    let (f, h1) =
      >>-eq-ok (raise_if (any is_forbidden (top_keys p a.changes ++ collect_fields p a.changes)) _)
        _ h in
    let (k, h2) = >>-eq-ok (raise_if (is_empty (top_keys p a.changes) || _) _) _ h1 in
    let (r, s) =
      >>-eq-ok (raise_if (not (contains a.author_role (permitted_roles a.classification))) _) _
        h2 in
    let clean =
      any-append_false is_forbidden (top_keys p a.changes) (collect_fields p a.changes)
        (raise_if-eq-ok _ _ f) in
    let keys = raise_if-eq-ok _ _ k in
    record {
      changes_something = ground (arith, keys);
      keeps_hypotheses = λ key o. collected_fields p is_forbidden key o clean.1;
      stays_in_class =
          All-map {Q = λ key. is_permitted_key a.classification key ≡ true}
            (λ key (q : not (is_permitted_key a.classification key) ≡ false). ground arith)
            (top_keys p a.changes)
            (any-eq-false (λ key. not (is_permitted_key a.classification key))
              (top_keys p a.changes) (ground (arith, keys)));
      author_permitted = ground (arith, raise_if-eq-ok _ _ r);
      hash_binds =
          ==→≡ (p.sha_amendment a.body) a.amendment_hash (ground (arith, raise_if-eq-ok _ _ s));
    }
