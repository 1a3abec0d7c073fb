-- ===== src/Evidence/Ledger/Binding.antt =====
-- The invariant of the ledger: every item is bound to the ledger's case, experiment, constitution and
-- claims, identifiers are unique, and the dictionary holds exactly the items.
use quantforge_ai.Common.{
  ◌≡◌, refl, sym, ap, ◌∙◌, subst, true, false, not, String, List, [], ◌∷◌, ◌++◌, map, none, is_some,
  ok, ◌==◌, ==→≡, ≡→==, contains, any_of_All, is_unique, is_unique-append, is_subset, All,
  All-append, All-map, string_eq, arith,
}
use mathlib.Core.List.{map-append}
use quantforge_ai.Domain.Evidence.{EvidenceObject}
use quantforge_ai.Evidence.Ledger.{
  EvidenceLedger, id_of, unique_and_bound, new, lookup, store, append, snapshot_of, snapshot,
}

pub record Bound (l : EvidenceLedger) (e : EvidenceObject) : Type 0 where
  pub constitution : e.constitution_hash ≡ l.constitution_hash
  pub case : e.case_id ≡ l.case_id
  pub experiment : e.experiment_id ≡ l.experiment_id
  pub claims : is_subset e.claim_ids l.claim_ids ≡ true

abbrev pub entry : EvidenceObject → String × EvidenceObject
entry e = (e.evidence_id, e)

pub record IsBound (l : EvidenceLedger) : Type 0 where
  pub bound : All (Bound l) l.items
  pub unique : is_unique (map id_of l.items) ≡ true
  pub indexed : l.by_id ≡ map entry l.items

pub new-IsBound : (c x h : String) (claims : List String) → IsBound (new c x h claims)
unfolding new is_unique
new-IsBound c x h claims = record { bound = tt; unique = refl; indexed = refl }

-- The dictionary of some items has a key exactly if it is the identifier of one.
pub lookup_entries :
    (key : String) (es : List EvidenceObject)
    → is_some (lookup key (map entry es)) ≡ contains key (map id_of es)
unfolding lookup contains
lookup_entries key [] = refl
lookup_entries key (e ∷ es) = ground (
  arith,
  lookup_entries key es,
  ==→≡ e.evidence_id key,
  ≡→== e.evidence_id key,
  ==→≡ key e.evidence_id,
  ≡→== key e.evidence_id,
)

pub store_new :
    (key : String) (e : EvidenceObject) (d : List (String × EvidenceObject))
    → lookup key d ≡ none
    → store key e d ≡ d ++ (key, e) ∷ []
unfolding lookup store
store_new key e [] h = refl
store_new key e ((k, v) ∷ d) h = ground (arith, store_new key e d)

-- What an accepted `append` says of the evidence and of the ledger that it returns
pub record Appended (l : EvidenceLedger) (e : EvidenceObject) (l' : EvidenceLedger) : Type 0 where
  pub fresh : lookup e.evidence_id l.by_id ≡ none
  pub bound : Bound l e
  pub result : l' ≡ record l { items = l.items ++ e ∷ []; by_id = l.by_id ++ entry e ∷ [] }

append_tests :
    (l : EvidenceLedger) (e : EvidenceObject) {l' : EvidenceLedger}
    → append l e ≡ ok l'
    → (lookup e.evidence_id l.by_id ≡ none)
      × ((e.constitution_hash == l.constitution_hash) ≡ true)
      × ((e.case_id == l.case_id) ≡ true)
      × ((e.experiment_id == l.experiment_id) ≡ true)
      × (is_subset e.claim_ids l.claim_ids ≡ true)
      × (l' ≡ record l { items = l.items ++ e ∷ []; by_id = store e.evidence_id e l.by_id })
unfolding append
append_tests l e h = ground arith

pub append-eq-ok :
    (l : EvidenceLedger) (e : EvidenceObject) {l' : EvidenceLedger}
    → append l e ≡ ok l'
    → Appended l e l'
append-eq-ok l e h =
    let (f, c, a, x, s, r) = append_tests l e h in
    record {
      fresh = f;
      bound = record {
        constitution = ==→≡ e.constitution_hash l.constitution_hash c;
        case = ==→≡ e.case_id l.case_id a;
        experiment = ==→≡ e.experiment_id l.experiment_id x;
        claims = s;
      };
      result = cc (r, store_new e.evidence_id e l.by_id f);
    }

pub append-of_Bound :
    (l : EvidenceLedger) (e : EvidenceObject)
    → Bound l e
    → lookup e.evidence_id l.by_id ≡ none
    → append l e ≡ ok (record l { items = l.items ++ e ∷ []; by_id = l.by_id ++ entry e ∷ [] })
unfolding append
append-of_Bound l e b f = ground (
  arith,
  store_new e.evidence_id e l.by_id,
  ≡→== e.constitution_hash l.constitution_hash,
  ≡→== e.case_id l.case_id,
  ≡→== e.experiment_id l.experiment_id,
)

fresh_id :
    (l : EvidenceLedger) (e : EvidenceObject)
    → IsBound l
    → lookup e.evidence_id l.by_id ≡ none
    → contains e.evidence_id (map id_of l.items) ≡ false
fresh_id l e b f =
    sym (lookup_entries e.evidence_id l.items)
    ∙ (ap (λ d. is_some (lookup e.evidence_id d)) (sym b.indexed) ∙ ap is_some f)

abbrev extended : EvidenceLedger → EvidenceObject → EvidenceLedger
extended l e = record l { items = l.items ++ e ∷ []; by_id = l.by_id ++ entry e ∷ [] }

rebound :
    {l : EvidenceLedger} (e : EvidenceObject) (x : EvidenceObject)
    → Bound l x
    → Bound (extended l e) x
rebound e x b = record {
  constitution = b.constitution;
  case = b.case;
  experiment = b.experiment;
  claims = b.claims;
}

extended-IsBound :
    (l : EvidenceLedger) (e : EvidenceObject)
    → IsBound l
    → Bound l e
    → lookup e.evidence_id l.by_id ≡ none
    → IsBound (extended l e)
extended-IsBound l e b n f = record {
  bound = All-append _ l.items (e ∷ []) (All-map (rebound e) l.items b.bound) (rebound e e n, tt);
  unique =
      rw map-append
        (is_unique-append (map id_of l.items) e.evidence_id b.unique (fresh_id l e b f));
  indexed = rw map-append (ap (λ d. d ++ entry e ∷ []) b.indexed);
}

-- An accepted `append` keeps the invariant.
pub append-IsBound :
    (l : EvidenceLedger) (e : EvidenceObject) {l' : EvidenceLedger}
    → IsBound l
    → append l e ≡ ok l'
    → IsBound l'
append-IsBound l e b h =
    let a = append-eq-ok l e h in
    subst IsBound (sym a.result) (extended-IsBound l e b a.bound a.fresh)

passes : (x y : String) → x ≡ y → not (x == y) ≡ false
passes x y p = ground (arith, ≡→== x y p)

-- A ledger that satisfies the invariant has a snapshot, and the snapshot holds its items.
pub snapshot_total : (l : EvidenceLedger) → IsBound l → snapshot l ≡ ok (snapshot_of l)
unfolding snapshot unique_and_bound
snapshot_total l b =
    let constitution = any_of_All _ l.items (
      All-map (λ x c. passes x.constitution_hash l.constitution_hash c.constitution) l.items
        b.bound) in
    let case =
      any_of_All _ l.items (All-map (λ x c. passes x.case_id l.case_id c.case) l.items b.bound) in
    let experiment =
      any_of_All _ l.items
        (All-map (λ x c. passes x.experiment_id l.experiment_id c.experiment) l.items b.bound) in
    rw (b.unique, constitution, case, experiment)
