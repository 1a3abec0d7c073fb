-- ===== src/Evidence/Ledger/References.antt =====
-- What a look-up in the ledger and an accepted reference say of its items.
use mathlib.Core.List.{Memᴰ}
use quantforge_ai.Common.{
  ◌≡◌, refl, sym, ap, ◌∙◌, ◌↔◌, inl, inr, true, String, List, [], ◌∷◌, ◌++◌, map, none, some,
  is_some, ok, ◌==◌, ==→≡, ≡→==, contains, is_unique, is_subset, Bool-cases, string_eq,
  if◌then◌else◌, arith,
}
use quantforge_ai.Domain.Enums.{ValidationStatus, validation_status_eq}
use quantforge_ai.Domain.Evidence.{EvidenceObject}
use quantforge_ai.Domain.Reviews.{EvidenceReference}
use quantforge_ai.Evidence.Ledger.{
  EvidenceLedger, id_of, lookup, append, get, fact_ids_of, validate_reference,
}
use quantforge_ai.Evidence.Ledger.Binding.{IsBound, entry, append-eq-ok}

-- `e` is among the ledger's items under the identifier `key`.
abbrev pub Holds : List EvidenceObject → String → EvidenceObject → Type 0
Holds es key e = Memᴰ e es × (e.evidence_id ≡ key)

held_of_lookup :
    (key : String) (es : List EvidenceObject) (e : EvidenceObject)
    → lookup key (map entry es) ≡ some e
    → Holds es key e
unfolding lookup
held_of_lookup key [] e h = cc
held_of_lookup key (x ∷ es) e h = elim (Bool-cases (x.evidence_id == key)) [
  | inl p ↦
      let q : x ≡ e = ground arith in
      (Memᴰ.head (sym q), ap id_of (sym q) ∙ ==→≡ x.evidence_id key p)
  | inr n ↦ let (m, q) = held_of_lookup key es e (ground arith) in (Memᴰ.tail m, q)
]

contains_member :
    (e : EvidenceObject) (es : List EvidenceObject)
    → Memᴰ e es
    → contains e.evidence_id (map id_of es) ≡ true
unfolding contains
contains_member e [] m = elim m [ ]
contains_member e (x ∷ es) (Memᴰ.head p) =
    ground (arith, ≡→== e.evidence_id x.evidence_id (ap id_of p))
contains_member e (x ∷ es) (Memᴰ.tail m) = ground (arith, contains_member e es m)

lookup_of_member :
    (es : List EvidenceObject) (e : EvidenceObject)
    → is_unique (map id_of es) ≡ true
    → Memᴰ e es
    → lookup e.evidence_id (map entry es) ≡ some e
unfolding lookup is_unique
lookup_of_member [] e u m = elim m [ ]
lookup_of_member (x ∷ es) e u (Memᴰ.head p) =
    ground (arith, ≡→== x.evidence_id e.evidence_id (ap id_of (sym p)))
lookup_of_member (x ∷ es) e u (Memᴰ.tail m) =
    ground (arith, lookup_of_member es e, contains_member e es m, ==→≡ x.evidence_id e.evidence_id)

-- A reference is accepted, and resolves to `e`, exactly if `e` is a validated item of the ledger
-- with the identifier of the reference, and each numeric fact of the reference is one of its facts.
abbrev pub Resolves : EvidenceLedger → EvidenceReference → EvidenceObject → Type 0
Resolves l r e =
    Holds l.items r.evidence_id e
    × (e.validation_status ≡ ValidationStatus.validated)
    × (is_subset r.numeric_fact_ids (fact_ids_of e) ≡ true)

lookup_iff :
    (l : EvidenceLedger) (key : String) (e : EvidenceObject)
    → IsBound l
    → (lookup key l.by_id ≡ some e) ↔ Holds l.items key e
lookup_iff l key e b = (
  λ h. held_of_lookup key l.items e (ap (lookup key) (sym b.indexed) ∙ h),
  λ (m, p).
      ap (lookup key) b.indexed
      ∙ (ap (λ k. lookup k (map entry l.items)) (sym p) ∙ lookup_of_member l.items e b.unique m),
)

reference_tests :
    (l : EvidenceLedger) (r : EvidenceReference) (e : EvidenceObject)
    → validate_reference l r true ≡ ok e
    → (lookup r.evidence_id l.by_id ≡ some e)
      × ((e.validation_status == ValidationStatus.validated) ≡ true)
      × (is_subset r.numeric_fact_ids (fact_ids_of e) ≡ true)
unfolding validate_reference get
reference_tests l r e h = ground arith

tests_reference :
    (l : EvidenceLedger) (r : EvidenceReference) (e : EvidenceObject)
    → lookup r.evidence_id l.by_id ≡ some e
    → (e.validation_status == ValidationStatus.validated) ≡ true
    → is_subset r.numeric_fact_ids (fact_ids_of e) ≡ true
    → validate_reference l r true ≡ ok e
unfolding validate_reference get
tests_reference l r e h v s = ground arith

-- In a ledger that satisfies the invariant, a reviewer's reference is accepted, and resolves to `e`,
-- exactly if `e` is an item of the ledger under the reference's identifier, is validated, and has
-- every numeric fact that the reference names.
pub validate_reference_iff :
    (l : EvidenceLedger) (r : EvidenceReference) (e : EvidenceObject)
    → IsBound l
    → (validate_reference l r true ≡ ok e) ↔ Resolves l r e
validate_reference_iff l r e b = (
  λ h.
      let (f, v, s) = reference_tests l r e h in
      (
        (lookup_iff l r.evidence_id e b).0 f,
        ==→≡ e.validation_status ValidationStatus.validated v,
        s,
      ),
  λ (m, v, s).
      tests_reference l r e ((lookup_iff l r.evidence_id e b).1 m)
        (≡→== e.validation_status ValidationStatus.validated v) s,
)

lookup-append :
    (key k : String) (e : EvidenceObject) (d : List (String × EvidenceObject))
    → lookup key (d ++ (k, e) ∷ [])
      ≡ (if is_some (lookup key d) then lookup key d else if k == key then some e else none)
unfolding lookup
lookup-append key k e [] = refl
lookup-append key k e ((j, v) ∷ d) = ground (arith, lookup-append key k e d)

-- After an accepted `append`, the new identifier gives the new evidence, and every other identifier
-- gives what it gave before, an error included.
pub get-append :
    (l : EvidenceLedger) (e : EvidenceObject) {l' : EvidenceLedger} (key : String)
    → append l e ≡ ok l'
    → get l' key ≡ (if e.evidence_id == key then ok e else get l key)
unfolding get
get-append l e key h =
    let a = append-eq-ok l e h in
    let f : lookup e.evidence_id l.by_id ≡ none = a.fresh in
    rw a.result (ground (arith, lookup-append key e.evidence_id e l.by_id, ==→≡ e.evidence_id key))
