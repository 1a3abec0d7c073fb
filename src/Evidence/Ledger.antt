-- ===== src/Evidence/Ledger.antt =====
-- src/quantforge/evidence/ledger.py. A method that changes the ledger returns the new one.
-- `verify_source_artifact` reads the file system and is not modelled.
pub mod Binding
pub mod Replay
pub mod References
use quantforge_ai.Common.{
  Bool, true, not, ◌&&◌, String, List, [], ◌∷◌, ◌++◌, map, Option, none, some, is_some, value_error,
  Result, ok, err, raise_if, ◌>>=◌, ◌>>◌, if◌then◌else◌, ◌==◌, any, is_unique, is_subset, string_eq,
}
use quantforge_ai.Domain.Enums.{ValidationStatus, validation_status_eq}
use quantforge_ai.Domain.Evidence.{NumericFact, EvidenceObject}
use quantforge_ai.Domain.Reviews.{EvidenceReference}

pub record EvidenceLedgerSnapshot : Type 0 where
  pub case_id : String
  pub experiment_id : String
  pub constitution_hash : String
  pub evidence : List EvidenceObject

abbrev pub id_of : EvidenceObject → String
id_of e = e.evidence_id

unfoldable pub unique_and_bound : EvidenceLedgerSnapshot → Result (Unit {0})
unique_and_bound s = do
  raise_if (not (is_unique (map id_of s.evidence)))
      (value_error "evidence ledger contains duplicate identifiers")
  raise_if
      (any (λ (e : EvidenceObject). not (e.constitution_hash == s.constitution_hash)) s.evidence)
      (value_error "evidence ledger contains a foreign constitution hash")
  raise_if (any (λ (e : EvidenceObject). not (e.case_id == s.case_id)) s.evidence)
      (value_error "evidence ledger contains a foreign case identifier")
  raise_if (any (λ (e : EvidenceObject). not (e.experiment_id == s.experiment_id)) s.evidence)
      (value_error "evidence ledger contains a foreign experiment identifier")

-- `by_id` is the dictionary `_by_id`, in the order of insertion.
pub record EvidenceLedger : Type 0 where
  pub case_id : String
  pub experiment_id : String
  pub constitution_hash : String
  pub claim_ids : List String
  pub items : List EvidenceObject
  pub by_id : List (String × EvidenceObject)

unfoldable pub new : String → String → String → List String → EvidenceLedger
new case_id experiment_id constitution_hash claim_ids = record {
  case_id = case_id;
  experiment_id = experiment_id;
  constitution_hash = constitution_hash;
  claim_ids = claim_ids;
  items = [];
  by_id = [];
}

-- `self._by_id.get(key)`
unfoldable pub lookup : String → List (String × EvidenceObject) → Option EvidenceObject
lookup key [] = none
lookup key ((k, e) ∷ rest) = if k == key then some e else lookup key rest

-- `self._by_id[key] = e`, for a key that is in the dictionary or not
unfoldable pub store :
    String → EvidenceObject → List (String × EvidenceObject) → List (String × EvidenceObject)
store key e [] = (key, e) ∷ []
store key e ((k, d) ∷ rest) = if k == key then (k, e) ∷ rest else (k, d) ∷ store key e rest

unfoldable pub append : EvidenceLedger → EvidenceObject → Result EvidenceLedger
append l e = do
  raise_if (is_some (lookup e.evidence_id l.by_id))
      (value_error "evidence identifiers are append-only and unique")
  raise_if (not (e.constitution_hash == l.constitution_hash))
      (value_error "evidence is not bound to the locked constitution")
  raise_if (not (e.case_id == l.case_id)) (value_error "evidence is not bound to the active case")
  raise_if (not (e.experiment_id == l.experiment_id))
      (value_error "evidence is not bound to the active experiment")
  raise_if (not (is_subset e.claim_ids l.claim_ids)) (value_error "evidence cites an unknown claim")
  ok (record l { items = l.items ++ e ∷ []; by_id = store e.evidence_id e l.by_id })

-- The `except KeyError` of `get`
abbrev pub found : Option EvidenceObject → Result EvidenceObject
found none = err (value_error "unknown evidence reference")
found (some e) = ok e

unfoldable pub get : EvidenceLedger → String → Result EvidenceObject
get l evidence_id = found (lookup evidence_id l.by_id)

abbrev pub fact_ids_of : EvidenceObject → List String
fact_ids_of e = map (λ (f : NumericFact). f.fact_id) e.numeric_facts

unfoldable pub validate_reference :
    EvidenceLedger → EvidenceReference → Bool → Result EvidenceObject
unfolding get
validate_reference l r require_validated = do
  e ← get l r.evidence_id
  raise_if (require_validated && not (e.validation_status == ValidationStatus.validated))
      (value_error "reviewers may cite numerical facts only from validated evidence")
  raise_if (not (is_subset r.numeric_fact_ids (fact_ids_of e)))
      (value_error "unknown numeric fact references")
  ok e

unfoldable pub validate_references : EvidenceLedger → List EvidenceReference → Result (Unit {0})
unfolding validate_reference
validate_references l [] = ok tt
validate_references l (r ∷ rs) = validate_reference l r true >>= λ _. validate_references l rs

-- The snapshot that `snapshot` hands to its constructor
abbrev pub snapshot_of : EvidenceLedger → EvidenceLedgerSnapshot
snapshot_of l = record {
  case_id = l.case_id;
  experiment_id = l.experiment_id;
  constitution_hash = l.constitution_hash;
  evidence = l.items;
}

unfoldable pub snapshot : EvidenceLedger → Result EvidenceLedgerSnapshot
snapshot l = do unique_and_bound (snapshot_of l); ok (snapshot_of l)

-- The loop of `from_snapshot`
unfoldable pub append_all : EvidenceLedger → List EvidenceObject → Result EvidenceLedger
append_all l [] = ok l
append_all l (e ∷ es) = append l e >>= λ l'. append_all l' es

unfoldable pub from_snapshot : EvidenceLedgerSnapshot → List String → Result EvidenceLedger
from_snapshot s claim_ids =
    append_all (new s.case_id s.experiment_id s.constitution_hash claim_ids) s.evidence
