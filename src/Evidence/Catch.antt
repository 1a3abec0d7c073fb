-- ===== src/Evidence/Catch.antt =====
-- The verdict policy (src/quantforge/verdict/policy.py) and the ledger (src/quantforge/evidence/ledger.py)
-- raise nothing but `ValueError`.
use quantforge_ai.Common.{ℕ, Bool, String, List, [], ◌∷◌, Option, none, some}
use quantforge_ai.Common.Catchable.{Catchable, catch_rules, returned, value, Catchable-bind}
use quantforge_ai.Domain.Evidence.{EvidenceObject}
use quantforge_ai.Domain.Reviews.{EvidenceReference}
use quantforge_ai.Domain.Catch.{
  unique_facts-Catchable, evidence_sets_are_consistent-Catchable, validate_eligibility-Catchable,
}
use quantforge_ai.Verdict.{VerdictInputs, validate_inputs, compute}
use quantforge_ai.Evidence.Ledger.{
  EvidenceLedgerSnapshot, EvidenceLedger, unique_and_bound, append, found, get, validate_reference,
  validate_references, snapshot, append_all, from_snapshot,
}

pub validate_inputs-Catchable : (i : VerdictInputs) → Catchable (validate_inputs i)
unfolding validate_inputs
validate_inputs-Catchable i =
    search (catch_rules, unique_facts-Catchable, evidence_sets_are_consistent-Catchable) depth 24

pub compute-Catchable : (i : VerdictInputs) (x : String) (t : ℕ) → Catchable (compute i x t)
unfolding compute
compute-Catchable i x t = search (catch_rules, validate_eligibility-Catchable) depth 24

pub unique_and_bound-Catchable : (s : EvidenceLedgerSnapshot) → Catchable (unique_and_bound s)
unfolding unique_and_bound
unique_and_bound-Catchable s = search (catch_rules) depth 24

pub append-Catchable : (l : EvidenceLedger) (e : EvidenceObject) → Catchable (append l e)
unfolding append
append-Catchable l e = search (catch_rules) depth 24

pub found-Catchable : (o : Option EvidenceObject) → Catchable (found o)
found-Catchable none = value _
found-Catchable (some e) = returned e

pub validate_reference-Catchable :
    (l : EvidenceLedger) (r : EvidenceReference) (b : Bool) → Catchable (validate_reference l r b)
unfolding validate_reference get
validate_reference-Catchable l r b = search (catch_rules, found-Catchable) depth 24

pub validate_references-Catchable :
    (l : EvidenceLedger) (rs : List EvidenceReference) → Catchable (validate_references l rs)
unfolding validate_references
validate_references-Catchable l [] = returned tt
validate_references-Catchable l (r ∷ rs) =
    search (catch_rules, validate_reference-Catchable, validate_references-Catchable l rs) depth 24

pub snapshot-Catchable : (l : EvidenceLedger) → Catchable (snapshot l)
unfolding snapshot
snapshot-Catchable l = search (catch_rules, unique_and_bound-Catchable) depth 24

pub append_all-Catchable :
    (l : EvidenceLedger) (es : List EvidenceObject) → Catchable (append_all l es)
unfolding append_all
append_all-Catchable l [] = returned l
append_all-Catchable l (e ∷ es) =
    Catchable-bind (append l e) _ (append-Catchable l e) (λ l'. append_all-Catchable l' es)

pub from_snapshot-Catchable :
    (s : EvidenceLedgerSnapshot) (c : List String) → Catchable (from_snapshot s c)
unfolding from_snapshot
from_snapshot-Catchable s c = search (catch_rules, append_all-Catchable) depth 24
