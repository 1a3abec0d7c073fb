-- ===== src/Evidence/Ledger/Replay.antt =====
-- A ledger is rebuilt from its snapshot.
use quantforge_ai.Common.{
  ◌≡◌, refl, sym, ap, ◌∙◌, true, false, List, [], ◌∷◌, ◌++◌, map, Option, none, some, is_some, ok,
  is_unique, is_unique_middle, All, string_eq, arith,
}
use mathlib.Core.List.{map-append, append-nil, append_assoc}
use quantforge_ai.Domain.Evidence.{EvidenceObject}
use quantforge_ai.Evidence.Ledger.{
  EvidenceLedger, id_of, new, lookup, append, snapshot_of, append_all, from_snapshot,
}
use quantforge_ai.Evidence.Ledger.Binding.{Bound, IsBound, entry, lookup_entries, append-of_Bound}

-- The ledger with some items, and the dictionary of them
abbrev at : EvidenceLedger → List EvidenceObject → EvidenceLedger
at l xs = record l { items = xs; by_id = map entry xs }

none_of_is_some : (o : Option EvidenceObject) → is_some o ≡ false → o ≡ none
none_of_is_some none h = refl
none_of_is_some (some e) h = ground arith

fresh_in :
    (xs : List EvidenceObject) (y : EvidenceObject) (ys : List EvidenceObject)
    → is_unique (map id_of (xs ++ (y ∷ ys))) ≡ true
    → lookup y.evidence_id (map entry xs) ≡ none
fresh_in xs y ys h = none_of_is_some _ (
    lookup_entries y.evidence_id xs
    ∙ is_unique_middle (map id_of xs) y.evidence_id (map id_of ys) (rw map-append at h))

append-at :
    (l : EvidenceLedger) (xs : List EvidenceObject) (y : EvidenceObject)
    → Bound l y
    → lookup y.evidence_id (map entry xs) ≡ none
    → append (at l xs) y ≡ ok (at l (xs ++ y ∷ []))
append-at l xs y b f =
    append-of_Bound (at l xs) y
      (record {
        constitution = b.constitution;
        case = b.case;
        experiment = b.experiment;
        claims = b.claims;
      })
      f
    ∙ ap (λ d. ok (record l { items = xs ++ y ∷ []; by_id = d }))
        (sym (map-append entry xs (y ∷ [])))

append_all-at :
    (l : EvidenceLedger) (xs ys : List EvidenceObject)
    → All (Bound l) ys
    → is_unique (map id_of (xs ++ ys)) ≡ true
    → append_all (at l xs) ys ≡ ok (at l (xs ++ ys))
unfolding append_all
append_all-at l xs [] b u = rw append-nil
append_all-at l xs (y ∷ ys) b u = rw (append-at l xs y b.0 (fresh_in xs y ys u)) (
    append_all-at l (xs ++ y ∷ []) ys b.1 (rw append_assoc u)
    ∙ ap (λ zs. ok (at l zs)) (append_assoc xs (y ∷ []) ys))

-- The ledger that `from_snapshot` builds from the snapshot of a ledger, with the same claims, is that
-- ledger.
pub from_snapshot-snapshot_of :
    (l : EvidenceLedger) → IsBound l → from_snapshot (snapshot_of l) l.claim_ids ≡ ok l
unfolding from_snapshot new
from_snapshot-snapshot_of l b =
    append_all-at l [] l.items b.bound b.unique
    ∙ ap (λ d. ok (record l { by_id = d })) (sym b.indexed)
