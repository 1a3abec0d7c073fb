-- ===== src/Evidence/Acyclic/Rounds.antt =====
-- The `while` loop of `_assert_acyclic` (src/quantforge/evidence/graph.py) ends before its fuel does.
use quantforge_ai.Common.{
  ℕ, zero, suc, ◌+◌, ◌≤◌, ◌≡◌, ◌∙◌, refl, sym, ap, subst, inl, inr, true, String, List, [], ◌∷◌,
  length, List-cases, is_unique, string_eq, arith,
}
use quantforge_ai.Common.Counting.{is_subset_lem, length_of_subset}
use quantforge_ai.Evidence.Acyclic.{Arcs, Sweep, visit, turn, sweep, begin, sweep_all}
use quantforge_ai.Evidence.Acyclic.Degrees.{IsCounted}
use quantforge_ai.Evidence.Acyclic.Visits.{Holds, begin-Holds, visit-Holds}

module _ (ids : List String) (unique : is_unique ids ≡ true) (a : Arcs)
    (counted : IsCounted ids a) where
  pub size-le :
      (done : List String) (s : Sweep)
      → Holds ids unique a counted done [] s
      → length done ≤ length ids
  size-le done s h =
      length_of_subset done ids h.once (is_subset_lem done ids (λ v m. h.inside v (ground arith)))

  sweep_idle : (fuel : ℕ) (s : Sweep) → s.ready ≡ [] → sweep fuel a.successors s ≡ s
  unfolding sweep turn
  sweep_idle zero s e = refl
  sweep_idle (suc fuel) s e =
      ap (λ r. sweep fuel a.successors (turn a.successors s r)) e ∙ sweep_idle fuel s e

  sweep-visit :
      (fuel : ℕ) (s : Sweep) (n : String) (rest : List String)
      → s.ready ≡ n ∷ rest
      → sweep (suc fuel) a.successors s ≡ sweep fuel a.successors (visit a.successors s n rest)
  unfolding sweep turn
  sweep-visit fuel s n rest e = ap (λ r. sweep fuel a.successors (turn a.successors s r)) e

  abbrev Ends : Sweep → Type 0
  Ends s = (all_done : List String) × Holds ids unique a counted all_done [] s × (s.ready ≡ [])

  -- The loop ends with an empty stack before the fuel does.
  pub sweep-Holds :
      (fuel : ℕ) (done : List String) (s : Sweep)
      → length ids ≤ length done + fuel
      → Holds ids unique a counted done [] s
      → Ends (sweep fuel a.successors s)
  sweep-Holds zero done s enough h = elim (List-cases s.ready) [
    | inl e ↦ subst Ends (sym (sweep_idle 0 s e)) (done, h, e)
    | inr (n, rest, e) ↦
        let more = size-le (n ∷ done) _ (visit-Holds ids unique a counted n rest done s e h) in
        ground arith
  ]
  sweep-Holds (suc fuel) done s enough h = elim (List-cases s.ready) [
    | inl e ↦ subst Ends (sym (sweep_idle (suc fuel) s e)) (done, h, e)
    | inr (n, rest, e) ↦ subst Ends (sym (sweep-visit fuel s n rest e)) (
        sweep-Holds fuel (n ∷ done) (visit a.successors s n rest) (omega arith)
          (visit-Holds ids unique a counted n rest done s e h))
  ]

  -- Where the loop of a run of the code ends
  pub sweep_all-Holds :
      (done : List String) × Holds ids unique a counted done [] (sweep_all ids a)
      × ((sweep_all ids a).ready ≡ [])
  unfolding sweep_all
  sweep_all-Holds =
      sweep-Holds (length ids) [] (begin ids a) (omega arith) (begin-Holds ids unique a counted)
