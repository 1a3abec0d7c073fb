-- ===== src/Evidence/Graph/Search.antt =====
-- The search of `validate_final_claim_traceability` of src/quantforge/evidence/graph.py: what stays true
-- while nodes are visited, and that it ends.
use quantforge_ai.Common.{
  ℕ, zero, suc, ◌+◌, ◌<◌, ◌≤◌, ◌≡◌, ◌∙◌, ◌⊎◌, refl, sym, ap, subst, inl, inr, Bool, true, false,
  ◌||◌, String, List, [], ◌∷◌, ◌==◌, ==→≡, ≡→==, any, contains, length, Bool-cases, List-cases,
  string_eq, arith,
}
use quantforge_ai.Common.Counting.{any-some, any_of_contains}
use quantforge_ai.Evidence.Nodes.{GraphEdge}
use quantforge_ai.Evidence.Acyclic.Paths.{Trail, one, more}
use quantforge_ai.Evidence.Graph.Trace.{Search, look_at, follow, search, reverse_edges, no_values}
use quantforge_ai.Evidence.Graph.Arcs.{
  traces, unused, unused-cons, length-reverse, contains-reverse,
}

pub Trail-snoc :
    {arc : String → String → Bool} {u v w : String} → Trail arc u v → arc v w ≡ true → Trail arc u w
Trail-snoc (one a) b = more a (one b)
Trail-snoc (more a p) b = more a (Trail-snoc p b)

module _ (ev : List String) where
  look_at-frontier :
      (s : Search) (ps : List String) (v : String)
      → contains v (look_at ev s ps).frontier ≡ (contains v ps || contains v s.frontier)
  unfolding look_at contains
  look_at-frontier s [] v = refl
  look_at-frontier s (p ∷ ps) v = ground (
    arith,
    look_at-frontier (record s { frontier = p ∷ s.frontier; found = contains p ev || s.found }) ps
        v,
  )

  look_at-length :
      (s : Search) (ps : List String)
      → length (look_at ev s ps).frontier ≡ length ps + length s.frontier
  unfolding look_at
  look_at-length s [] = omega arith
  look_at-length s (p ∷ ps) = omega (
    arith,
    look_at-length (record s { frontier = p ∷ s.frontier; found = contains p ev || s.found }) ps,
  )

  look_at-visited : (s : Search) (ps : List String) → (look_at ev s ps).visited ≡ s.visited
  unfolding look_at
  look_at-visited s [] = refl
  look_at-visited s (p ∷ ps) =
      look_at-visited (record s { frontier = p ∷ s.frontier; found = contains p ev || s.found }) ps

  look_at-found :
      (s : Search) (ps : List String)
      → (look_at ev s ps).found ≡ (any (λ p. contains p ev) ps || s.found)
  unfolding look_at any
  look_at-found s [] = refl
  look_at-found s (p ∷ ps) = ground (
    arith,
    look_at-found (record s { frontier = p ∷ s.frontier; found = contains p ev || s.found }) ps,
  )

  module _ (edges : List GraphEdge) (start : String) where
    abbrev pub arc : String → String → Bool
    arc = traces edges

    abbrev reverse : String → List String
    reverse = reverse_edges edges no_values

    abbrev pub Reached : String → Type 0
    Reached v = (v ≡ start) ⊎ Trail arc start v

    pub record Traced (s : Search) : Type 0 where
      pub origin : (contains start s.visited || contains start s.frontier) ≡ true
      pub reached :
          (v : String) → (contains v s.visited || contains v s.frontier) ≡ true → Reached v
      pub justified : s.found ≡ true → (x : String) × (contains x ev ≡ true) × Trail arc start x
      pub closed :
          (u v : String)
          → contains u s.visited ≡ true
          → arc u v ≡ true
          → (contains v s.visited || contains v s.frontier) ≡ true
      pub noticed :
          (u v : String)
          → contains u s.visited ≡ true
          → arc u v ≡ true
          → contains v ev ≡ true
          → s.found ≡ true

    pub start-Traced : Traced (record { frontier = start ∷ []; visited = []; found = false })
    unfolding contains
    start-Traced = record {
      origin = ground (arith, ≡→== start start refl);
      reached = λ v m. inl (==→≡ v start (ground (arith, m)));
      justified = λ f. cc;
      closed = λ u v m. cc;
      noticed = λ u v m. cc;
    }

    Reached-arc : (u v : String) → Reached u → arc u v ≡ true → Trail arc start v
    Reached-arc u v (inl same) a = one (subst (λ x. arc x v ≡ true) same a)
    Reached-arc u v (inr path) a = Trail-snoc path a

    module _ (s : Search) (n : String) (rest : List String) (e : s.frontier ≡ n ∷ rest)
        (h : Traced s) where
      in_front : (v : String) → contains v s.frontier ≡ ((v == n) || contains v rest)
      unfolding contains
      in_front v = ap (contains v) e

      n-Reached : Reached n
      n-Reached = h.reached n (ground (arith, in_front n, ≡→== n n refl))

      -- A node that was visited is taken off.
      skip-Traced : contains n s.visited ≡ true → Traced (record s { frontier = rest })
      skip-Traced old = record {
        origin = ground (arith, h.origin, in_front start, old, ==→≡ start n);
        reached = λ v m. h.reached v (ground (arith, m, in_front v));
        justified = h.justified;
        closed = λ u v m a. ground (arith, h.closed u v m a, in_front v, old, ==→≡ v n);
        noticed = h.noticed;
      }

      abbrev seen : Search
      seen = look_at ev (record s { frontier = rest; visited = n ∷ s.visited }) (reverse n)

      seen-frontier : (v : String) → contains v seen.frontier ≡ (arc n v || contains v rest)
      seen-frontier v = ground (
        arith,
        look_at-frontier (record s { frontier = rest; visited = n ∷ s.visited }) (reverse n) v,
        contains-reverse edges n v,
      )

      seen-visited : (v : String) → contains v seen.visited ≡ ((v == n) || contains v s.visited)
      unfolding contains
      seen-visited v =
          ap (contains v)
            (look_at-visited (record s { frontier = rest; visited = n ∷ s.visited }) (reverse n))

      seen-found : seen.found ≡ (any (λ p. contains p ev) (reverse n) || s.found)
      seen-found = look_at-found (record s { frontier = rest; visited = n ∷ s.visited }) (reverse n)

      seen-justified : seen.found ≡ true → (x : String) × (contains x ev ≡ true) × Trail arc start x
      seen-justified f = elim (Bool-cases (any (λ p. contains p ev) (reverse n))) [
        | inl some_new ↦
            let (x, m, good) = any-some (λ p. contains p ev) (reverse n) some_new in
            (x, good, Reached-arc n x n-Reached (sym (contains-reverse edges n x) ∙ m))
        | inr none_new ↦ h.justified (ground (arith, f, seen-found, none_new))
      ]

      seen-Reached :
          (v : String) → (contains v seen.visited || contains v seen.frontier) ≡ true → Reached v
      seen-Reached v m = elim (Bool-cases (arc n v)) [
        | inl a ↦ inr (Reached-arc n v n-Reached a)
        | inr no_arc ↦
            h.reached v (ground (arith, m, no_arc, seen-visited v, seen-frontier v, in_front v))
      ]

      seen-noticed :
          (u v : String)
          → contains u seen.visited ≡ true
          → arc u v ≡ true
          → contains v ev ≡ true
          → seen.found ≡ true
      seen-noticed u v m a good = elim (Bool-cases (u == n)) [
        | inl same ↦
            let a' = subst (λ x. arc x v ≡ true) (==→≡ u n same) a in
            let some_new =
              any_of_contains (λ p. contains p ev) (reverse n) v (contains-reverse edges n v ∙ a')
                good in
            ground (arith, seen-found, some_new)
        | inr other ↦
            ground
              (arith, seen-found, h.noticed u v (ground (arith, m, other, seen-visited u)) a good)
      ]

      seen-closed :
          (u v : String)
          → contains u seen.visited ≡ true
          → arc u v ≡ true
          → (contains v seen.visited || contains v seen.frontier) ≡ true
      seen-closed u v m a = elim (Bool-cases (u == n)) [
        | inl same ↦ ground (arith, seen-frontier v, subst (λ x. arc x v ≡ true) (==→≡ u n same) a)
        | inr other ↦ ground (
          arith,
          seen-frontier v,
          seen-visited v,
          in_front v,
          h.closed u v (ground (arith, m, other, seen-visited u)) a,
        )
      ]

      -- Any other node is visited.
      look-Traced : contains n s.visited ≡ false → Traced seen
      look-Traced new = record {
        origin = ground (arith, h.origin, seen-visited start, seen-frontier start, in_front start);
        reached = seen-Reached;
        justified = seen-justified;
        closed = seen-closed;
        noticed = seen-noticed;
      }

      follow-Traced : Traced (follow ev reverse s (n ∷ rest))
      unfolding follow
      follow-Traced = elim (Bool-cases (contains n s.visited)) [
        | inl old ↦ rw old (skip-Traced old)
        | inr new ↦ rw new (look-Traced new)
      ]

      -- A round takes a node off or uses the edges of one, so this falls.
      follow_shrinks :
          length (follow ev reverse s (n ∷ rest)).frontier
            + unused edges (follow ev reverse s (n ∷ rest)).visited
          < length s.frontier + unused edges s.visited
      unfolding follow
      follow_shrinks = elim (Bool-cases (contains n s.visited)) [
        | inl old ↦ rw (old, e) (omega arith)
        | inr new ↦
            rw (new, e, look_at-visited, look_at-length)
              (omega (arith, unused-cons edges n s.visited new, length-reverse edges n))
      ]

    search_idle : (fuel : ℕ) (s : Search) → s.frontier ≡ [] → search fuel ev reverse s ≡ s
    unfolding search follow
    search_idle zero s e = refl
    search_idle (suc fuel) s e =
        ap (λ r. search fuel ev reverse (follow ev reverse s r)) e ∙ search_idle fuel s e

    search-follow :
        (fuel : ℕ) (s : Search) (n : String) (rest : List String)
        → s.frontier ≡ n ∷ rest
        → search (suc fuel) ev reverse s ≡ search fuel ev reverse (follow ev reverse s (n ∷ rest))
    unfolding search
    search-follow fuel s n rest e = ap (λ r. search fuel ev reverse (follow ev reverse s r)) e

    abbrev pub Finished : Search → Type 0
    Finished s = Traced s × (s.frontier ≡ [])

    -- With enough fuel the stack is empty in the end.
    pub search-Traced :
        (fuel : ℕ) (s : Search)
        → length s.frontier + unused edges s.visited ≤ fuel
        → Traced s
        → Finished (search fuel ev reverse s)
    search-Traced zero s enough h = elim (List-cases s.frontier) [
      | inl e ↦ subst Finished (sym (search_idle 0 s e)) (h, e)
      | inr (n, rest, e) ↦ let some_left = ap length e in ground arith
    ]
    search-Traced (suc fuel) s enough h = elim (List-cases s.frontier) [
      | inl e ↦ subst Finished (sym (search_idle (suc fuel) s e)) (h, e)
      | inr (n, rest, e) ↦ subst Finished (sym (search-follow fuel s n rest e)) (
          search-Traced fuel _ (omega (arith, follow_shrinks s n rest e h))
            (follow-Traced s n rest e h))
    ]
