-- ===== src/Evidence/Acyclic/Degrees.antt =====
-- The dictionaries that the first loop of `_assert_acyclic` (src/quantforge/evidence/graph.py) builds.
use quantforge_ai.Common.{
  suc, ◌≡◌, ◌∙◌, refl, sym, ap, subst, inl, inr, ◌⊎◌, All, any, true, false, ◌&&◌, ◌||◌, String,
  List, [], ◌∷◌, ok, >>=-eq-ok, ok-injective, Bool-cases, ◌==◌, ==→≡, ≡→==, contains, is_unique,
  string_eq, arith,
}
use quantforge_ai.Common.Counting.{count, count-agree, count-flip}
use quantforge_ai.Evidence.Nodes.{GraphEdge}
use quantforge_ai.Evidence.Acyclic.{put, Arcs, no_arcs, add_arc, count_edge, count_edges}
use quantforge_ai.Evidence.Acyclic.Paths.{has_arc}

-- The degree of a node is the number of nodes that it is a successor of, the successors of a node are
-- all different, and all are nodes.
pub record IsCounted (ids : List String) (a : Arcs) : Type 0 where
  pub degree : (v : String) → a.indegree v ≡ count (λ u. contains v (a.successors u)) ids
  pub once : (u : String) → is_unique (a.successors u) ≡ true
  pub from_known : (u v : String) → contains v (a.successors u) ≡ true → contains u ids ≡ true
  pub to_known : (u v : String) → contains v (a.successors u) ≡ true → contains v ids ≡ true

count_nothing : (ids : List String) → count (λ (_ : String). false) ids ≡ 0
unfolding count
count_nothing [] = refl
count_nothing (x ∷ xs) = count_nothing xs

no_arcs-IsCounted : (ids : List String) → IsCounted ids no_arcs
unfolding no_arcs contains is_unique
no_arcs-IsCounted ids = record {
  degree = λ v. sym (count_nothing ids);
  once = λ u. refl;
  from_known = λ u v h. cc;
  to_known = λ u v h. cc;
}

pub put_same {ℓ} :
    {Value : Type ℓ} (key : String) (value : Value) (d : String → Value) (other : String)
    → (other == key) ≡ true
    → put key value d other ≡ value
unfolding put
put_same key value d other h = ground (arith, h)

pub put_other {ℓ} :
    {Value : Type ℓ} (key : String) (value : Value) (d : String → Value) (other : String)
    → (other == key) ≡ false
    → put key value d other ≡ d other
unfolding put
put_other key value d other h = ground (arith, h)

module _ (ids : List String) (unique : is_unique ids ≡ true) (a : Arcs) (s t : String) where
  contains-add_arc :
      (u v : String)
      → contains v ((add_arc a s t).successors u)
        ≡ (((s == u) && (t == v)) || contains v (a.successors u))
  unfolding put contains
  contains-add_arc u v =
      ground (arith, ==→≡ u s, ≡→== u s, ==→≡ s u, ≡→== s u, ==→≡ v t, ≡→== v t, ==→≡ t v, ≡→== t v)

  module _ (h : IsCounted ids a) (source : contains s ids ≡ true) (target : contains t ids ≡ true)
      (fresh : contains t (a.successors s) ≡ false) where
    add_arc-degree :
        (v : String)
        → (add_arc a s t).indegree v ≡ count (λ u. contains v ((add_arc a s t).successors u)) ids
    add_arc-degree v = elim (Bool-cases (v == t)) [
      | inl same ↦
          let one_more =
            count-flip (λ u. contains v ((add_arc a s t).successors u))
              (λ u. contains v (a.successors u)) s ids unique source
              (ground (arith, contains-add_arc s v, ≡→== s s refl, ==→≡ v t, ≡→== t v))
              (ground (arith, ==→≡ v t))
              (λ x other. ground (arith, contains-add_arc x v, other, ==→≡ s x, ≡→== x s)) in
          put_same t (suc (a.indegree t)) a.indegree v same
          ∙ ap suc (ap a.indegree (sym (==→≡ v t same)) ∙ h.degree v)
          ∙ sym one_more
      | inr other ↦
          put_other t (suc (a.indegree t)) a.indegree v other
          ∙ h.degree v
          ∙ count-agree (λ u. contains v (a.successors u))
              (λ u. contains v ((add_arc a s t).successors u)) ids
              (λ x _. ground (arith, contains-add_arc x v, other, ==→≡ t v, ≡→== v t))
    ]

    add_arc-IsCounted : IsCounted ids (add_arc a s t)
    unfolding put is_unique contains
    add_arc-IsCounted = record {
      degree = add_arc-degree;
      once = λ u. ground (arith, h.once u, h.once s, fresh);
      from_known =
          λ u v m. ground (arith, contains-add_arc u v, m, h.from_known u v, source, ==→≡ s u);
      to_known = λ u v m. ground (arith, contains-add_arc u v, m, h.to_known u v, target, ==→≡ t v);
    }

-- The two ways to count an edge: its arc is there already, or it is added.
count_edge-eq-ok :
    (ids : List String) (e : GraphEdge) (a b : Arcs)
    → count_edge ids e a ≡ ok b
    → (contains e.source_id ids ≡ true)
      × (((contains e.target_id (a.successors e.source_id) ≡ true) × (a ≡ b))
          ⊎ ((contains e.target_id (a.successors e.source_id) ≡ false)
              × (contains e.target_id ids ≡ true)
              × (add_arc a e.source_id e.target_id ≡ b)))
unfolding count_edge
count_edge-eq-ok ids e a b r = elim (Bool-cases (contains e.source_id ids)) [
  | inr unknown ↦ ground (arith, r, unknown)
  | inl known ↦ (
    known,
    elim (Bool-cases (contains e.target_id (a.successors e.source_id))) [
      | inl there ↦ inl (there, ground (arith, r, known, there))
      | inr fresh ↦ elim (Bool-cases (contains e.target_id ids)) [
        | inl target ↦ inr (fresh, target, ground (arith, r, known, fresh, target))
        | inr missing ↦ ground (arith, r, known, fresh, missing)
      ]
    ],
  )
]

-- The arcs after a number of edges are those before and those of the edges.
abbrev ArcsAfter : List GraphEdge → Arcs → Arcs → Type 0
ArcsAfter es a b =
    (u v : String) → contains v (b.successors u) ≡ (has_arc es u v || contains v (a.successors u))

-- Both ends of the edge are nodes.
abbrev pub IsKnown : List String → GraphEdge → Type 0
IsKnown ids e = (contains e.source_id ids ≡ true) × (contains e.target_id ids ≡ true)

abbrev pub AreKnown : List String → List GraphEdge → Type 0
AreKnown ids = All (IsKnown ids)

module _ (ids : List String) (unique : is_unique ids ≡ true) where
  count_edge_lem :
      (e : GraphEdge) (a b : Arcs)
      → IsCounted ids a
      → count_edge ids e a ≡ ok b
      → IsCounted ids b
        × (contains e.source_id ids ≡ true)
        × (contains e.target_id ids ≡ true)
        × ArcsAfter (e ∷ []) a b
  unfolding has_arc any
  count_edge_lem e a b h r =
      let (source, how) = count_edge-eq-ok ids e a b r in
      elim how [
        | inl (there, same) ↦ (
          subst (IsCounted ids) same h,
          source,
          h.to_known e.source_id e.target_id there,
          subst (ArcsAfter (e ∷ []) a) same
              (λ u v. ground (arith, there, ==→≡ e.source_id u, ==→≡ e.target_id v)),
        )
        | inr (fresh, target, same) ↦ (
          subst (IsCounted ids) same
              (add_arc-IsCounted ids unique a e.source_id e.target_id h source target fresh),
          source,
          target,
          subst (ArcsAfter (e ∷ []) a) same
              (λ u v. ground (arith, contains-add_arc ids unique a e.source_id e.target_id u v)),
        )
      ]

  count_edges_lem :
      (es : List GraphEdge) (a b : Arcs)
      → IsCounted ids a
      → count_edges ids es a ≡ ok b
      → IsCounted ids b × AreKnown ids es × ArcsAfter es a b
  unfolding count_edges has_arc any
  count_edges_lem [] a b h r =
      (subst (IsCounted ids) (ok-injective r) h, tt, λ u v. ground (arith, ok-injective r))
  count_edges_lem (e ∷ es) a b h r =
      let (c, first, r') = >>=-eq-ok (count_edge ids e a) _ r in
      let (hc, source, target, one) = count_edge_lem e a c h first in
      let (hb, rest, all') = count_edges_lem es c b hc r' in
      (hb, ((source, target), rest), λ u v. ground (arith, one u v, all' u v))

  -- With known ends no key is missing.
  pub count_edges-total :
      (es : List GraphEdge) (a : Arcs)
      → AreKnown ids es
      → (b : Arcs) × (count_edges ids es a ≡ ok b)
  unfolding count_edges count_edge
  count_edges-total [] a k = (a, refl)
  count_edges-total (e ∷ es) a ((source, target), k) =
      elim (Bool-cases (contains e.target_id (a.successors e.source_id))) [
        | inl there ↦
            let (b, r) = count_edges-total es a k in (b, ground (arith, there, source, target, r))
        | inr fresh ↦
            let (b, r) = count_edges-total es (add_arc a e.source_id e.target_id) k in
            (b, ground (arith, fresh, source, target, r))
      ]

-- What the first loop leaves
pub count_edges-IsCounted :
    (ids : List String) (es : List GraphEdge) (a : Arcs)
    → is_unique ids ≡ true
    → count_edges ids es no_arcs ≡ ok a
    → IsCounted ids a
      × AreKnown ids es
      × ((u v : String) → contains v (a.successors u) ≡ has_arc es u v)
unfolding no_arcs contains
count_edges-IsCounted ids es a unique r =
    let (h, known, after) = count_edges_lem ids unique es no_arcs a (no_arcs-IsCounted ids) r in
    (h, known, λ u v. ground (arith, after u v))
