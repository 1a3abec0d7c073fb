-- ===== src/Evidence/Acyclic/Stacks.antt =====
-- The first stack of `_assert_acyclic` (src/quantforge/evidence/graph.py).
use quantforge_ai.Common.{
  ℕ, ◌≡◌, refl, true, ◌&&◌, String, List, [], ◌∷◌, eqb, ==→≡, contains, contains-append, is_unique,
  is_unique-append, string_eq, arith,
}
use quantforge_ai.Evidence.Acyclic.{sources, reversed}

pub contains-reversed : (n : String) (ns : List String) → contains n (reversed ns) ≡ contains n ns
unfolding reversed contains
contains-reversed n [] = refl
contains-reversed n (x ∷ xs) =
    ground (arith, contains-append n (reversed xs) (x ∷ []), contains-reversed n xs)

pub is_unique-reversed : (ns : List String) → is_unique ns ≡ true → is_unique (reversed ns) ≡ true
unfolding reversed is_unique
is_unique-reversed [] u = refl
is_unique-reversed (x ∷ xs) u =
    ground (arith, is_unique-append (reversed xs) x, contains-reversed x xs, is_unique-reversed xs)

pub contains-sources :
    (d : String → ℕ) (n : String) (ns : List String)
    → contains n (sources d ns) ≡ (contains n ns && eqb (d n) 0)
unfolding sources contains
contains-sources d n [] = refl
contains-sources d n (x ∷ xs) = ground (arith, contains-sources d n xs, ==→≡ n x)

pub is_unique-sources :
    (d : String → ℕ) (ns : List String) → is_unique ns ≡ true → is_unique (sources d ns) ≡ true
unfolding sources is_unique
is_unique-sources d [] u = refl
is_unique-sources d (x ∷ xs) u = ground (arith, contains-sources d x xs, is_unique-sources d xs)
