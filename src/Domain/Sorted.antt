-- ===== src/Domain/Sorted.antt =====
-- Python's `sorted` on texts, and on values by a text: the order of the code points, and equal keys
-- keep their order.
use quantforge_ai.Common.{
  ℕ, Bool, true, false, ◌||◌, ◌&&◌, ◌≡◌, refl, String, List, [], ◌∷◌, ltb, eqb, if◌then◌else◌,
  arith, Eq, ◌==◌, ==→≡, ≡→==, contains, is_unique, string_eq,
}
use quantforge_ai.Domain.Text.{codes}

-- `xs < ys` on code points
unfoldable pub is_before : List ℕ → List ℕ → Bool
is_before xs [] = false
is_before [] (y ∷ ys) = true
is_before (x ∷ xs) (y ∷ ys) = ltb x y || (eqb x y && is_before xs ys)

module _ {A : Type 0} (key : A → String) where
  unfoldable pub insert : A → List A → List A
  insert a [] = a ∷ []
  insert a (x ∷ xs) =
      if is_before (codes (key x)) (codes (key a)) then x ∷ insert a xs else a ∷ x ∷ xs

  -- `sorted(xs, key=key)`
  unfoldable pub sorted_by : List A → List A
  sorted_by [] = []
  sorted_by (x ∷ xs) = insert x (sorted_by xs)

  module _ ⦃e : Eq A⦄ where
    contains-insert :
        (a b : A) (xs : List A) → contains a (insert b xs) ≡ ((a == b) || contains a xs)
    unfolding insert contains
    contains-insert a b [] = refl
    contains-insert a b (x ∷ xs) = ground (arith, contains-insert a b xs)

    pub contains-sorted_by : (a : A) (xs : List A) → contains a (sorted_by xs) ≡ contains a xs
    unfolding sorted_by contains
    contains-sorted_by a [] = refl
    contains-sorted_by a (x ∷ xs) =
        ground (arith, contains-insert a x (sorted_by xs), contains-sorted_by a xs)

    is_unique-insert :
        (b : A) (xs : List A)
        → contains b xs ≡ false
        → is_unique xs ≡ true
        → is_unique (insert b xs) ≡ true
    unfolding insert is_unique contains
    is_unique-insert b [] f u = refl
    is_unique-insert b (x ∷ xs) f u =
        ground (arith, is_unique-insert b xs, contains-insert x b xs, ==→≡ x b, ≡→== b x)

    pub is_unique-sorted_by : (xs : List A) → is_unique xs ≡ true → is_unique (sorted_by xs) ≡ true
    unfolding sorted_by is_unique
    is_unique-sorted_by [] u = refl
    is_unique-sorted_by (x ∷ xs) u =
        ground (
          arith,
          is_unique-insert x (sorted_by xs),
          contains-sorted_by x xs,
          is_unique-sorted_by xs,
        )

-- `sorted(xs)`
unfoldable pub sorted : List String → List String
unfolding sorted_by insert is_before
sorted = sorted_by (λ (s : String). s)

pub contains-sorted : (n : String) (ns : List String) → contains n (sorted ns) ≡ contains n ns
unfolding sorted
contains-sorted n ns = contains-sorted_by (λ (s : String). s) n ns

pub is_unique-sorted : (ns : List String) → is_unique ns ≡ true → is_unique (sorted ns) ≡ true
unfolding sorted
is_unique-sorted ns u = is_unique-sorted_by (λ (s : String). s) ns u
