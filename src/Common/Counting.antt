-- ===== src/Common/Counting.antt =====
-- How many elements of a list pass a test, and how long a list without repetition can be.
use Prim.Native.Nat.{ℕ, suc, ◌+◌, ◌≤◌}
use mathlib.Core.Path.{◌≡◌, refl, sym, subst}
use mathlib.Core.Logic.{◌≢◌, inl, inr}
use mathlib.Core.Bool.{Bool, true, false, ◌&&◌, ◌||◌}
use mathlib.Core.List.{List, [], ◌∷◌, ◌++◌}
use native.Mathlib.Omega.{arith}
use quantforge_ai.Common.Tests.{if◌then◌else◌, Bool-cases, Eq, ◌==◌, ==→≡, ≡→==}
use quantforge_ai.Common.Lists.{length, any, contains, is_unique, is_subset}

module _ {ℓ} {A : Type ℓ} where
  -- `sum(f(x) for x in xs)`, where `f` is a test
  unfoldable pub count : (A → Bool) → List A → ℕ
  count f [] = 0
  count f (x ∷ xs) = if f x then suc (count f xs) else count f xs

  pub count-le : (f : A → Bool) (xs : List A) → count f xs ≤ length xs
  unfolding count
  count-le f [] = omega arith
  count-le f (x ∷ xs) = ground (arith, count-le f xs)

  pub count-append : (f : A → Bool) (xs ys : List A) → count f (xs ++ ys) ≡ count f xs + count f ys
  unfolding count
  count-append f [] ys = omega arith
  count-append f (x ∷ xs) ys = ground (arith, count-append f xs ys)

  pub count-weaken :
      (f g : A → Bool) (xs : List A) → ((x : A) → f x ≡ true → g x ≡ true) → count f xs ≤ count g xs
  unfolding count
  count-weaken f g [] h = omega arith
  count-weaken f g (x ∷ xs) h = ground (arith, count-weaken f g xs h, h x)

  -- What a count is when each element that passes the test passes just one of two others
  pub count-split :
      (f g h : A → Bool) (xs : List A)
      → ((x : A) → f x ≡ (g x || h x))
      → ((x : A) → (g x && h x) ≡ false)
      → count f xs ≡ count g xs + count h xs
  unfolding count
  count-split f g h [] both apart = omega arith
  count-split f g h (x ∷ xs) both apart =
      ground (arith, count-split f g h xs both apart, both x, apart x)

module _ {ℓ} {A : Type ℓ} ⦃e : Eq A⦄ where
  pub contains-cons_self : (a : A) (xs : List A) → contains a (a ∷ xs) ≡ true
  unfolding contains
  contains-cons_self a xs = ground (arith, ≡→== a a refl)

  -- Two tests that agree on the list count the same.
  pub count-agree :
      (f g : A → Bool) (xs : List A)
      → ((x : A) → contains x xs ≡ true → f x ≡ g x)
      → count f xs ≡ count g xs
  unfolding count contains
  count-agree f g [] h = refl
  count-agree f g (x ∷ xs) h =
      ground (arith, h x (contains-cons_self x xs), count-agree f g xs (λ y q. h y (ground arith)))

  -- Tests that differ at one element of a list without repetition count one more.
  pub count-flip :
      (f g : A → Bool) (n : A) (xs : List A)
      → is_unique xs ≡ true
      → contains n xs ≡ true
      → f n ≡ true
      → g n ≡ false
      → ((x : A) → (x == n) ≡ false → f x ≡ g x)
      → count f xs ≡ suc (count g xs)
  unfolding count contains is_unique
  count-flip f g n [] u c p q h = cc
  count-flip f g n (x ∷ xs) u c p q h = elim (Bool-cases (x == n)) [
    | inl same ↦
        let x_eq = ==→≡ x n same in
        let fresh : contains n xs ≡ false =
          subst (λ z. contains z xs ≡ false) x_eq (ground arith) in
        let rest : count f xs ≡ count g xs =
          count-agree f g xs (λ y m. h y (ground (arith, m, fresh, ==→≡ y n))) in
        ground (arith, rest, x_eq)
    | inr other ↦
        let step : count f xs ≡ suc (count g xs) =
          count-flip f g n xs (ground arith) (ground (arith, other, ==→≡ n x, ≡→== x n)) p q h in
        ground (arith, step, h x other)
  ]

  -- What a count that is not zero has counted
  pub count-some :
      (f : A → Bool) (xs : List A)
      → count f xs ≢ 0
      → (x : A) × (contains x xs ≡ true) × (f x ≡ true)
  unfolding count contains
  count-some f [] h = absurd (h refl)
  count-some f (x ∷ xs) h = elim (Bool-cases (f x)) [
    | inl p ↦ (x, contains-cons_self x xs, p)
    | inr q ↦
        let (y, m, p) = count-some f xs (λ z. h (ground (arith, z, q))) in (y, ground (arith, m), p)
  ]

  pub count_zero-none :
      (f : A → Bool) (xs : List A) (x : A) → count f xs ≡ 0 → contains x xs ≡ true → f x ≡ false
  unfolding count contains
  count_zero-none f [] x h m = cc
  count_zero-none f (y ∷ xs) x h m = elim (Bool-cases (x == y)) [
    | inl same ↦ subst (λ z. f z ≡ false) (sym (==→≡ x y same)) (ground arith)
    | inr other ↦ count_zero-none f xs x (ground arith) (ground (arith, other))
  ]

  pub is_subset_lem :
      (xs ys : List A)
      → ((v : A) → contains v xs ≡ true → contains v ys ≡ true)
      → is_subset xs ys ≡ true
  unfolding is_subset contains
  is_subset_lem [] ys k = refl
  is_subset_lem (x ∷ xs) ys k =
      ground (arith, k x, contains-cons_self x xs, is_subset_lem xs ys (λ v m. k v (ground arith)))

  pub any-some :
      (f : A → Bool) (xs : List A)
      → any f xs ≡ true
      → (x : A) × (contains x xs ≡ true) × (f x ≡ true)
  unfolding any contains
  any-some f [] h = cc
  any-some f (x ∷ xs) h = elim (Bool-cases (f x)) [
    | inl p ↦ (x, contains-cons_self x xs, p)
    | inr q ↦ let (y, m, p) = any-some f xs (ground arith) in (y, ground (arith, m), p)
  ]

  pub any_of_contains :
      (f : A → Bool) (xs : List A) (x : A) → contains x xs ≡ true → f x ≡ true → any f xs ≡ true
  unfolding any contains
  any_of_contains f [] x m p = cc
  any_of_contains f (y ∷ xs) x m p = elim (Bool-cases (x == y)) [
    | inl same ↦ ground (arith, subst (λ z. f z ≡ true) (==→≡ x y same) p)
    | inr other ↦ ground (arith, any_of_contains f xs x (ground (arith, m, other)) p)
  ]

  -- The list without one occurrence of an element
  unfoldable pub remove : A → List A → List A
  remove a [] = []
  remove a (x ∷ xs) = if x == a then xs else x ∷ remove a xs

  length-remove :
      (a : A) (xs : List A) → contains a xs ≡ true → suc (length (remove a xs)) ≡ length xs
  unfolding contains remove
  length-remove a [] h = cc
  length-remove a (x ∷ xs) h = ground (arith, length-remove a xs, ==→≡ a x, ≡→== x a)

  contains-remove :
      (a b : A) (xs : List A)
      → contains b xs ≡ true
      → (b == a) ≡ false
      → contains b (remove a xs) ≡ true
  unfolding contains remove
  contains-remove a b [] h n = cc
  contains-remove a b (x ∷ xs) h n =
      ground (arith, contains-remove a b xs, ==→≡ x a, ==→≡ b x, ≡→== b a)

  is_subset-remove :
      (a : A) (xs ys : List A)
      → contains a xs ≡ false
      → is_subset xs ys ≡ true
      → is_subset xs (remove a ys) ≡ true
  unfolding contains is_subset
  is_subset-remove a [] ys f h = refl
  is_subset-remove a (x ∷ xs) ys f h =
      ground (arith, is_subset-remove a xs ys, contains-remove a x ys, ==→≡ x a, ≡→== a x)

  -- A list without repetition of which every element is in another list is not longer than it.
  pub length_of_subset :
      (xs ys : List A) → is_unique xs ≡ true → is_subset xs ys ≡ true → length xs ≤ length ys
  unfolding is_unique is_subset
  length_of_subset [] ys u h = omega arith
  length_of_subset (x ∷ xs) ys u h =
      let shorter = length-remove x ys (ground arith) in
      let rest =
        length_of_subset xs (remove x ys) (ground arith)
          (is_subset-remove x xs ys (ground arith) (ground arith)) in
      omega (arith, shorter, rest)
