-- ===== src/Common/Dictionary.antt =====
-- Python's dictionaries with texts as keys, as lists of pairs in the order of insertion.
use Prim.Native.String.{String}
use mathlib.Core.Path.{◌≡◌, refl, ap}
use mathlib.Core.Bool.{false}
use mathlib.Core.Option.{Option, none, some}
use mathlib.Core.List.{List, [], ◌∷◌, ◌++◌}
use native.Mathlib.Omega.{arith}
use quantforge_ai.Common.Tests.{if◌then◌else◌, ◌==◌, ==→≡, ≡→==, string_eq}
use quantforge_ai.Common.Outcome.{Result, err, ok, key_error}
use quantforge_ai.Common.Lists.{contains, is_some}

abbrev pub Dictionary {ℓ} : Type ℓ → Type ℓ
Dictionary A = List (String × A)

module _ {ℓ} {A : Type ℓ} where
  abbrev pub keys : Dictionary A → List String
  keys [] = []
  keys ((k, _) ∷ rest) = k ∷ keys rest

  abbrev pub values : Dictionary A → List A
  values [] = []
  values ((_, a) ∷ rest) = a ∷ values rest

  -- `d.get(key)`
  unfoldable pub find : String → Dictionary A → Option A
  find key [] = none
  find key ((k, a) ∷ rest) = if k == key then some a else find key rest

  -- `d[key] = a`
  unfoldable pub assign : String → A → Dictionary A → Dictionary A
  assign key a [] = (key, a) ∷ []
  assign key a ((k, b) ∷ rest) = if k == key then (k, a) ∷ rest else (k, b) ∷ assign key a rest

  abbrev pub or_key_error : Option A → Result A
  or_key_error none = err (key_error "")
  or_key_error (some a) = ok a

  -- `d[key]`
  unfoldable pub require : String → Dictionary A → Result A
  require key d = or_key_error (find key d)

  pub is_some-find :
      (key : String) (d : Dictionary A) → is_some (find key d) ≡ contains key (keys d)
  unfolding find contains
  is_some-find key [] = refl
  is_some-find key ((k, a) ∷ rest) =
      ground (arith, is_some-find key rest, ==→≡ k key, ≡→== k key, ==→≡ key k, ≡→== key k)

  -- A new key comes last.
  pub assign_new :
      (key : String) (a : A) (d : Dictionary A)
      → contains key (keys d) ≡ false
      → assign key a d ≡ d ++ (key, a) ∷ []
  unfolding assign contains
  assign_new key a [] h = refl
  assign_new key a ((k, b) ∷ rest) h = ground (arith, assign_new key a rest, ==→≡ k key, ≡→== key k)

  pub keys-append :
      (d : Dictionary A) (key : String) (a : A) → keys (d ++ (key, a) ∷ []) ≡ keys d ++ key ∷ []
  keys-append [] key a = refl
  keys-append ((k, b) ∷ rest) key a = ap (λ ks. k ∷ ks) (keys-append rest key a)

  pub values-append :
      (d : Dictionary A) (key : String) (a : A) → values (d ++ (key, a) ∷ []) ≡ values d ++ a ∷ []
  values-append [] key a = refl
  values-append ((k, b) ∷ rest) key a = ap (λ vs. b ∷ vs) (values-append rest key a)

  pub keys_of_append : (d d' : Dictionary A) → keys (d ++ d') ≡ keys d ++ keys d'
  keys_of_append [] d' = refl
  keys_of_append ((k, b) ∷ rest) d' = ap (λ ks. k ∷ ks) (keys_of_append rest d')
