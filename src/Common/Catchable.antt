-- ===== src/Common/Catchable.antt =====
-- Results that a handler `except (TypeError, ValueError)` catches if they are exceptions, with one rule
-- for each way to build a result.
use quantforge_ai.Common.Outcome.{
  value_error, type_error, Result, ok, err, raise_if, for_each, for_some, ◌>>=◌,
}
use quantforge_ai.Common.Tests.{if◌then◌else◌}
use Prim.Native.String.{String}
use mathlib.Core.Bool.{Bool, true, false}
use mathlib.Core.Option.{Option, none, some}
use mathlib.Core.List.{List, [], ◌∷◌}

pub data Catchable {ℓ} {A : Type ℓ} : Result A → Type ℓ where
  returned : (a : A) → Catchable (ok a)
  value : (m : String) → Catchable (err (value_error m))
  mistyped : (m : String) → Catchable (err (type_error m))

pub Catchable-raise_if : (b : Bool) (m : String) → Catchable (raise_if b (value_error m))
Catchable-raise_if true m = value m
Catchable-raise_if false m = returned tt

pub Catchable-bind {ℓ κ} :
    {A : Type ℓ} {B : Type κ} (m : Result A) (f : A → Result B)
    → Catchable m
    → ((a : A) → Catchable (f a))
    → Catchable (m >>= f)
Catchable-bind m f (returned a) k = k a
Catchable-bind m f (value s) k = value s
Catchable-bind m f (mistyped s) k = mistyped s

pub Catchable-for_each {ℓ} :
    {A : Type ℓ} (f : A → Result (Unit {0})) (xs : List A)
    → ((x : A) → Catchable (f x))
    → Catchable (for_each f xs)
unfolding for_each
Catchable-for_each f [] k = returned tt
Catchable-for_each f (x ∷ xs) k = Catchable-bind (f x) _ (k x) (λ _. Catchable-for_each f xs k)

pub Catchable-for_some {ℓ} :
    {A : Type ℓ} (f : A → Result (Unit {0})) (o : Option A)
    → ((x : A) → Catchable (f x))
    → Catchable (for_some f o)
Catchable-for_some f none k = returned tt
Catchable-for_some f (some x) k = k x

pub if-Catchable {ℓ} :
    {A : Type ℓ} (b : Bool) (m n : Result A)
    → Catchable m
    → Catchable n
    → Catchable (if b then m else n)
if-Catchable true m n h k = h
if-Catchable false m n h k = k

pub ruleset catch_rules = (
  returned, value, mistyped, Catchable-raise_if, Catchable-bind, Catchable-for_each,
  Catchable-for_some,
)
