-- ===== src/Serialization/CanonicalDecimal.antt =====
-- `canonical_decimal` of src/quantforge/serialization/canonical.py. A text is the list of its code
-- points. The values that are not finite are no `Decimal` of the model, so the first test is gone.
use Prim.Native.Nat.{◌/◌, ◌%◌}
use mathlib.Core.List.{reverse}
use quantforge_ai.Common.{
  ℕ, zero, suc, ◌+◌, ◌-◌, ◌||◌, List, [], ◌∷◌, ◌++◌, value_error, Result, ok, err, leb, ltb,
  if◌then◌else◌, length, take, drop, replicate, any, eqb,
}
use quantforge_ai.Domain.Decimal.{Decimal, Exponent, is_zero}

abbrev pub max_decimal_digits : ℕ
max_decimal_digits = 1000

abbrev pub max_decimal_adjusted_exponent : ℕ
max_decimal_adjusted_exponent = 1000

-- The decimal digits of a number, the least significant first; the fuel is above the number.
unfoldable digits_from : ℕ → ℕ → List ℕ
digits_from zero n = []
digits_from (suc fuel) n =
    let rest = digits_from fuel (n / 10) in if eqb n 0 then [] else (b'0' + n % 10) ∷ rest

-- The text of the coefficient, which is not zero
unfoldable pub digits : ℕ → List ℕ
unfolding digits_from
digits n = reverse (digits_from (suc n) n)

-- `abs(value.adjusted())`, the adjusted exponent being exponent + len(digits) - 1
unfoldable pub adjusted : ℕ → Exponent → ℕ
adjusted len (Exponent.up n) = n + len - 1
adjusted len (Exponent.down n) = if leb (n + 1) len then len - 1 - n else n + 1 - len

-- `format(value, "f")` without the sign
unfoldable pub format_fixed : List ℕ → Exponent → List ℕ
format_fixed ds (Exponent.up n) = ds ++ replicate n b'0'
format_fixed ds (Exponent.down zero) = ds
format_fixed ds (Exponent.down n) =
    if ltb n (length ds)
    then take (length ds - n) ds ++ (b'.' ∷ drop (length ds - n) ds)
    else b'0' ∷ b'.' ∷ (replicate (n - length ds) b'0' ++ ds)

-- `rstrip` of one character from a reversed text
unfoldable pub strip_leading : ℕ → List ℕ → List ℕ
strip_leading c [] = []
strip_leading c (d ∷ ds) = let rest = strip_leading c ds in if eqb d c then rest else d ∷ ds

-- `text.rstrip("0").rstrip(".")` where the text has a point
unfoldable pub strip_fraction : List ℕ → List ℕ
unfolding strip_leading
strip_fraction text =
    if any (eqb b'.') text
    then reverse (strip_leading b'.' (strip_leading b'0' (reverse text)))
    else text

unfoldable pub canonical_decimal : Decimal → Result (List ℕ)
unfolding digits adjusted format_fixed strip_fraction
canonical_decimal d =
    let ds = digits d.coefficient in
    if is_zero d
    then ok (b'0' ∷ [])
    else if ltb max_decimal_digits (length ds)
        || ltb max_decimal_adjusted_exponent (adjusted (length ds) d.exponent)
    then err (value_error "decimal exceeds canonical magnitude limits")
    else (let normalized = strip_fraction (format_fixed ds d.exponent) in
        ok (if d.negative then b'-' ∷ normalized else normalized))
