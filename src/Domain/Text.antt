-- ===== src/Domain/Text.antt =====
-- The text operations that the validators use: `strip`, `startswith`, `in` and `replace`, over the
-- code points of a text.
use Prim.Native.Char.{code}
use quantforge_ai.Common.{
  ℕ, Bool, true, false, ◌&&◌, ◌||◌, String, List, [], ◌∷◌, map, leb, all, if◌then◌else◌, eqb,
}

unfoldable pub codes : String → List ℕ
codes String.[] = []
codes (String.◌∷◌ c s) = code c ∷ codes s

-- The code points for which `str.isspace` holds, those that `strip` takes off.
unfoldable pub is_space : ℕ → Bool
is_space c =
    (leb 0x09 c && leb c 0x0d)
    || (leb 0x1c c && leb c 0x20)
    || eqb c 0x85
    || eqb c 0xa0
    || eqb c 0x1680
    || (leb 0x2000 c && leb c 0x200a)
    || eqb c 0x2028
    || eqb c 0x2029
    || eqb c 0x202f
    || eqb c 0x205f
    || eqb c 0x3000

-- `not s.strip()`
unfoldable pub is_blank : String → Bool
unfolding is_space codes
is_blank s = all is_space (codes s)

-- `s.startswith(p)`
unfoldable pub has_prefix : List ℕ → List ℕ → Bool
has_prefix [] s = true
has_prefix (c ∷ p) [] = false
has_prefix (c ∷ p) (d ∷ s) = eqb c d && has_prefix p s

-- `p in s`
unfoldable pub has_infix : List ℕ → List ℕ → Bool
unfolding has_prefix
has_infix p [] = has_prefix p []
has_infix p (d ∷ s) = has_prefix p (d ∷ s) || has_infix p s

-- `s.replace("/", ".")`
unfoldable pub replace_slash : List ℕ → List ℕ
replace_slash = map (λ c. if eqb c b'/' then b'.' else c)
