-- ===== src/Prelude/Texts.antt =====
-- Text as a list of code points, and Python's `str.strip` test.
use Prim.Native.Nat.{ℕ}
use Prim.Native.Char.{code}
use Prim.Native.String.{String}
use mathlib.Core.Bool.{Bool, true, false, ◌||◌, ◌&&◌}
use mathlib.Core.List.{List, [], ◌∷◌}
use mathlib.Core.Path.{◌≡◌, refl, sym}
use mathlib.Core.Logic.{◌↔◌, inl, inr}
use technical_test_mitus_ai.Prelude.Tests.{◌==◌, nat_eq, nat_eq_iff, leb, if◌then◌else◌, Bool-cases}
use technical_test_mitus_ai.Prelude.Lists.{all, list_eq, list_beq_iff}

abbrev pub codes : String → List ℕ
codes String.[] = []
codes (String.◌∷◌ c s) = code c ∷ codes s

abbrev pub in_range : ℕ → ℕ → ℕ → Bool
in_range lo hi c = leb lo c && leb c hi

-- `str.isspace`, and `\s` of a text pattern
unfoldable pub is_space : ℕ → Bool
is_space c =
    in_range 9 13 c
    || in_range 28 32 c
    || c == 0x85
    || c == 0xa0
    || c == 0x1680
    || in_range 0x2000 0x200a c
    || in_range 0x2028 0x2029 c
    || c == 0x202f
    || c == 0x205f
    || c == 0x3000

-- `not value.strip()`
unfoldable pub is_blank : String → Bool
unfolding is_space all
is_blank s = all is_space (codes s)

abbrev pub extend : ℕ → List (List ℕ) → List (List ℕ)
extend c [] = (c ∷ []) ∷ []
extend c (part ∷ parts) = (c ∷ part) ∷ parts

-- `s.split(separator)`: the texts between the separators
unfoldable pub split_on : ℕ → List ℕ → List (List ℕ)
split_on separator [] = [] ∷ []
split_on separator (c ∷ s) =
    let rest = split_on separator s in if c == separator then [] ∷ rest else extend c rest

-- `s.split(separator)[0]`
unfoldable pub before : ℕ → List ℕ → List ℕ
before separator [] = []
before separator (c ∷ s) = let rest = before separator s in if c == separator then [] else c ∷ rest

-- `s.startswith(prefix)`
unfoldable pub starts_with : (s prefix : List ℕ) → Bool
starts_with s [] = true
starts_with [] (p ∷ prefix) = false
starts_with (c ∷ s) (p ∷ prefix) = c == p && starts_with s prefix

-- The equality of texts as lists of code points
pub codes_iff : (a b : List ℕ) → ((a == b) ≡ true) ↔ (a ≡ b)
codes_iff = list_beq_iff (λ x y. x == y) nat_eq_iff

pub codes_refl : (a : List ℕ) → (a == a) ≡ true
codes_refl a = (codes_iff a a).1 refl

pub codes_apart : (a b : List ℕ) → a == b ≡ false → b == a ≡ false
codes_apart a b other = elim (Bool-cases (b == a)) [
  | inl same ↦ cc ((codes_iff a b).1 (sym ((codes_iff b a).0 same)), other)
  | inr away ↦ away
]
