-- ===== src/Uploads/Characters.antt =====
-- The text of a list of code points.
use Prim.Native.Nat.{compare, Ordering}
use Prim.Native.Char.{Char, char, nul}
use Prim.Native.String as Native
use technical_test_mitus_ai.Prelude.{ℕ, String, ◌≡◌, refl, ◌⊎◌, inl, inr, List, [], ◌∷◌}

abbrev Known : Ordering → Type 0
Known o = (o ≡ Ordering.lt) ⊎ ((o ≡ Ordering.gt) ⊎ Unit {0})

unfoldable known : (o : Ordering) → Known o
known Ordering.lt = inl refl
known Ordering.gt = inr (inl refl)
known Ordering.eq = inr (inr tt)

unfoldable high_character : (n : ℕ) → compare n 55296 ≡ Ordering.gt → Char
unfolding known
high_character n high = elim (known (compare 57343 n)) [
  | inl above ↦ elim (known (compare n 1114112)) [
    | inl below ↦ char n (rw (high, above, below) tt)
    | inr other ↦ nul
  ]
  | inr other ↦ nul
]

-- `chr(n)`; the numbers that are no scalar value do not occur in a text
unfoldable pub character : ℕ → Char
unfolding known high_character
character n = elim (known (compare n 55296)) [
  | inl low ↦ char n (rw low tt)
  | inr (inl high) ↦ high_character n high
  | inr (inr surrogate) ↦ nul
]

unfoldable pub text_of : List ℕ → String
unfolding character
text_of [] = Native.[]
text_of (c ∷ s) = Native.◌∷◌ (character c) (text_of s)
