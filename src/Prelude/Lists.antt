-- ===== src/Prelude/Lists.antt =====
-- Lists measured by native numbers, and Python's `any`, `in`, `set` over a sequence.
use Prim.Native.Nat.{ℕ, zero, suc, ◌≤◌, ◌+◌}
use mathlib.Core.Path.{◌≡◌, refl}
use mathlib.Core.Logic.{◌↔◌}
use mathlib.Core.Bool.{Bool, true, false, ◌&&◌, ◌||◌}
use mathlib.Core.List.{List, [], ◌∷◌, ◌++◌}
use mathlib.Core.Option.{Option, none, some}
use native.Mathlib.Omega.{arith}
use technical_test_mitus_ai.Prelude.Tests.{Eq, ◌==◌, nat_eq, if◌then◌else◌}

module _ {ℓ} {A : Type ℓ} where
  abbrev pub length : List A → ℕ
  length [] = 0
  length (x ∷ xs) = suc (length xs)

  abbrev pub is_empty : List A → Bool
  is_empty [] = true
  is_empty (x ∷ xs) = false

  abbrev pub get_elem? : List A → ℕ → Option A
  get_elem? [] i = none
  get_elem? (x ∷ xs) zero = some x
  get_elem? (x ∷ xs) (suc i) = get_elem? xs i

  -- `(*xs[:i], v, *xs[i + 1:])`
  abbrev pub set : List A → ℕ → A → List A
  set [] i v = []
  set (x ∷ xs) zero v = v ∷ xs
  set (x ∷ xs) (suc i) v = x ∷ set xs i v

  unfoldable pub any : (A → Bool) → List A → Bool
  any p [] = false
  any p (x ∷ xs) = p x || any p xs

  unfoldable pub all : (A → Bool) → List A → Bool
  all p [] = true
  all p (x ∷ xs) = p x && all p xs

  -- Every element has the property.
  abbrev pub All {κ} : (A → Type κ) → List A → Type κ
  All P [] = Unit
  All P (x ∷ xs) = P x × All P xs

module _ {ℓ} {A : Type ℓ} ⦃e : Eq A⦄ where
  unfoldable pub contains : List A → A → Bool
  contains [] a = false
  contains (x ∷ xs) a = x == a || contains xs a

  -- `set(xs)`: each value once.
  unfoldable pub to_set : List A → List A
  unfolding contains
  to_set [] = []
  to_set (x ∷ xs) = let rest = to_set xs in if contains xs x then rest else x ∷ rest

  -- `len(xs) == len(set(xs))`
  unfoldable pub all_distinct : List A → Bool
  unfolding to_set
  all_distinct xs = length xs == length (to_set xs)

  -- `set(xs) <= set(ys)`, that is: `set(xs) - set(ys)` is empty
  unfoldable pub subset_of : List A → List A → Bool
  unfolding all contains
  subset_of xs ys = all (contains ys) xs

  -- No value stands twice.
  abbrev pub Distinct : List A → Type 0
  Distinct [] = Unit
  Distinct (x ∷ xs) = (contains xs x ≡ false) × Distinct xs

  pub length-to_set-le : (xs : List A) → length (to_set xs) ≤ length xs
  unfolding to_set
  length-to_set-le [] = omega arith
  length-to_set-le (x ∷ xs) = ground (arith, length-to_set-le xs)

  pub length-to_set_of_Distinct : (xs : List A) → Distinct xs → length (to_set xs) ≡ length xs
  unfolding to_set
  length-to_set_of_Distinct [] d = refl
  length-to_set_of_Distinct (x ∷ xs) d = ground (arith, length-to_set_of_Distinct xs d.1)

  pub Distinct-length-to_set : (xs : List A) → length (to_set xs) ≡ length xs → Distinct xs
  unfolding to_set
  Distinct-length-to_set [] h = tt
  Distinct-length-to_set (x ∷ xs) h = (
    ground (arith, length-to_set-le xs),
    Distinct-length-to_set xs (ground (arith, length-to_set-le xs)),
  )

  pub all_distinct_iff : (xs : List A) → (all_distinct xs ≡ true) ↔ Distinct xs
  unfolding all_distinct
  all_distinct_iff xs = (
    λ h. Distinct-length-to_set xs (ground arith),
    λ d. ground (arith, length-to_set_of_Distinct xs d),
  )

module _ {ℓ} {A : Type ℓ} where
  pub all_iff : (p : A → Bool) (xs : List A) → (all p xs ≡ true) ↔ All (λ x. p x ≡ true) xs
  unfolding all
  all_iff p [] = (λ h. tt, λ h. refl)
  all_iff p (x ∷ xs) = (
    λ h. (ground arith, (all_iff p xs).0 (ground arith)),
    λ h. ground (arith, (all_iff p xs).1 h.1),
  )

  pub any_iff : (p : A → Bool) (xs : List A) → (any p xs ≡ false) ↔ All (λ x. p x ≡ false) xs
  unfolding any
  any_iff p [] = (λ h. tt, λ h. refl)
  any_iff p (x ∷ xs) = (
    λ h. (ground arith, (any_iff p xs).0 (ground arith)),
    λ h. ground (arith, (any_iff p xs).1 h.1),
  )

unfoldable pub list_beq {ℓ} : {A : Type ℓ} → (A → A → Bool) → List A → List A → Bool
list_beq f [] [] = true
list_beq f (x ∷ xs) (y ∷ ys) = f x y && list_beq f xs ys
list_beq f _ _ = false

instance abbrev pub list_eq {ℓ} : {A : Type ℓ} ⦃e : Eq A⦄ → Eq (List A)
list_eq ⦃e⦄ = record { beq = list_beq e.beq }

-- `list_beq` decides equality where its test does.
pub list_beq_iff {ℓ} :
    {A : Type ℓ} (f : A → A → Bool)
    → ((x y : A) → (f x y ≡ true) ↔ (x ≡ y))
    → (xs ys : List A) → (list_beq f xs ys ≡ true) ↔ (xs ≡ ys)
unfolding list_beq
list_beq_iff f decides [] [] = (λ h. refl, λ h. refl)
list_beq_iff f decides [] (y ∷ ys) = (λ h. cc, λ h. cc)
list_beq_iff f decides (x ∷ xs) [] = (λ h. cc, λ h. cc)
list_beq_iff f decides (x ∷ xs) (y ∷ ys) = (
  λ h.
      ground
        (arith, (decides x y).0 (ground arith), (list_beq_iff f decides xs ys).0 (ground arith)),
  λ h.
      ground
        (arith, (decides x y).1 (ground arith), (list_beq_iff f decides xs ys).1 (ground arith)),
)

module _ {ℓ} {A : Type ℓ} where
  pub length-++ : (xs ys : List A) → length (xs ++ ys) ≡ length xs + length ys
  length-++ [] ys = omega arith
  length-++ (x ∷ xs) ys = let rest = length-++ xs ys in omega arith
