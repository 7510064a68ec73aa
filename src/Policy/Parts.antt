-- ===== src/Policy/Parts.antt =====
-- The parts into which infra/terraform/scripts/plan_policy.py splits the address of a resource.
use technical_test_mitus_ai.Prelude.{
  ℕ, suc, ◌+◌, ◌≡◌, refl, sym, ap, ◌∙◌, ◌↔◌, ◌⊎◌, inl, inr, false, List, [], ◌∷◌, ◌++◌,
  append_assoc, split_on, extend, before, ◌==◌, nat_eq, nat_eq_iff, string_eq, list_eq,
  if◌then◌else◌, Bool-cases, arith, some, subst,
}
use technical_test_mitus_ai.Policy.Address.{dot, bracket, last_two}

abbrev pub count : ℕ → List ℕ → ℕ
count k [] = 0
count k (c ∷ s) = let rest = count k s in if c == k then suc rest else rest

-- Nothing, or a text up to a dot
abbrev pub IsModulePath : List ℕ → Type 0
IsModulePath s = (s ≡ []) ⊎ ((outer : List ℕ) × (s ≡ outer ++ dot ∷ []))

-- Nothing, or a text from a bracket on
abbrev pub IsIndex : List ℕ → Type 0
IsIndex s = (s ≡ []) ⊎ ((key : List ℕ) × (s ≡ bracket ∷ key))

pub count-++ : (k : ℕ) (s t : List ℕ) → count k (s ++ t) ≡ count k s + count k t
count-++ k [] t = omega arith
count-++ k (c ∷ s) t =
    let rest = count-++ k s t in
    elim (Bool-cases (c == k)) [
      | inl here ↦ rw here (omega (arith, rest))
      | inr other ↦ rw other rest
    ]

-- The parts joined, each followed by the separator
abbrev closed : List (List ℕ) → List ℕ
closed [] = []
closed (part ∷ parts) = part ++ dot ∷ closed parts

abbrev joined : List (List ℕ) → List ℕ
joined [] = []
joined (x ∷ []) = x
joined (x ∷ y ∷ parts) = x ++ dot ∷ joined (y ∷ parts)

abbrev Dotless : List (List ℕ) → Type 0
Dotless [] = Unit
Dotless (part ∷ parts) = (count dot part ≡ 0) × Dotless parts

closed-IsModulePath : (parts : List (List ℕ)) → IsModulePath (closed parts)
closed-IsModulePath [] = inl refl
closed-IsModulePath (part ∷ parts) = elim (closed-IsModulePath parts) [
  | inl e ↦ inr (part, ap (λ s. part ++ dot ∷ s) e)
  | inr (outer, e) ↦ inr (
    part ++ dot ∷ outer,
    ap (λ s. part ++ dot ∷ s) e ∙ sym (append_assoc part (dot ∷ outer) (dot ∷ [])),
  )
]

joined-last :
    (front : List (List ℕ)) (x y : List ℕ)
    → joined (front ++ x ∷ y ∷ []) ≡ closed front ++ (x ++ dot ∷ y)
joined-last [] x y = refl
joined-last (part ∷ []) x y = sym (append_assoc part (dot ∷ []) (x ++ dot ∷ y))
joined-last (part ∷ next ∷ front) x y =
    ap (λ s. part ++ dot ∷ s) (joined-last (next ∷ front) x y)
    ∙ sym (append_assoc part (dot ∷ closed (next ∷ front)) (x ++ dot ∷ y))

extend-joined :
    (c : ℕ) (parts : List (List ℕ))
    → c == dot ≡ false
    → Dotless parts
    → (joined (extend c parts) ≡ c ∷ joined parts) × Dotless (extend c parts)
extend-joined c [] other free = (refl, (rw other refl, tt))
extend-joined c (x ∷ []) other free = (refl, (rw other free.0, tt))
extend-joined c (x ∷ y ∷ parts) other free = (refl, (rw other free.0, free.1))

split_on-starts :
    (s : List ℕ) → (x : List ℕ) × (parts : List (List ℕ)) × (split_on dot s ≡ x ∷ parts)
unfolding split_on
split_on-starts [] = ([], [], refl)
split_on-starts (c ∷ s) = elim (Bool-cases (c == dot)) [
  | inl here ↦ ([], split_on dot s, rw here refl)
  | inr other ↦ let (x, parts, e) = split_on-starts s in (c ∷ x, parts, rw other (ap (extend c) e))
]

joined-split_on : (s : List ℕ) → (joined (split_on dot s) ≡ s) × Dotless (split_on dot s)
unfolding split_on
joined-split_on [] = (refl, (refl, tt))
joined-split_on (c ∷ s) =
    let (whole, free) = joined-split_on s in
    elim (Bool-cases (c == dot)) [
      | inl here ↦
          let (x, parts, e) = split_on-starts s in
          let same : c ≡ dot = (nat_eq_iff c dot).0 here in
          rw here (
            ap (λ ps. joined ([] ∷ ps)) e
                ∙ ap (λ ps. dot ∷ joined ps) (sym e)
                ∙ ap (λ t. dot ∷ t) whole
                ∙ ap (λ k. k ∷ s) (sym same),
            (refl, free),
          )
      | inr other ↦
          let (e, apart) = extend-joined c (split_on dot s) other free in
          rw other (e ∙ ap (λ t. c ∷ t) whole, apart)
    ]

-- The two last parts of a text follow a module path, and have no dots.
last_two-front :
    (parts : List (List ℕ)) (x y : List ℕ)
    → last_two parts ≡ some (x, y)
    → (front : List (List ℕ)) × (parts ≡ front ++ x ∷ y ∷ [])
unfolding last_two
last_two-front [] x y h = cc
last_two-front (u ∷ []) x y h = cc
last_two-front (u ∷ v ∷ []) x y h = ([], cc)
last_two-front (u ∷ v ∷ w ∷ parts) x y h =
    let (front, e) = last_two-front (v ∷ w ∷ parts) x y h in (u ∷ front, ap (λ ps. u ∷ ps) e)

last_two-back :
    (front : List (List ℕ)) (x y : List ℕ) → last_two (front ++ x ∷ y ∷ []) ≡ some (x, y)
unfolding last_two
last_two-back [] x y = refl
last_two-back (u ∷ []) x y = refl
last_two-back (u ∷ v ∷ []) x y = refl
last_two-back (u ∷ v ∷ w ∷ front) x y = last_two-back (v ∷ w ∷ front) x y

Dotless-back :
    (front : List (List ℕ)) (x y : List ℕ)
    → Dotless (front ++ x ∷ y ∷ [])
    → (count dot x ≡ 0) × (count dot y ≡ 0)
Dotless-back [] x y (free, later) = (free, later.0)
Dotless-back (part ∷ front) x y (_, later) = Dotless-back front x y later

split_on-dotless : (s : List ℕ) → count dot s ≡ 0 → split_on dot s ≡ s ∷ []
unfolding split_on
split_on-dotless [] h = refl
split_on-dotless (c ∷ s) h = elim (Bool-cases (c == dot)) [
  | inl here ↦ cc (rw here at h)
  | inr other ↦ rw other (ap (extend c) (split_on-dotless s (rw other at h)))
]

split_on-++ : (s t : List ℕ) → split_on dot (s ++ dot ∷ t) ≡ split_on dot s ++ split_on dot t
unfolding split_on
split_on-++ [] t = refl
split_on-++ (c ∷ s) t = elim (Bool-cases (c == dot)) [
  | inl here ↦ rw here (ap (λ ps. [] ∷ ps) (split_on-++ s t))
  | inr other ↦
      let (x, parts, e) = split_on-starts s in
      rw other (
        ap (extend c) (split_on-++ s t)
        ∙ ap (λ ps. extend c (ps ++ split_on dot t)) e
        ∙ ap (λ ps. extend c ps ++ split_on dot t) (sym e))
]

-- The two last parts of an address, described without splitting it
pub last_parts_iff :
    (s x y : List ℕ)
    → (last_two (split_on dot s) ≡ some (x, y)) ↔ (
        (module_path : List ℕ) × (s ≡ module_path ++ (x ++ dot ∷ y))
        × IsModulePath module_path
        × (count dot x ≡ 0)
        × (count dot y ≡ 0))
last_parts_iff s x y = (
  λ h.
      let (front, e) = last_two-front (split_on dot s) x y h in
      let (whole, free) = joined-split_on s in
      (
        closed front,
        sym whole ∙ ap joined e ∙ joined-last front x y,
        closed-IsModulePath front,
        (Dotless-back front x y (subst Dotless e free)).0,
        (Dotless-back front x y (subst Dotless e free)).1,
      ),
  λ (module_path, e, path, x_free, y_free).
      let pair : split_on dot (x ++ dot ∷ y) ≡ x ∷ y ∷ [] =
        split_on-++ x y
        ∙ ap (λ ps. ps ++ split_on dot y) (split_on-dotless x x_free)
        ∙ ap (λ ps. x ∷ ps) (split_on-dotless y y_free) in
      elim path [
        | inl none_there ↦
            ap (λ t. last_two (split_on dot t)) (e ∙ ap (λ p. p ++ (x ++ dot ∷ y)) none_there)
            ∙ ap last_two pair
            ∙ last_two-back [] x y
        | inr (outer, up_to) ↦
            ap (λ t. last_two (split_on dot t))
              (e
                ∙ ap (λ p. p ++ (x ++ dot ∷ y)) up_to
                ∙ append_assoc outer (dot ∷ []) (x ++ dot ∷ y))
            ∙ ap last_two
                (split_on-++ outer (x ++ dot ∷ y) ∙ ap (λ ps. split_on dot outer ++ ps) pair)
            ∙ last_two-back (split_on dot outer) x y
      ],
)

pub before-cut : (t : List ℕ) → (index : List ℕ) × (t ≡ before bracket t ++ index) × IsIndex index
unfolding before
before-cut [] = ([], refl, inl refl)
before-cut (c ∷ t) = elim (Bool-cases (c == bracket)) [
  | inl here ↦
      let same : c ≡ bracket = (nat_eq_iff c bracket).0 here in
      (c ∷ t, rw here refl, inr (t, ap (λ k. k ∷ t) same))
  | inr other ↦ let (index, e, cut) = before-cut t in (index, rw other (ap (λ s. c ∷ s) e), cut)
]

pub before-whole :
    (name index : List ℕ)
    → count bracket name ≡ 0
    → IsIndex index
    → before bracket (name ++ index) ≡ name
unfolding before
before-whole [] index h (inl nothing) = ap (before bracket) nothing
before-whole [] index h (inr (key, e)) = ap (before bracket) e
before-whole (c ∷ name) index h cut = elim (Bool-cases (c == bracket)) [
  | inl here ↦ cc (rw here at h)
  | inr other ↦ rw other (ap (λ s. c ∷ s) (before-whole name index (rw other at h) cut))
]
