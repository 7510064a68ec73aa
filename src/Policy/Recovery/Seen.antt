-- ===== src/Policy/Recovery/Seen.antt =====
-- The dict `seen` of infra/terraform/scripts/p6_plan_policy.py, and its sorted iteration.
use technical_test_mitus_ai.Prelude.{
  ℕ, suc, ◌≤◌, ◌≡◌, refl, sym, ◌∙◌, ◌↔◌, inl, inr, Bool, true, false, ◌&&◌, ◌||◌, List, [], ◌∷◌,
  ◌==◌, nat_eq, list_eq, codes_iff, codes_refl, codes_apart, if◌then◌else◌, ltb, is_empty, is_some,
  All, Bool-cases, arith,
}
use technical_test_mitus_ai.Policy.Recovery.{
  count_seen, is_seen, duplicates, missing, reviewed_action, p6_allowlist, precedes, insert_by,
  sort_by,
}

-- `seen.get(k, 0)`
abbrev pub count_of : List ℕ → List (List ℕ × ℕ) → ℕ
count_of k [] = 0
count_of k ((key, n) ∷ seen) = let rest = count_of k seen in if key == k then n else rest

-- Each key once, with a positive count
abbrev pub Tidy : List (List ℕ × ℕ) → Type 0
Tidy [] = Unit
Tidy ((key, n) ∷ seen) = (1 ≤ n) × (is_seen key seen ≡ false) × Tidy seen

pub count_of-count_seen :
    (k bare : List ℕ) (seen : List (List ℕ × ℕ))
    → count_of k (count_seen bare seen)
      ≡ (if bare == k then suc (count_of k seen) else count_of k seen)
count_of-count_seen k bare [] = ground arith
count_of-count_seen k bare ((key, n) ∷ seen) = elim (Bool-cases (key == bare)) [
  | inl mine ↦
      let same = (codes_iff key bare).0 mine in
      rw (mine, same)
        (elim (Bool-cases (bare == k)) [ inl here ↦ rw here refl | inr away ↦ rw away refl ])
  | inr other ↦ rw other (elim (Bool-cases (key == k)) [
    | inl here ↦
        let same = (codes_iff key k).0 here in
        let apart : bare == k ≡ false = elim (Bool-cases (bare == k)) [
          | inl both ↦ cc (other, (codes_iff key bare).1 (same ∙ sym ((codes_iff bare k).0 both)))
          | inr away ↦ away
        ] in
        rw (here, apart) refl
    | inr away ↦ rw away (count_of-count_seen k bare seen)
  ])
]

is_seen-count_seen :
    (k bare : List ℕ) (seen : List (List ℕ × ℕ))
    → is_seen k (count_seen bare seen) ≡ (is_seen k seen || bare == k)
is_seen-count_seen k bare [] = ground arith
is_seen-count_seen k bare ((key, n) ∷ seen) = elim (Bool-cases (key == bare)) [
  | inl mine ↦
      let same = (codes_iff key bare).0 mine in
      rw (mine, same)
        (elim (Bool-cases (bare == k)) [ inl here ↦ rw here refl | inr away ↦ ground arith ])
  | inr other ↦
      rw (other, is_seen-count_seen k bare seen)
        (elim (Bool-cases (key == k)) [ inl here ↦ rw here refl | inr away ↦ rw away refl ])
]

pub count_seen-Tidy :
    (bare : List ℕ) (seen : List (List ℕ × ℕ)) → Tidy seen → Tidy (count_seen bare seen)
count_seen-Tidy bare [] t = (omega arith, refl, tt)
count_seen-Tidy bare ((key, n) ∷ seen) (positive, once, t) = elim (Bool-cases (key == bare)) [
  | inl mine ↦ rw mine (omega arith, once, t)
  | inr other ↦ rw other (
    positive,
    is_seen-count_seen key bare seen ∙ rw once (codes_apart key bare other),
    count_seen-Tidy bare seen t,
  )
]

module _ {A : Type 0} (key : A → List ℕ) (P : A → Type 0) where
  All-insert_by : (a : A) (xs : List A) → All P (insert_by key a xs) ↔ (P a × All P xs)
  unfolding insert_by
  All-insert_by a [] = (λ h. h, λ h. h)
  All-insert_by a (b ∷ xs) = elim (Bool-cases (precedes (key a) (key b))) [
    | inl first ↦ rw first (λ h. h, λ h. h)
    | inr later ↦ rw later (
      λ h. let rest = (All-insert_by a xs).0 h.1 in (rest.0, (h.0, rest.1)),
      λ h. (h.1.0, (All-insert_by a xs).1 (h.0, h.1.1)),
    )
  ]

  -- A sorted list has the same elements.
  pub All-sort_by : (xs : List A) → All P (sort_by key xs) ↔ All P xs
  unfolding sort_by
  All-sort_by [] = (λ h. h, λ h. h)
  All-sort_by (a ∷ xs) = (
    λ h. let rest = (All-insert_by a (sort_by key xs)).0 h in (rest.0, (All-sort_by xs).0 rest.1),
    λ h. (All-insert_by a (sort_by key xs)).1 (h.0, (All-sort_by xs).1 h.1),
  )

-- An entry that is no duplicate of an allowlisted resource
abbrev pub Single : List ℕ × ℕ → Type 0
Single (bare, n) = (ltb 1 n && is_some (reviewed_action bare p6_allowlist)) ≡ false

pub duplicates_iff :
    (seen : List (List ℕ × ℕ)) → (is_empty (duplicates seen) ≡ true) ↔ All Single seen
duplicates_iff [] = (λ h. tt, λ h. refl)
duplicates_iff ((bare, n) ∷ seen) =
    elim (Bool-cases (ltb 1 n && is_some (reviewed_action bare p6_allowlist))) [
      | inl twice ↦ rw twice (λ h. cc, λ h. cc (h.0))
      | inr once ↦
          rw once (λ h. (refl, (duplicates_iff seen).0 h), λ h. (duplicates_iff seen).1 h.1)
    ]

pub missing_iff :
    (keys : List (List ℕ)) (seen : List (List ℕ × ℕ))
    → (is_empty (missing keys seen) ≡ true) ↔ All (λ k. is_seen k seen ≡ true) keys
missing_iff [] seen = (λ h. tt, λ h. refl)
missing_iff (k ∷ keys) seen = elim (Bool-cases (is_seen k seen)) [
  | inl there ↦
      rw there (λ h. (refl, (missing_iff keys seen).0 h), λ h. (missing_iff keys seen).1 h.1)
  | inr gone ↦ rw gone (λ h. cc, λ h. cc (h.0))
]

pub is_seen-count_of :
    (k : List ℕ) (seen : List (List ℕ × ℕ))
    → Tidy seen
    → is_seen k seen ≡ true
    → 1 ≤ count_of k seen
is_seen-count_of k [] t h = cc
is_seen-count_of k ((key, n) ∷ seen) (positive, once, t) h = elim (Bool-cases (key == k)) [
  | inl here ↦ rw here positive
  | inr away ↦ rw away (is_seen-count_of k seen t (rw away at h))
]

at_most_one : (n : ℕ) → (ltb 1 n && true) ≡ false → n ≤ 1
at_most_one n h = ground arith

pub Single-count_of :
    (k : List ℕ) (seen : List (List ℕ × ℕ))
    → is_some (reviewed_action k p6_allowlist) ≡ true
    → All Single seen
    → count_of k seen ≤ 1
Single-count_of k [] listed h = omega arith
Single-count_of k ((key, n) ∷ seen) listed h = elim (Bool-cases (key == k)) [
  | inl here ↦
      let same = (codes_iff key k).0 here in rw here (at_most_one n (rw (same, listed) at h.0))
  | inr away ↦ rw away (Single-count_of k seen listed h.1)
]

unseen-count_of :
    (k : List ℕ) (seen : List (List ℕ × ℕ)) → is_seen k seen ≡ false → count_of k seen ≡ 0
unseen-count_of k [] h = refl
unseen-count_of k ((key, n) ∷ seen) h = elim (Bool-cases (key == k)) [
  | inl here ↦ cc (rw here at h)
  | inr away ↦ rw away (unseen-count_of k seen (rw away at h))
]

pub count_of-is_seen :
    (k : List ℕ) (seen : List (List ℕ × ℕ)) → 1 ≤ count_of k seen → is_seen k seen ≡ true
count_of-is_seen k seen h = elim (Bool-cases (is_seen k seen)) [
  | inl there ↦ there
  | inr gone ↦ absurd (omega (arith, unseen-count_of k seen gone))
]

not_twice : (n : ℕ) (b : Bool) → (b ≡ true → n ≤ 1) → (ltb 1 n && b) ≡ false
not_twice n true h = ground (arith, h refl)
not_twice n false h = ground arith

-- No allowlisted key counted twice
abbrev pub AtMostOnce : List (List ℕ × ℕ) → Type 0
AtMostOnce seen =
    (k : List ℕ) → is_some (reviewed_action k p6_allowlist) ≡ true → count_of k seen ≤ 1

pub count_of-Single : (seen : List (List ℕ × ℕ)) → Tidy seen → AtMostOnce seen → All Single seen
count_of-Single [] t h = tt
count_of-Single ((key, n) ∷ seen) (positive, once, t) h = (
  not_twice n (is_some (reviewed_action key p6_allowlist))
      (λ listed. rw (codes_refl key) at (h key listed)),
  count_of-Single seen t (λ k listed. elim (Bool-cases (key == k)) [
    | inl here ↦
        let same = (codes_iff key k).0 here in
        omega (arith, unseen-count_of k seen (rw same at once))
    | inr away ↦ rw away at (h k listed)
  ]),
)
