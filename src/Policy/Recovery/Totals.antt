-- ===== src/Policy/Recovery/Totals.antt =====
-- The totals of a plan that infra/terraform/scripts/p6_plan_policy.py reviews.
use technical_test_mitus_ai.Prelude.{
  codes_iff, codes_refl, codes_apart, ℕ, suc, ◌+◌, String, ◌≡◌, refl, ◌⊎◌, inl, inr, true, false,
  some, List, [], ◌∷◌, ◌==◌, nat_eq, string_eq, list_eq, if◌then◌else◌, contains, Distinct, All,
  Bool-cases, arith,
}
use technical_test_mitus_ai.Policy.Address.{ResourceChange, actions_of, is_noop}
use technical_test_mitus_ai.Policy.Recovery.{is_delete, reviewed_action, p6_allowlist}
use technical_test_mitus_ai.Policy.Recovery.Exact.{bare, times}

abbrev pub Either : String → Type 0
Either action = (action ≡ "create") ⊎ (action ≡ "update")

action_in :
    (bare : List ℕ) (action : String) (allowlist : List (List ℕ × String))
    → All (λ entry. Either entry.1) allowlist
    → reviewed_action bare allowlist ≡ some action
    → Either action
action_in bare action [] h e = cc
action_in bare action ((key, a) ∷ allowlist) h e = elim (Bool-cases (key == bare)) [
  | inl here ↦ let same : a ≡ action = cc (rw here at e) in rw (← same) h.0
  | inr away ↦ action_in bare action allowlist h.1 (rw away at e)
]

pub reviewed-Either :
    (bare : List ℕ) (action : String)
    → reviewed_action bare p6_allowlist ≡ some action
    → Either action
reviewed-Either bare action h =
    action_in bare action p6_allowlist
      (
        inl refl,
        (
          inl refl,
          (
            inl refl,
            (inl refl, (inl refl, (inr refl, (inr refl, (inr refl, (inr refl, (inr refl, tt))))))),
          ),
        ),
      )
      h

pub Either-kept : (action : String) → Either action → is_delete (action ∷ []) ≡ false
unfolding contains
Either-kept action (inl created) = rw created refl
Either-kept action (inr updated) = rw updated refl

-- How many entries of an allowlist with an action a resource matches
abbrev hits : String → List ℕ → List (List ℕ × String) → ℕ
hits action bare [] = 0
hits action bare ((key, a) ∷ allowlist) =
    let rest = hits action bare allowlist in
    if a == action then (if bare == key then suc rest else rest) else rest

-- How many changes are of the resources with an action
abbrev pub tally : String → List (List ℕ × String) → List ResourceChange → ℕ
tally action [] plan = 0
tally action ((key, a) ∷ allowlist) plan =
    let rest = tally action allowlist plan in if a == action then times key plan + rest else rest

unfoldable pub keys : List (List ℕ × String) → List (List ℕ)
keys [] = []
keys ((key, a) ∷ allowlist) = key ∷ keys allowlist

pub tally-step :
    (action : String) (allowlist : List (List ℕ × String)) (rc : ResourceChange)
    (plan : List ResourceChange)
    → is_noop (actions_of rc) ≡ false
    → tally action allowlist (rc ∷ plan)
      ≡ hits action (bare rc) allowlist + tally action allowlist plan
tally-step action [] rc plan acts = omega arith
tally-step action ((key, a) ∷ allowlist) rc plan acts =
    let rest = tally-step action allowlist rc plan acts in
    elim (Bool-cases (a == action)) [
      | inr other ↦ rw other rest
      | inl mine ↦
          rw (mine, acts)
            (elim (Bool-cases (bare rc == key)) [
              | inl here ↦ rw here (omega (arith, rest))
              | inr away ↦ rw away (omega (arith, rest))
            ])
    ]

pub tally-quiet :
    (action : String) (allowlist : List (List ℕ × String)) (rc : ResourceChange)
    (plan : List ResourceChange)
    → is_noop (actions_of rc) ≡ true
    → tally action allowlist (rc ∷ plan) ≡ tally action allowlist plan
tally-quiet action [] rc plan quiet = refl
tally-quiet action ((key, a) ∷ allowlist) rc plan quiet =
    rw (tally-quiet action allowlist rc plan quiet, quiet) refl

no_hits :
    (action : String) (b : List ℕ) (allowlist : List (List ℕ × String))
    → contains (keys allowlist) b ≡ false
    → hits action b allowlist ≡ 0
unfolding contains keys
no_hits action b [] h = refl
no_hits action b ((key, a) ∷ allowlist) h = elim (Bool-cases (key == b)) [
  | inl here ↦ cc (rw here at h)
  | inr away ↦
      rw (codes_apart key b away, no_hits action b allowlist (rw away at h))
        (elim (Bool-cases (a == action)) [ inl mine ↦ rw mine refl | inr other ↦ rw other refl ])
]

-- A listed resource hits exactly its own entry.
pub hits_of :
    (action a : String) (b : List ℕ) (allowlist : List (List ℕ × String))
    → Distinct (keys allowlist)
    → reviewed_action b allowlist ≡ some a
    → hits action b allowlist ≡ (if a == action then 1 else 0)
unfolding keys
hits_of action a b [] d h = cc
hits_of action a b ((key, first) ∷ allowlist) d h = elim (Bool-cases (key == b)) [
  | inl here ↦
      let same : first ≡ a = cc (rw here at h) in
      let named = (codes_iff key b).0 here in
      rw (same, named, codes_refl b, no_hits action b allowlist (rw (← named) d.0)) refl
  | inr away ↦
      rw (codes_apart key b away, hits_of action a b allowlist d.1 (rw away at h))
        (elim (Bool-cases (first == action)) [
          | inl mine ↦ rw mine refl
          | inr other ↦ rw other refl
        ])
]
