-- ===== src/Policy/Recovery/Loop.antt =====
-- The loop of `evaluate` in infra/terraform/scripts/p6_plan_policy.py: what it finds wrong and what it counts.
use technical_test_mitus_ai.Prelude.{
  ℕ, ◌+◌, String, ◌≡◌, refl, sym, ◌∙◌, ◌↔◌, inl, inr, true, false, Option, none, some, List, [],
  ◌∷◌, ◌++◌, ◌==◌, nat_eq, string_eq, list_eq, list_beq_iff, text_eq_iff, is_empty, All, Bool-cases,
  arith,
}
use technical_test_mitus_ai.Policy.Address.{ResourceChange, actions_of, address_of, is_noop}
use technical_test_mitus_ai.Policy.Recovery.{
  Violation, Review, reviewed_action, p6_allowlist, check_action, is_delete, check_change,
  review_change, review_changes,
}
use technical_test_mitus_ai.Policy.Recovery.Seen.{
  count_of, Tidy, count_of-count_seen, count_seen-Tidy,
}
use technical_test_mitus_ai.Policy.Recovery.Exact.{bare, Reviewed, Expected, times}
use technical_test_mitus_ai.Policy.Recovery.Totals.{reviewed-Either, Either-kept}

pub is_empty-++ :
    (xs ys : List Violation)
    → (is_empty (xs ++ ys) ≡ true) ↔ ((is_empty xs ≡ true) × (is_empty ys ≡ true))
is_empty-++ [] ys = (λ h. (refl, h), λ h. h.1)
is_empty-++ (x ∷ xs) ys = (λ h. cc, λ h. cc (h.0))

actions_iff : (xs ys : List String) → ((xs == ys) ≡ true) ↔ (xs ≡ ys)
actions_iff = list_beq_iff (λ x y. x == y) text_eq_iff

check_action_iff :
    (address : String) (actions : List String) (reviewed : Option String)
    → (is_empty (check_action address actions reviewed) ≡ true)
      ↔ ((action : String) × (reviewed ≡ some action) × (actions ≡ action ∷ []))
check_action_iff address actions none = (λ h. cc, λ (action, listed, got). cc)
check_action_iff address actions (some expected) = elim (Bool-cases (actions == expected ∷ [])) [
  | inl same ↦
      rw same (λ h. (expected, refl, (actions_iff actions (expected ∷ [])).0 same), λ h. refl)
  | inr other ↦ rw other (
    λ h. cc,
    λ (action, listed, got).
        let named : expected ≡ action = cc (listed) in
        cc (other, (actions_iff actions (expected ∷ [])).1 (got ∙ sym (rw named refl))),
  )
]

check_change_iff :
    (rc : ResourceChange)
    → (is_empty (check_change (address_of rc) (actions_of rc)) ≡ true) ↔ Reviewed rc
check_change_iff rc = elim (Bool-cases (is_delete (actions_of rc))) [
  | inl gone ↦ rw gone (
    λ h. cc,
    λ (action, listed, got). cc (Either-kept action (reviewed-Either (bare rc) action listed)),
  )
  | inr kept ↦
      rw kept
        (check_action_iff (address_of rc) (actions_of rc) (reviewed_action (bare rc) p6_allowlist))
]

step-clean_iff :
    (rc : ResourceChange) (t : Review)
    → (is_empty (review_change rc t).violations ≡ true)
      ↔ ((is_empty t.violations ≡ true) × Expected rc)
unfolding review_change
step-clean_iff rc t = elim (Bool-cases (is_noop (actions_of rc))) [
  | inl quiet ↦ rw quiet (λ h. (h, inl refl), λ h. h.0)
  | inr acts ↦ rw acts (
    λ h.
        let both = (is_empty-++ t.violations (check_change (address_of rc) (actions_of rc))).0 h in
        (both.0, inr ((check_change_iff rc).0 both.1)),
    λ h. elim h.1 [
      | inl quiet ↦ cc
      | inr fine ↦
          (is_empty-++ t.violations (check_change (address_of rc) (actions_of rc))).1
            (h.0, (check_change_iff rc).1 fine)
    ],
  )
]

pub loop-clean_iff :
    (plan : List ResourceChange) (t : Review)
    → (is_empty (review_changes plan t).violations ≡ true)
      ↔ ((is_empty t.violations ≡ true) × All Expected plan)
unfolding review_changes
loop-clean_iff [] t = (λ h. (h, tt), λ h. h.0)
loop-clean_iff (rc ∷ plan) t = (
  λ h.
      let clean = (loop-clean_iff plan (review_change rc t)).0 h in
      let once = (step-clean_iff rc t).0 clean.0 in (once.0, (once.1, clean.1)),
  λ h. (loop-clean_iff plan (review_change rc t)).1 ((step-clean_iff rc t).1 (h.0, h.1.0), h.1.1),
)

Reviewed-kept : (rc : ResourceChange) → Reviewed rc → is_delete (actions_of rc) ≡ false
Reviewed-kept rc (action, listed, got) =
    rw got (Either-kept action (reviewed-Either (bare rc) action listed))

step-seen :
    (k : List ℕ) (rc : ResourceChange) (plan : List ResourceChange) (t : Review)
    → Expected rc
    → count_of k (review_change rc t).seen + times k plan ≡ count_of k t.seen + times k (rc ∷ plan)
unfolding review_change
step-seen k rc plan t h = elim (Bool-cases (is_noop (actions_of rc))) [
  | inl quiet ↦ rw quiet refl
  | inr acts ↦ elim h [
    | inl quiet ↦ cc (quiet, acts)
    | inr reviewed ↦
        rw (acts, Reviewed-kept rc reviewed, count_of-count_seen k (bare rc) t.seen)
          (elim (Bool-cases (bare rc == k)) [
            | inl here ↦ rw here (omega arith)
            | inr away ↦ rw away refl
          ])
  ]
]

-- The dict counts the changes of each resource.
pub loop-seen :
    (k : List ℕ) (plan : List ResourceChange) (t : Review)
    → All Expected plan
    → count_of k (review_changes plan t).seen ≡ count_of k t.seen + times k plan
unfolding review_changes
loop-seen k [] t h = omega arith
loop-seen k (rc ∷ plan) t (now, later) =
    loop-seen k plan (review_change rc t) later ∙ step-seen k rc plan t now

pub loop-Tidy :
    (plan : List ResourceChange) (t : Review) → Tidy t.seen → Tidy (review_changes plan t).seen
unfolding review_changes review_change
loop-Tidy [] t h = h
loop-Tidy (rc ∷ plan) t h =
    loop-Tidy plan (review_change rc t) (elim (Bool-cases (is_noop (actions_of rc))) [
      | inl quiet ↦ rw quiet h
      | inr acts ↦ rw acts (elim (Bool-cases (is_delete (actions_of rc))) [
        | inl gone ↦ rw gone h
        | inr kept ↦ rw kept (count_seen-Tidy (bare rc) t.seen h)
      ])
    ])
