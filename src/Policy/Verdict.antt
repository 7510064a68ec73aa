-- ===== src/Policy/Verdict.antt =====
-- What a plan that plan_policy.py passes may change.
use technical_test_mitus_ai.Prelude.{
  String, ◌≡◌, refl, ◌↔◌, ◌⊎◌, inl, inr, true, false, ◌&&◌, ◌||◌, List, [], ◌∷◌, ◌++◌, string_eq,
  contains, is_empty, All, arith, Bool-cases, &&_iff, sym, ◌∙◌,
}
use technical_test_mitus_ai.Policy.Address.{
  ResourceChange, actions_of, address_of, only, is_noop, is_allowed_workload,
}
use technical_test_mitus_ai.Policy.Workloads.{IsWorkload, is_allowed_workload_iff}
use technical_test_mitus_ai.Policy.Plan.{
  count_actions, Tally, empty_tally, policy_step, policy_loop, exit_code, violations_of, Violation,
}

-- A change deletes nothing, and one that only creates or only updates names a workload.
abbrev pub Permitted : ResourceChange → Type 0
Permitted rc =
    (contains (actions_of rc) "delete" ≡ false)
    × ((only "create" (actions_of rc) || only "update" (actions_of rc) ≡ false)
        ⊎ IsWorkload (address_of rc))

abbrev pub Harmless : ResourceChange → Type 0
Harmless rc = (is_noop (actions_of rc) ≡ true) ⊎ Permitted rc

is_empty-++ : (xs ys : List Violation) → is_empty (xs ++ ys) ≡ is_empty xs && is_empty ys
is_empty-++ [] ys = refl
is_empty-++ (x ∷ xs) ys = refl

violations_of_iff :
    (rc : ResourceChange)
    → (is_empty (violations_of (actions_of rc) (address_of rc)) ≡ true) ↔ Permitted rc
violations_of_iff rc =
    let workload = is_allowed_workload_iff (address_of rc) in
    (
      λ h. (
        ground arith,
        elim (Bool-cases (is_allowed_workload (address_of rc))) [
          | inl allowed ↦ inr (workload.0 allowed)
          | inr foreign ↦ inl (ground arith)
        ],
      ),
      λ h. elim h.1 [
        | inl mixed ↦ ground arith
        | inr named ↦ let allowed = workload.1 named in ground arith
      ],
    )

-- One pass of the loop keeps a clean tally clean exactly on a harmless change.
step-clean_iff :
    (rc : ResourceChange) (t : Tally)
    → (is_empty (policy_step rc t).violations ≡ true)
      ↔ ((is_empty t.violations ≡ true) × Harmless rc)
unfolding policy_step
step-clean_iff rc t = elim (Bool-cases (is_noop (actions_of rc))) [
  | inl quiet ↦ rw quiet (λ h. (h, inl refl), λ h. h.0)
  | inr acts ↦ rw acts (
    λ h.
        let both =
          (&&_iff (is_empty t.violations)
              (is_empty (violations_of (actions_of rc) (address_of rc)))).0
            (sym (is_empty-++ t.violations (violations_of (actions_of rc) (address_of rc))) ∙ h) in
        (both.0, inr ((violations_of_iff rc).0 both.1)),
    λ h. elim h.1 [
      | inl quiet ↦ cc
      | inr fine ↦
          is_empty-++ t.violations (violations_of (actions_of rc) (address_of rc))
          ∙ (&&_iff (is_empty t.violations)
                (is_empty (violations_of (actions_of rc) (address_of rc)))).1
              (h.0, (violations_of_iff rc).1 fine)
    ],
  )
]

loop-clean_iff :
    (plan : List ResourceChange) (t : Tally)
    → (is_empty (policy_loop plan t).violations ≡ true)
      ↔ ((is_empty t.violations ≡ true) × All Harmless plan)
unfolding policy_loop
loop-clean_iff [] t = (λ h. (h, tt), λ h. h.0)
loop-clean_iff (rc ∷ plan) t = (
  λ h.
      let clean = (loop-clean_iff plan (policy_step rc t)).0 h in
      let once = (step-clean_iff rc t).0 clean.0 in (once.0, (once.1, clean.1)),
  λ h. (loop-clean_iff plan (policy_step rc t)).1 ((step-clean_iff rc t).1 (h.0, h.1.0), h.1.1),
)

pub exit_code_iff : (plan : List ResourceChange) → (exit_code plan ≡ 0) ↔ All Harmless plan
unfolding exit_code
exit_code_iff plan = (
  λ h. ((loop-clean_iff plan empty_tally).0 (ground arith)).1,
  λ h. let clean = (loop-clean_iff plan empty_tally).1 (refl, h) in ground arith,
)

only-contains :
    (name : String) (actions : List String)
    → only name actions ≡ true
    → contains actions name ≡ true
unfolding only contains
only-contains name [] h = cc
only-contains name (a ∷ actions) h = ground arith

count_actions-kept :
    (actions : List String) (t : Tally)
    → contains actions "delete" ≡ false
    → ((count_actions actions t).destroy ≡ t.destroy)
      × ((count_actions actions t).replace ≡ t.replace)
count_actions-kept actions t h = elim (Bool-cases (only "delete" actions)) [
  | inl sole ↦ cc (only-contains "delete" actions sole, h)
  | inr other ↦ ground arith
]

-- A change that deletes nothing leaves the two counters of losses.
step-kept :
    (rc : ResourceChange) (t : Tally)
    → Harmless rc
    → ((policy_step rc t).destroy ≡ t.destroy) × ((policy_step rc t).replace ≡ t.replace)
unfolding policy_step
step-kept rc t h = elim (Bool-cases (is_noop (actions_of rc))) [
  | inl quiet ↦ rw quiet (refl, refl)
  | inr acts ↦
      rw acts (elim h [ inl quiet ↦ cc | inr fine ↦ count_actions-kept (actions_of rc) t fine.0 ])
]

loop-kept :
    (plan : List ResourceChange) (t : Tally)
    → All Harmless plan
    → ((policy_loop plan t).destroy ≡ t.destroy) × ((policy_loop plan t).replace ≡ t.replace)
unfolding policy_loop
loop-kept [] t h = (refl, refl)
loop-kept (rc ∷ plan) t h =
    let later = loop-kept plan (policy_step rc t) h.1 in
    let now = step-kept rc t h.0 in (later.0 ∙ now.0, later.1 ∙ now.1)

-- A plan with exit code 0 has Destroy=0 and Replace=0 in its summary.
pub exit_code-no_loss :
    (plan : List ResourceChange)
    → exit_code plan ≡ 0
    → ((policy_loop plan empty_tally).destroy ≡ 0) × ((policy_loop plan empty_tally).replace ≡ 0)
exit_code-no_loss plan h = loop-kept plan empty_tally ((exit_code_iff plan).0 h)
