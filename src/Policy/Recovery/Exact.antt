-- ===== src/Policy/Recovery/Exact.antt =====
-- The plan that infra/terraform/scripts/p6_plan_policy.py is for, described apart from its code.
use technical_test_mitus_ai.Prelude.{
  ℕ, suc, String, ◌≡◌, ◌⊎◌, true, Option, none, some, List, [], ◌∷◌, ◌==◌, nat_eq, list_eq,
  if◌then◌else◌, All,
}
use technical_test_mitus_ai.Policy.Address.{ResourceChange, actions_of, address_of, is_noop}
use technical_test_mitus_ai.Policy.Recovery.{bare_address, reviewed_action, p6_allowlist}

abbrev pub bare : ResourceChange → List ℕ
bare rc = bare_address (address_of rc)

-- A change of an allowlisted resource by its one reviewed action
abbrev pub Reviewed : ResourceChange → Type 0
Reviewed rc =
    (action : String) × (reviewed_action (bare rc) p6_allowlist ≡ some action)
    × (actions_of rc ≡ action ∷ [])

abbrev pub Expected : ResourceChange → Type 0
Expected rc = (is_noop (actions_of rc) ≡ true) ⊎ Reviewed rc

-- How many changes, no-ops and reads left out, are of a resource
abbrev pub times : List ℕ → List ResourceChange → ℕ
times k [] = 0
times k (rc ∷ plan) =
    let rest = times k plan in
    if is_noop (actions_of rc) then rest else if bare rc == k then suc rest else rest

abbrev pub OnceEach : List (List ℕ × String) → List ResourceChange → Type 0
OnceEach allowlist plan = All (λ entry. times entry.0 plan ≡ 1) allowlist

-- Nothing but the reviewed changes, and each of them once
abbrev pub Exact : List ResourceChange → Type 0
Exact plan = All Expected plan × OnceEach p6_allowlist plan

-- The digest gate
abbrev pub Matches : Option String → String → Type 0
Matches none found = Unit
Matches (some expected) found = found ≡ expected
