-- ===== src/Policy/Address.antt =====
-- Resource addresses and action sets of a Terraform plan, as plan_policy.py and p6_plan_policy.py
-- read them.
use technical_test_mitus_ai.Prelude.{
  ℕ, String, Bool, false, not, ◌&&◌, ◌||◌, Option, none, some, List, [], ◌∷◌, ◌++◌, map, ◌==◌,
  nat_eq, string_eq, list_eq, codes, split_on, before, or_else, contains, all, is_empty,
}

-- An entry of `resource_changes`: its address and the actions of its change, where it has them.
pub record ResourceChange : Type 0 where
  pub address : Option String
  pub actions : Option (List String)

-- `rc.get("change", {}).get("actions", [])`
abbrev pub actions_of : ResourceChange → List String
actions_of rc = or_else rc.actions []

-- `rc.get("address", "<unknown>")`
abbrev pub address_of : ResourceChange → String
address_of rc = or_else rc.address "<unknown>"

-- `set(actions) == {name}`
unfoldable pub only : String → List String → Bool
unfolding all
only name actions = not (is_empty actions) && all (λ a. a == name) actions

-- `aset in NOOP_ACTIONS`
abbrev pub is_noop : List String → Bool
is_noop actions = only "no-op" actions || only "read" actions

-- `parts[-2]` and `parts[-1]`, or none where `len(parts) < 2`
unfoldable pub last_two : {A : Type 0} → List A → Option (A × A)
last_two [] = none
last_two (x ∷ []) = none
last_two (x ∷ y ∷ []) = some (x, y)
last_two (x ∷ y ∷ z ∷ parts) = last_two (y ∷ z ∷ parts)

abbrev pub dot : ℕ
dot = 46

abbrev pub bracket : ℕ
bracket = 91

abbrev pub join_cut : List ℕ × List ℕ → List ℕ
join_cut (x, y) = before bracket (x ++ dot ∷ y)

-- The last two dotted parts of an address
unfoldable pub last_parts : String → Option (List ℕ × List ℕ)
unfolding last_two split_on
last_parts address = last_two (split_on dot (codes address))

abbrev pub allowed_workloads : List String
allowed_workloads =
    "azurerm_container_app.api" ∷ "azurerm_container_app.frontend"
    ∷ "azurerm_container_app_job.worker" ∷ "azurerm_container_app_job.migration" ∷ []

abbrev pub names_workload : Option (List ℕ × List ℕ) → Bool
names_workload none = false
names_workload (some pair) = contains (map codes allowed_workloads) (join_cut pair)

unfoldable pub is_allowed_workload : String → Bool
is_allowed_workload address = names_workload (last_parts address)
