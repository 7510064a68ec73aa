-- ===== src/Policy/Plan.antt =====
-- plan_policy.py: the fold over a plan's resource changes, and the exit code.
use technical_test_mitus_ai.Prelude.{
  ℕ, suc, String, Bool, not, ◌&&◌, ◌||◌, List, [], ◌∷◌, ◌++◌, string_eq, if◌then◌else◌, contains,
  is_empty,
}
use technical_test_mitus_ai.Policy.Address.{
  ResourceChange, actions_of, address_of, only, is_noop, is_allowed_workload,
}

-- A line of `violations`, with the address it names.
pub data Violation : Type 0 where
  replace_not_allowed : String → Violation
  destroy_not_allowed : String → Violation
  foundation_change : String → Violation

-- The local variables of `main`.
pub record Tally : Type 0 where
  pub add : ℕ
  pub change : ℕ
  pub destroy : ℕ
  pub replace : ℕ
  pub violations : List Violation
  pub summary : List (String × List String)

abbrev pub empty_tally : Tally
empty_tally = record {
  add = 0;
  change = 0;
  destroy = 0;
  replace = 0;
  violations = [];
  summary = [];
}

abbrev pub is_replace : List String → Bool
is_replace actions = contains actions "delete" && contains actions "create"

-- The four counters
abbrev pub count_actions : List String → Tally → Tally
count_actions actions t =
    if is_replace actions
    then record t { replace = suc t.replace }
    else if only "delete" actions
    then record t { destroy = suc t.destroy }
    else if only "create" actions
    then record t { add = suc t.add }
    else if only "update" actions
    then record t { change = suc t.change }
    else t

-- The lines that one change adds to `violations`
abbrev pub violations_of : List String → String → List Violation
violations_of actions address =
    if contains actions "delete"
    then (if is_replace actions then replace_not_allowed address else destroy_not_allowed address)
      ∷ []
    else if (only "create" actions || only "update" actions) && not (is_allowed_workload address)
    then foundation_change address ∷ []
    else []

-- The body of the loop
unfoldable pub policy_step : ResourceChange → Tally → Tally
policy_step rc t =
    let actions = actions_of rc in
    let address = address_of rc in
    if is_noop actions
    then t
    else let counted = count_actions actions t in
      record counted {
        summary = t.summary ++ (address, actions) ∷ [];
        violations = t.violations ++ violations_of actions address;
      }

unfoldable pub policy_loop : List ResourceChange → Tally → Tally
unfolding policy_step
policy_loop [] t = t
policy_loop (rc ∷ plan) t = policy_loop plan (policy_step rc t)

-- The exit code of `main` on a plan that parses
unfoldable pub exit_code : List ResourceChange → ℕ
unfolding policy_loop
exit_code plan = if is_empty (policy_loop plan empty_tally).violations then 0 else 2
