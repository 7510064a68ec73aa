-- ===== src/Tests/Policy.antt =====
-- Plans on which the policy of infra/terraform/scripts/plan_policy.py is run.
use technical_test_mitus_ai.Prelude.{
  true, ◌≡◌, refl, some, List, [], ◌∷◌, contains, split_on, before, list_beq,
}
use technical_test_mitus_ai.Policy.Address.{
  ResourceChange, is_allowed_workload, last_parts, only, last_two,
}
use technical_test_mitus_ai.Policy.Plan.{exit_code, policy_loop, policy_step, empty_tally}
use technical_test_mitus_ai.Policy.Verdict.{exit_code-no_loss}

abbrev image_update : ResourceChange
image_update = record {
  address = some "module.apps.azurerm_container_app.api[0]";
  actions = some ("update" ∷ []);
}

abbrev database_replace : ResourceChange
database_replace = record {
  address = some "azurerm_postgresql_flexible_server.staging";
  actions = some ("delete" ∷ "create" ∷ []);
}

abbrev subnet_read : ResourceChange
subnet_read = record { address = some "azurerm_subnet.staging"; actions = some ("no-op" ∷ []) }

abbrev deploy : List ResourceChange
deploy = image_update ∷ subnet_read ∷ []

deploy-passes : exit_code deploy ≡ 0
unfolding exit_code policy_loop policy_step only is_allowed_workload last_parts split_on last_two
    before contains list_beq
deploy-passes = refl

replace-refused : exit_code (image_update ∷ database_replace ∷ []) ≡ 2
unfolding exit_code policy_loop policy_step only is_allowed_workload last_parts split_on last_two
    before contains list_beq
replace-refused = refl

exit_code-no_loss_example :
    ((policy_loop deploy empty_tally).destroy ≡ 0) × ((policy_loop deploy empty_tally).replace ≡ 0)
exit_code-no_loss_example = exit_code-no_loss deploy deploy-passes

-- A database whose for_each key holds the name of a workload passes for that workload.
key_passes :
    is_allowed_workload "azurerm_postgresql_server.db[\"x.azurerm_container_app.api[y\"]" ≡ true
unfolding is_allowed_workload last_parts split_on last_two before contains list_beq
key_passes = refl

-- A protected resource that Terraform is to forget passes.
forget-passes :
    exit_code (
      record { address = some "azurerm_postgresql_server.db"; actions = some ("forget" ∷ []) } ∷ [])
    ≡ 0
unfolding exit_code policy_loop policy_step only is_allowed_workload last_parts split_on last_two
    before contains list_beq
forget-passes = refl
