-- ===== src/Tests/Recovery.antt =====
-- Plans and arguments on which infra/terraform/scripts/p6_plan_policy.py is run.
use technical_test_mitus_ai.Prelude.{
  String, true, ◌≡◌, refl, ◌↔◌, Option, none, some, List, [], ◌∷◌, contains, split_on, before,
  list_beq, starts_with,
}
use technical_test_mitus_ai.Policy.Address.{ResourceChange, last_parts, last_two, only}
use technical_test_mitus_ai.Policy.Recovery.{
  reviewed_sha256, duplicate_change, totals_mismatch, evaluate, is_ok, review_changes,
  review_change, bare_address, sort_by, insert_by, precedes,
}
use technical_test_mitus_ai.Policy.Recovery.Options.{main, parse_args}
use technical_test_mitus_ai.Policy.Recovery.Exact.{Exact, Matches}
use technical_test_mitus_ai.Policy.Recovery.Verdict.{evaluate_iff}
use technical_test_mitus_ai.Policy.Recovery.Command.{main-Exact}

abbrev change_to : String → String → ResourceChange
change_to action address = record { address = some address; actions = some (action ∷ []) }

abbrev recovery : List ResourceChange
recovery =
    change_to "update" "module.apps.azurerm_container_app.api[0]"
    ∷ change_to "update" "module.apps.azurerm_container_app.frontend"
    ∷ change_to "update" "azurerm_container_app_job.migration"
    ∷ change_to "no-op" "azurerm_subnet.staging"
    ∷ change_to "update" "azurerm_container_app_job.worker"
    ∷ change_to "update" "azurerm_monitor_diagnostic_setting.container_app_environment"
    ∷ change_to "create" "azurerm_monitor_metric_alert.api_server_errors"
    ∷ change_to "create" "azurerm_monitor_metric_alert.migration_job_failure"
    ∷ change_to "create" "azurerm_monitor_metric_alert.worker_job_failure"
    ∷ change_to "create" "azurerm_role_assignment.application_insights_api"
    ∷ change_to "create" "azurerm_role_assignment.application_insights_worker"
    ∷ []

abbrev same_digest : List (String × List String) → String
same_digest summary = reviewed_sha256

abbrev read_recovery : Option String → Option (List ResourceChange)
read_recovery path = some recovery

recovery-passes : main same_digest read_recovery ("plan.json" ∷ []) ≡ 0
unfolding main evaluate review_changes review_change parse_args bare_address sort_by insert_by
    precedes only last_parts split_on last_two before contains list_beq starts_with
recovery-passes = refl

twice-refused :
    (evaluate same_digest none
      (change_to "update" "azurerm_container_app.api" ∷ recovery)).violations
    ≡ duplicate_change (bare_address "azurerm_container_app.api") ∷ totals_mismatch ∷ []
unfolding evaluate review_changes review_change bare_address sort_by insert_by precedes only
    last_parts split_on last_two before contains list_beq
twice-refused = refl

evaluate_iff_example :
    (is_ok same_digest (evaluate same_digest none recovery) ≡ true)
    ↔ (Exact recovery × Matches none (evaluate same_digest none recovery).summary_hash)
evaluate_iff_example = evaluate_iff same_digest none recovery

main-Exact_example :
    (plan : List ResourceChange) × (read_recovery (some "plan.json") ≡ some plan)
    × Exact plan
    × ((evaluate same_digest (some reviewed_sha256) plan).summary_hash ≡ reviewed_sha256)
unfolding contains
main-Exact_example =
    main-Exact same_digest read_recovery ("plan.json" ∷ []) refl refl recovery-passes
