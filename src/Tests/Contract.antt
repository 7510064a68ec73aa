-- ===== src/Tests/Contract.antt =====
-- The contract and its lifecycle at sample attempts.
use technical_test_mitus_ai.Prelude.{
  text_eq_iff, false, ◌==◌, string_eq, ◌≡◌, refl, ◌↔◌, true, none, [], ◌∷◌, ok, err,
  invalid_status_transition, contract_validation, is_blank, all_distinct, any, all, subset_of,
}
use technical_test_mitus_ai.Contract.Text.{
  require_non_empty, validate_uuid_v4, validate_run_id, is_uuid_v4, validate_safe_text,
  is_unsafe_text,
}
use technical_test_mitus_ai.Contract.Json.{json_eq, validate_json}
use technical_test_mitus_ai.Contract.Json.Equality.{keyed, keyed_fields}
use technical_test_mitus_ai.Contract.Run.{
  validate_unique_dependencies, validate_links, validate_stage_artifact_links, validate_lifecycle,
  check_previous, check_identity, check_times, validate_run, analysis_run,
}
use technical_test_mitus_ai.Contract.Run.Manifest.{IsManifest, validate_run_iff}
use technical_test_mitus_ai.Contract.Operations.{
  op_start, op_succeed, op_cancel, op_fail, call, call-terminal, call-Move, Move,
}
use technical_test_mitus_ai.Lifecycle.{same_provenance, ensure_transition_allowed}
use technical_test_mitus_ai.Lifecycle.Rules.{allowed_iff, call_allowed}
use technical_test_mitus_ai.Contract.Retry.{Follows, retry_from-Follows}
use technical_test_mitus_ai.Contract.Transitions.{no_arguments, retry_from}
use technical_test_mitus_ai.Contract.Run.{AnalysisRun}
use technical_test_mitus_ai.Tests.Samples.{
  first_id, second_id, queued_run, running_run, succeeded_run, failed_run, artifact, finished_stage,
  failure,
}

unfoldable pub program : Unit {0}
unfolding is_blank all_distinct any all subset_of require_non_empty validate_uuid_v4 validate_run_id
    is_uuid_v4 validate_safe_text is_unsafe_text json_eq validate_json keyed
    validate_unique_dependencies validate_links validate_stage_artifact_links validate_lifecycle
    check_previous check_identity check_times validate_run analysis_run call same_provenance
    ensure_transition_allowed
program = tt

queued_run_valid : validate_run queued_run ≡ ok tt
unfolding program
queued_run_valid = refl

succeeded_run_valid : validate_run succeeded_run ≡ ok tt
unfolding program
succeeded_run_valid = refl

-- A succeeded run keeps no queued stage.
active_stage_refused :
    validate_run (record succeeded_run { stages = queued_run.stages })
    ≡ err (contract_validation "succeeded run cannot contain active stages")
unfolding program
active_stage_refused = refl

start_runs : call (op_start none 200 none) queued_run ≡ ok running_run
unfolding program
start_runs = refl

succeed_runs :
    call (op_succeed (artifact ∷ []) none 300 (finished_stage ∷ [])) running_run ≡ ok succeeded_run
unfolding program
succeed_runs = refl

fail_runs : call (op_fail failure none 300 none) queued_run ≡ ok failed_run
unfolding program
fail_runs = refl

validate_run_iff_example : (validate_run succeeded_run ≡ ok tt) ↔ IsManifest succeeded_run
validate_run_iff_example = validate_run_iff succeeded_run

call-terminal_example :
    call (op_cancel none 400 none none) succeeded_run
    ≡ err (invalid_status_transition "cannot cancel run")
call-terminal_example = call-terminal (op_cancel none 400 none none) succeeded_run refl

call-Move_example : Move queued_run.status running_run.status
call-Move_example = call-Move (op_start none 200 none) queued_run start_runs

allowed_iff_example :
    (ensure_transition_allowed running_run succeeded_run ≡ ok tt)
    ↔ Move running_run.status succeeded_run.status
      × (same_provenance running_run succeeded_run ≡ true)
allowed_iff_example = allowed_iff running_run succeeded_run

parameters_keyed : keyed_fields queued_run.parameters ≡ true
unfolding program
parameters_keyed = refl

call_allowed_example : ensure_transition_allowed running_run succeeded_run ≡ ok tt
call_allowed_example =
    call_allowed (op_succeed (artifact ∷ []) none 300 (finished_stage ∷ [])) running_run
      succeeded_run parameters_keyed succeed_runs

failed_valid : validate_run failed_run ≡ ok tt
unfolding program
failed_valid = refl

second_valid : validate_uuid_v4 second_id ≡ ok tt
unfolding program
second_valid = refl

ids-different : first_id == second_id ≡ false
unfolding program
ids-different = refl

retry_from-Follows_example :
    (r : AnalysisRun) × (retry_from failed_run no_arguments second_id 400 ≡ ok r)
    × IsManifest r
    × Follows failed_run second_id r
retry_from-Follows_example =
    retry_from-Follows failed_run second_id 400 ((validate_run_iff failed_run).0 failed_valid) refl
      second_valid (λ e. cc (ids-different, (text_eq_iff first_id second_id).1 e))
