-- ===== src/Tests/Repository.antt =====
-- The control plane at sample calls.
use technical_test_mitus_ai.Prelude.{
  ◌≡◌, refl, none, some, [], ◌∷◌, ok, err, concurrency_conflict, manifest_transition,
}
use technical_test_mitus_ai.Lifecycle.{permitted, ensure_creatable}
use technical_test_mitus_ai.Repository.{
  attempt_row, replace_projections, append_audit, create, load, write_attempt, save, write_flag,
  request_cancellation, cancellation_requested, version_of,
}
use technical_test_mitus_ai.Repository.Tables.{
  Attempt, Database, find_attempt, update_attempt, has_logical, insert_attempt, delete_stages,
  delete_artifacts, parse_status,
}
use technical_test_mitus_ai.Repository.Locking.{save-conflict}
use technical_test_mitus_ai.Repository.Saves.{row_of, Saved, save-Saved}
use technical_test_mitus_ai.Repository.History.{
  call_create, call_save, call_request_cancellation, perform, perform_all,
}
use technical_test_mitus_ai.Repository.Immutability.{Lineage, perform_all-Lineage}
use technical_test_mitus_ai.Tests.Contract.{program}
use technical_test_mitus_ai.Tests.Samples.{queued_run, running_run, failed_run, first_id}

unfoldable pub database_program : Unit {0}
unfolding program find_attempt update_attempt has_logical insert_attempt delete_stages
    delete_artifacts replace_projections append_audit ensure_creatable create load write_attempt
    save write_flag request_cancellation cancellation_requested parse_status version_of perform
    perform_all permitted
database_program = tt

abbrev pub empty : Database
empty = record {
  logical_analyses = [];
  analysis_attempts = [];
  stage_executions = [];
  artifact_metadata = [];
  audit_events = [];
}

abbrev pub created : Database
created = perform_all (call_create queued_run 100 ∷ []) empty

created-row : row_of first_id created ≡ some (attempt_row queued_run 1)
unfolding database_program
created-row = refl

-- A second creation, a stale save and a save over a finished attempt are refused.
refusals :
    (perform_all (call_create queued_run 100 ∷ call_create queued_run 150 ∷ []) empty ≡ created)
    × (save running_run (some 2) 200 created ≡ err concurrency_conflict)
    × (save running_run none 400 (perform_all (call_save failed_run none 300 ∷ []) created)
        ≡ err (manifest_transition "terminal attempts are immutable"))
unfolding database_program
refusals = (refl, refl, refl)

started :
    load first_id (perform_all (call_save running_run (some 1) 200 ∷ []) created) ≡ ok running_run
unfolding database_program
started = refl

abbrev after_start : Database
after_start = write_attempt running_run 2 200 created

save_runs : save running_run (some 1) 200 created ≡ ok after_start
unfolding database_program
save_runs = refl

save-Saved_example : Saved running_run (some 1) created after_start
save-Saved_example = save-Saved running_run (some 1) 200 created save_runs

perform_all-Lineage_example :
    (b : Attempt) × (row_of first_id (
        perform_all
          (call_save running_run none 200 ∷ call_request_cancellation first_id ∷ [])
          created)
      ≡ some b)
    × Lineage (attempt_row queued_run 1) b
perform_all-Lineage_example =
    perform_all-Lineage (call_save running_run none 200 ∷ call_request_cancellation first_id ∷ [])
      first_id created (attempt_row queued_run 1) refl created-row

save-conflict_example : save failed_run (some 1) 250 after_start ≡ err concurrency_conflict
save-conflict_example =
    save-conflict running_run failed_run 1 200 250 created after_start refl save_runs
