-- ===== src/Tests/Execution.antt =====
-- The executor at a sample job, beside another process that may request a cancellation.
use technical_test_mitus_ai.Prelude.{
  ℕ, ◌+◌, ◌*◌, ◌≡◌, refl, true, false, none, some, List, [], ◌∷◌, ◌++◌, codes, ok, err,
  if◌then◌else◌, ◌==◌, nat_eq, type_error,
}
use technical_test_mitus_ai.Contract.Json.{
  int, pos, end, field, object, float_overflows, is_percent, is_finite, is_hundred,
  validate_safe_details,
}
use technical_test_mitus_ai.Contract.Text.{is_sensitive_key}
use technical_test_mitus_ai.Contract.References.{structured_error}
use technical_test_mitus_ai.Contract.Stage.{
  stage_execution, validate_stage, check_status, each_identifier,
}
use technical_test_mitus_ai.Contract.Run.{AnalysisRun, AnalysisRunStatus}
use technical_test_mitus_ai.Repository.{attempt_row, load}
use technical_test_mitus_ai.Repository.Tables.{Database, Attempt}
use technical_test_mitus_ai.Repository.Saves.{row_of}
use technical_test_mitus_ai.Repository.History.{
  Call, call_save, call_request_cancellation, perform_all,
}
use technical_test_mitus_ai.Storage.Memory.{Objects}
use technical_test_mitus_ai.Execution.Action as Action
use technical_test_mitus_ai.Execution.Action.{
  Environment, World, Outcome, returned, raised, Exception, other_exception, interleave,
}
use technical_test_mitus_ai.Execution.Pipeline.{
  Payloads, PipelineAdapter, AnalysisExecutor, float_of, probe_duration, later, build_artifacts,
}
use technical_test_mitus_ai.Execution.Stages.{
  checkpoint, replace_stage, run_stage, visit_stage, run_stages,
}
use technical_test_mitus_ai.Execution.Publication.{
  describe, write_payload, write_payloads, write_aliases, verify_all, finish_run, publish,
}
use technical_test_mitus_ai.Execution.Executor.{
  on_cancellation, on_failure, process, execute_running, execute,
}
use technical_test_mitus_ai.Execution.Triple.{Holds}
use technical_test_mitus_ai.Execution.Keeps.{On}
use technical_test_mitus_ai.Execution.Ending.{Descends, Settled}
use technical_test_mitus_ai.Execution.Completion.{execute-Settled}
use technical_test_mitus_ai.Execution.Early.{
  Untouched, CancelledOnly, execute-terminal, execute-cancelled_early,
}
use technical_test_mitus_ai.Execution.Gate.{Published, publish-Published}
use technical_test_mitus_ai.Tests.Storage.{storage_program}
use technical_test_mitus_ai.Tests.Repository.{database_program, created}
use technical_test_mitus_ai.Tests.Queue.{job}
use technical_test_mitus_ai.Tests.Samples.{
  first_id, queued_run, running_run, failed_run, finished_stage, digest,
}

unfoldable pub execution_program : Unit {0}
unfolding database_program storage_program Action.pure Action.raise Action.lift Action.try_except
    Action.◌>>=◌ Action.set_active_index interleave Action.utc_now Action.load Action.save
    Action.cancellation_requested Action.write_artifact Action.artifact_reference_integrity
    Action.materialize_input float_of probe_duration later build_artifacts checkpoint replace_stage
    run_stage visit_stage run_stages describe write_payload write_payloads write_aliases verify_all
    finish_run publish on_cancellation on_failure process execute_running execute stage_execution
    structured_error validate_stage is_percent is_finite check_status each_identifier is_hundred
    validate_safe_details is_sensitive_key float_overflows
execution_program = tt

-- The clock advances by ten at each reading.
abbrev pub around : (ℕ → List Call) → Environment
around calls = record {
  calls = calls;
  changes = λ n objects. objects;
  clock = λ n. 200 + n * 10;
  sha256_of = λ bytes. digest;
}

abbrev pub alone : Environment
alone = around (λ n. [])

abbrev payloads : Payloads
payloads =
    ("track-summary", record { schema = "footballai.track-summary/v1"; entries = end })
    ∷ (
      "workload-advisory",
      record {
        schema = "footballai.workload-advisory/v1";
        entries = field "tracks" (object end) end;
      },
    )
    ∷ []

abbrev pipeline : PipelineAdapter
pipeline = record { build_artifacts = λ run duration input flag. (returned payloads, 0) }

abbrev pub executor : AnalysisExecutor
executor = record {
  dumps_indented = λ v. codes "{}";
  dumps_compact = λ v. codes "{}";
  float_of_text = λ s. err type_error;
  has_delay = false;
  rounded_delay = int (pos 0);
  rounded_rate = int (pos 0);
  v1_compat = pipeline;
  demo = pipeline;
}

abbrev pub uploaded : Objects
uploaded =
    (
      codes "runs/" ++ codes first_id ++ codes "/input/source.mp4",
      record {
        content = codes "video";
        artifact_id = none;
        sha256 = digest;
        size_bytes = 5;
        content_type = "video/mp4";
      },
    )
    ∷ []

abbrev pub before : Database → World
before db = record {
  db = db;
  objects = uploaded;
  port_calls = 0;
  readings = 0;
  active_index = none;
}

-- Another process requests the cancellation before the worker's fifth call of a port.
abbrev interrupted : Environment
interrupted = around (λ n. if n == 5 then call_request_cancellation first_id ∷ [] else [])

abbrev broken : AnalysisExecutor
broken = record executor {
  demo = record {
    build_artifacts = λ run duration input flag. (raised (other_exception type_error), 0);
  };
}

outcomes :
    ((execute alone executor job "worker" (before created)).0
      ≡ returned AnalysisRunStatus.succeeded)
    × ((execute interrupted executor job "worker" (before created)).0
        ≡ returned AnalysisRunStatus.cancelled)
    × ((execute alone broken job "worker" (before created)).0 ≡ returned AnalysisRunStatus.failed)
unfolding execution_program
outcomes = (refl, refl, refl)

abbrev pub new_row : Attempt
new_row = attempt_row queued_run 1

pub created_there : row_of first_id created ≡ some new_row
unfolding execution_program
created_there = refl

execute-Settled_example :
    Holds
      (Settled first_id new_row)
      (On (Descends first_id new_row))
      (execute interrupted executor job "worker" (before created)).0
      (execute interrupted executor job "worker" (before created)).1
execute-Settled_example =
    execute-Settled interrupted executor job "worker" (before created) new_row refl refl
      created_there

abbrev failed_row : Attempt
failed_row = attempt_row failed_run 2

abbrev after_failure : Database
after_failure = perform_all (call_save failed_run none 300 ∷ []) created

failed_there : row_of first_id after_failure ≡ some failed_row
unfolding execution_program
failed_there = refl

execute-terminal_example :
    execute interrupted executor job "worker" (before after_failure)
    ≡ (returned AnalysisRunStatus.failed, interleave interrupted (before after_failure))
execute-terminal_example =
    execute-terminal interrupted executor job "worker" (before after_failure) failed_row refl
      failed_there refl

abbrev flagged_row : Attempt
flagged_row = record new_row { cancel_requested = true }

abbrev after_request : Database
after_request = perform_all (call_request_cancellation first_id ∷ []) created

flagged_there : row_of first_id after_request ≡ some flagged_row
unfolding execution_program
flagged_there = refl

loads_queued : load first_id (interleave alone (before after_request)).db ≡ ok queued_run
unfolding execution_program
loads_queued = refl

execute-cancelled_early_example :
    Holds
      (CancelledOnly alone (before after_request))
      (Untouched alone (before after_request))
      (execute alone executor job "worker" (before after_request)).0
      (execute alone executor job "worker" (before after_request)).1
execute-cancelled_early_example =
    execute-cancelled_early alone executor job "worker" (before after_request) flagged_row
      queued_run refl refl flagged_there refl loads_queued refl

abbrev worked_run : AnalysisRun
worked_run = record running_run { stages = finished_stage ∷ [] }

abbrev running_row : Attempt
running_row = attempt_row worked_run 2

abbrev underway : Database
underway = perform_all (call_save worked_run none 300 ∷ []) created

underway_there : row_of first_id underway ≡ some running_row
unfolding execution_program
underway_there = refl

publishes :
    (publish alone executor first_id first_id payloads (before underway)).0
    ≡ returned AnalysisRunStatus.succeeded
unfolding execution_program
publishes = refl

publish-Published_example :
    Holds
      (Published alone first_id first_id)
      (λ w. Unit)
      (publish alone executor first_id first_id payloads (before underway)).0
      (publish alone executor first_id first_id payloads (before underway)).1
publish-Published_example =
    publish-Published alone executor first_id first_id payloads (before underway) running_row
      (λ n objects. refl) refl refl underway_there
