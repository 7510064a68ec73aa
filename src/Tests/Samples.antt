-- ===== src/Tests/Samples.antt =====
-- Sample attempts and calls, after those of v2/tests.
use technical_test_mitus_ai.Prelude.{String, true, false, none, some, [], ◌∷◌}
use technical_test_mitus_ai.Contract.Json.{end, field, string, int, pos}
use technical_test_mitus_ai.Contract.References.{ArtifactReference, summary, StructuredError}
use technical_test_mitus_ai.Contract.Stage.{StageExecution, StageStatus, StageName}
use technical_test_mitus_ai.Contract.Run.{
  AnalysisRun, queued, running, succeeded, failed, real, contract_version_v1,
}

abbrev pub logical_id : String
logical_id = "11111111-2222-4333-8444-555555555555"

abbrev pub first_id : String
first_id = "aaaaaaaa-bbbb-4ccc-8ddd-eeeeeeeeeeee"

abbrev pub second_id : String
second_id = "bbbbbbbb-cccc-4ddd-9eee-ffffffffffff"

abbrev pub digest : String
digest = "0123456789abcdef0123456789abcdef0123456789abcdef0123456789abcdef"

abbrev pub failure : StructuredError
failure = record {
  error_code = "execution_failed";
  safe_message = "Analysis execution failed safely.";
  retryable = true;
  occurred_at = 300;
  technical_details = none;
}

abbrev pub queued_stage : StageExecution
queued_stage = record {
  stage_id = "detection";
  stage_name = StageName.detection;
  required = true;
  status = StageStatus.queued;
  progress_percent = int (pos 0);
  attempt_number = 1;
  started_at = none;
  finished_at = none;
  produced_artifact_ids = [];
  error = none;
  performance_metrics = end;
  message = none;
}

abbrev pub finished_stage : StageExecution
finished_stage = record queued_stage {
  status = StageStatus.succeeded;
  progress_percent = int (pos 100);
  started_at = some 200;
  finished_at = some 250;
}

abbrev pub artifact : ArtifactReference
artifact = record {
  artifact_id = "team-summary";
  name = "Team Summary";
  category = summary;
  relative_path = "artifacts/team-summary.json";
  media_type = "application/json";
  sha256 = digest;
  size_bytes = 12;
  schema_version = none;
}

abbrev pub queued_run : AnalysisRun
queued_run = record {
  logical_analysis_id = logical_id;
  run_id = first_id;
  attempt_number = 1;
  previous_attempt_run_id = none;
  status = queued;
  data_origin = real;
  input = record { uri = "run-input://source.mp4"; sha256 = digest; media_type = "video/mp4" };
  code = record {
    repository = "https://github.com/azizbenammar7/FootballAi";
    revision = digest;
    dirty = false;
  };
  pipeline_version = "demo_fast/1.0.0";
  parameters = field "pipeline_profile" (string "demo_fast") end;
  models = [];
  artifacts = [];
  stages = queued_stage ∷ [];
  created_at = 100;
  started_at = none;
  completed_at = none;
  failure = none;
  partial_reason = none;
  cancellation_reason = none;
  contract_version = contract_version_v1;
}

abbrev pub running_run : AnalysisRun
running_run = record queued_run { status = running; started_at = some 200 }

abbrev pub succeeded_run : AnalysisRun
succeeded_run = record running_run {
  status = succeeded;
  artifacts = artifact ∷ [];
  stages = finished_stage ∷ [];
  completed_at = some 300;
}

abbrev pub failed_run : AnalysisRun
failed_run = record queued_run { status = failed; failure = some failure; completed_at = some 300 }
