-- ===== src/Execution/Stages.antt =====
-- The stage loop of v2/src/footballai_v2/execution/executor.py.
use Prim.Native.String as Native
use technical_test_mitus_ai.Prelude.{
  ℕ, ◌+◌, String, Bool, true, false, not, ◌&&◌, ◌||◌, Option, none, some, List, [], ◌∷◌, ◌==◌,
  nat_eq, string_eq, if◌then◌else◌, set,
}
use technical_test_mitus_ai.Contract.Json.{
  JsonValue, null, number, string, Number, int, pos, Fields, end, field,
}
use technical_test_mitus_ai.Contract.Stage.{
  StageName, ingestion, video_validation, detection, tracking, identity_resolution,
  pitch_calibration, metrics, workload_advisory, artifact_publication, StageStatus, StageExecution,
  stage_execution, is_succeeded,
}
use technical_test_mitus_ai.Contract.Run.{AnalysisRun, stage_name_eq}
use technical_test_mitus_ai.Contract.Transitions.{with_stages}
use technical_test_mitus_ai.Queue.Jobs.{ExecutionJob}
use technical_test_mitus_ai.Uploads.Service.{stage_value}
use technical_test_mitus_ai.Execution.Action.{
  Environment, Action, cancellation_observed, execution_failure, pure, raise, lift, ◌>>=◌, ◌>>◌,
  set_active_index, utc_now, save, cancellation_requested,
}
use technical_test_mitus_ai.Execution.Pipeline.{
  Payloads, AnalysisExecutor, adapter_for, build_artifacts,
}

-- `stage.stage_name.value.replace("_", " ").title()`
abbrev pub stage_title : StageName → String
stage_title ingestion = "Ingestion"
stage_title video_validation = "Video Validation"
stage_title detection = "Detection"
stage_title tracking = "Tracking"
stage_title identity_resolution = "Identity Resolution"
stage_title pitch_calibration = "Pitch Calibration"
stage_title metrics = "Metrics"
stage_title workload_advisory = "Workload Advisory"
stage_title artifact_publication = "Artifact Publication"

abbrev is_skipped : StageStatus → Bool
is_skipped StageStatus.skipped = true
is_skipped _ = false

-- {SUCCEEDED, SKIPPED}
abbrev pub is_settled : StageExecution → Bool
is_settled stage = is_succeeded stage.status || is_skipped stage.status

abbrev pub is_v1_compat : ExecutionJob → Bool
is_v1_compat job = job.pipeline_profile == "v1_compat"

abbrev whole : ℕ → JsonValue
whole n = number (int (pos n))

-- {"detection", "tracking"}
abbrev is_frame_stage : StageName → Bool
is_frame_stage name = name == detection || name == tracking

-- `performance_metrics` of a finished stage
abbrev performance_metrics : AnalysisExecutor → ExecutionJob → String → StageName → Fields
performance_metrics executor job worker_id name =
    let frame_stage = is_frame_stage name in
    field "job_id" (string job.job_id) (
      field "run_id" (string job.run_id) (
        field "logical_analysis_id" (string job.logical_analysis_id) (
          field "attempt_number" (whole job.attempt_number) (
            field "worker_id" (string worker_id) (
              field "stage" (string (stage_value name)) (
                field "status" (string "succeeded") (
                  field "duration_seconds" (number executor.rounded_delay) (
                    field "frames_processed" (if frame_stage then whole 1 else whole 0) (
                      field "processing_fps"
                        (if frame_stage && executor.has_delay
                          then number executor.rounded_rate
                          else whole 0)
                        (field "input_count" (whole 1)
                          (field "output_count" (whole 1) (field "error_code" null end))))))))))))

abbrev skipped_stage : StageExecution → (now : ℕ) → StageExecution
skipped_stage stage now = record stage {
  status = StageStatus.skipped;
  finished_at = some now;
  message = some "Unsupported by the V1-compatible algorithm family";
}

abbrev running_stage : StageExecution → (started : ℕ) → StageExecution
running_stage stage started = record stage {
  status = StageStatus.running;
  progress_percent = int (pos 10);
  started_at = some started;
  finished_at = none;
  error = none;
  message = some (Native.◌++◌ (stage_title stage.stage_name) " in progress");
}

abbrev finished_stage :
    AnalysisExecutor → ExecutionJob → String → StageExecution → (now : ℕ) → StageExecution
finished_stage executor job worker_id running now = record running {
  status = StageStatus.succeeded;
  progress_percent = int (pos 100);
  finished_at = some now;
  performance_metrics = performance_metrics executor job worker_id running.stage_name;
  message = some (Native.◌++◌ (stage_title running.stage_name) " completed");
}

-- The local variables `run` and `payloads`
pub record Progress : Type 0 where
  pub run : AnalysisRun
  pub payloads : Option Payloads

abbrev pub observed : Bool → Action (Unit {0})
observed true = raise cancellation_observed
observed false = pure tt

abbrev pub stop_if : Bool → Action (Unit {0})
stop_if true =
    raise (execution_failure "test_stage_failure" "The test profile stopped at detection.")
stop_if false = pure tt

module _ (env : Environment) where
  -- `_checkpoint`
  unfoldable pub checkpoint : ExecutionJob → Action (Unit {0})
  unfolding cancellation_requested pure raise ◌>>=◌
  checkpoint job = cancellation_requested env job.run_id >>= observed

  -- `replace` of a stage, `with_stages` and `save`
  unfoldable pub replace_stage : AnalysisRun → (index : ℕ) → StageExecution → Action AnalysisRun
  unfolding stage_execution with_stages save pure lift ◌>>=◌
  replace_stage run index stage = do
    made ← lift (stage_execution stage)
    updated ← lift (with_stages run (set run.stages index made))
    save env updated
    pure updated

  -- `stage.started_at or utc_now()`
  abbrev pub started_or_now : Option ℕ → Action ℕ
  started_or_now none = utc_now env
  started_or_now (some at) = pure at

module _ (env : Environment) (executor : AnalysisExecutor) (job : ExecutionJob) where
  abbrev pub build_if : Bool → Number → AnalysisRun → Option Payloads → Action (Option Payloads)
  build_if false duration run payloads = pure payloads
  build_if true duration run payloads = do
    built ← build_artifacts env (adapter_for executor job) run duration
    pure (some built)

  module _ (worker_id : String) (duration : Number) where
    -- A stage that is neither finished nor left out
    unfoldable pub run_stage : (index : ℕ) → StageExecution → Progress → Action Progress
    unfolding checkpoint replace_stage utc_now build_artifacts pure raise ◌>>=◌
    run_stage index stage p = do
      checkpoint env job
      stop_if (job.pipeline_profile == "test_fail" && job.attempt_number == 1 && index == 2)
      started ← started_or_now env stage.started_at
      run ← replace_stage env p.run index (running_stage stage started)
      payloads ←
          build_if (is_v1_compat job && stage.stage_name == detection) duration run p.payloads
      checkpoint env job
      now ← utc_now env
      done ←
          replace_stage env run index
            (finished_stage executor job worker_id (running_stage stage started) now)
      pure (record { run = done; payloads = payloads })

    abbrev pub skip_stage : (index : ℕ) → StageExecution → Progress → Action Progress
    skip_stage index stage p = do
      now ← utc_now env
      run ← replace_stage env p.run index (skipped_stage stage now)
      pure (record p { run = run })

    -- One round of the loop
    unfoldable pub visit_stage : (index : ℕ) → StageExecution → Progress → Action Progress
    unfolding run_stage replace_stage utc_now pure ◌>>=◌ set_active_index
    visit_stage index stage p = do
      set_active_index (some index)
      if is_settled stage
          then pure p
          else if is_v1_compat job && not stage.required
          then skip_stage index stage p
          else run_stage index stage p

    -- `for index, stage in enumerate(run.stages)`
    unfoldable pub run_stages : (index : ℕ) → List StageExecution → Progress → Action Progress
    unfolding visit_stage pure ◌>>=◌
    run_stages index [] p = pure p
    run_stages index (stage ∷ stages) p =
        visit_stage index stage p >>= run_stages (index + 1) stages
