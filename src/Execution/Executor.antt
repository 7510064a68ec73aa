-- ===== src/Execution/Executor.antt =====
-- `AnalysisExecutor.execute` of v2/src/footballai_v2/execution/executor.py.
use technical_test_mitus_ai.Prelude.{
  ℕ, String, Bool, true, false, Option, none, some, List, if◌then◌else◌, set, get_elem?, Result, ok,
  err, index_error,
}
use technical_test_mitus_ai.Contract.Json.{string, Number, end, field}
use technical_test_mitus_ai.Contract.References.{structured_error}
use technical_test_mitus_ai.Contract.Stage.{
  StageStatus, StageExecution, stage_execution, is_running,
}
use technical_test_mitus_ai.Contract.Run.{AnalysisRun, AnalysisRunStatus, is_terminal}
use technical_test_mitus_ai.Contract.Transitions.{is_queued, start, fail, cancel}
use technical_test_mitus_ai.Queue.Jobs.{ExecutionJob}
use technical_test_mitus_ai.Uploads.Service.{stage_value}
use technical_test_mitus_ai.Execution.Action.{
  Environment, Action, Exception, cancellation_observed, execution_failure, returned, pure, lift,
  ◌>>=◌, ◌>>◌, try_except, set_active_index, utc_now, load, save, cancellation_requested,
}
use technical_test_mitus_ai.Execution.Pipeline.{
  Payloads, AnalysisExecutor, adapter_for, duration_of, build_artifacts,
}
use technical_test_mitus_ai.Execution.Stages.{run_stages}
use technical_test_mitus_ai.Execution.Publication.{publish}

-- The code and the message of the failure, from the exception
abbrev pub failure_code : Exception → String
failure_code (execution_failure code message) = code
failure_code _ = "execution_failed"

abbrev pub failure_message : Exception → String
failure_message (execution_failure code message) = message
failure_message _ = "Analysis execution failed safely."

abbrev pub active_index : Action (Option ℕ)
active_index w = (returned w.active_index, w)

-- `xs[index]`
abbrev pub at_index : {A : Type 0} → Option A → Result A
at_index none = err index_error
at_index (some a) = ok a

module _ (env : Environment) where
  -- The stages with the active one cancelled
  abbrev pub replace_if :
      Bool → (index : ℕ) → (ℕ → StageExecution) → List StageExecution → Action (List StageExecution)
  replace_if false index stage stages = pure stages
  replace_if true index stage stages = do
    now ← utc_now env
    made ← lift (stage_execution (stage now))
    pure (set stages index made)

  abbrev pub cancel_active : Option ℕ → List StageExecution → Action (List StageExecution)
  cancel_active none stages = pure stages
  cancel_active (some index) stages = do
    stage ← lift (at_index (get_elem? stages index))
    replace_if (is_running stage.status) index
        (λ now. record stage {
          status = StageStatus.cancelled;
          finished_at = some now;
          message = some "Cancelled at a safe checkpoint";
        })
        stages

  -- `except CancellationObserved`
  unfoldable pub on_cancellation : String → Action AnalysisRunStatus
  unfolding load utc_now save stage_execution cancel pure lift ◌>>=◌
  on_cancellation run_id = do
    current ← load env run_id
    active ← active_index
    stages ← cancel_active active current.stages
    now ← utc_now env
    cancelled ←
        lift (cancel current none now (some "Cancellation requested by user.") (some stages))
    save env cancelled
    pure AnalysisRunStatus.cancelled

  abbrev pub fail_active :
      (code message : String)
      → Option ℕ
      → List StageExecution
      → Action (List StageExecution × String)
  fail_active code message none stages = pure (stages, "ingestion")
  fail_active code message (some index) stages = do
    stage ← lift (at_index (get_elem? stages index))
    now ← utc_now env
    error ← lift (structured_error code message true now none)
    failed ←
        replace_if (is_running stage.status) index
          (λ at. record stage {
            status = StageStatus.failed;
            finished_at = some at;
            error = some error;
            message = some message;
          })
          stages
    pure (failed, stage_value stage.stage_name)

  abbrev pub fail_run : AnalysisRun → (code message : String) → Action AnalysisRunStatus
  fail_run current code message = do
    active ← active_index
    stages ← fail_active code message active current.stages
    now ← utc_now env
    failure ←
        lift (structured_error code message true now (some (field "stage" (string stages.1) end)))
    at ← utc_now env
    failed ← lift (fail current failure none at (some stages.0))
    save env failed
    pure AnalysisRunStatus.failed

  -- `except Exception as exc`
  unfoldable pub on_failure : String → Exception → Action AnalysisRunStatus
  unfolding load utc_now save stage_execution structured_error fail pure lift ◌>>=◌
  on_failure run_id exc = do
    current ← load env run_id
    if is_terminal current.status
        then pure current.status
        else fail_run current (failure_code exc) (failure_message exc)

  abbrev pub on_exception : String → Exception → Action AnalysisRunStatus
  on_exception run_id cancellation_observed = on_cancellation run_id
  on_exception run_id exc = on_failure run_id exc

  module _ (executor : AnalysisExecutor) (job : ExecutionJob) where
    abbrev pub built_or_build : Option Payloads → AnalysisRun → Number → Action Payloads
    built_or_build (some payloads) run duration = pure payloads
    built_or_build none run duration = build_artifacts env (adapter_for executor job) run duration

    -- The body of `try`
    unfoldable pub process : (worker_id : String) → Number → AnalysisRun → Action AnalysisRunStatus
    unfolding run_stages build_artifacts publish pure ◌>>=◌
    process worker_id duration run = do
      p ←
          run_stages env executor job worker_id duration 0 run.stages
            (record { run = run; payloads = none })
      payloads ← built_or_build p.payloads p.run duration
      publish env executor p.run.run_id job.run_id payloads

    -- From a run that is underway
    unfoldable pub execute_running : (worker_id : String) → AnalysisRun → Action AnalysisRunStatus
    unfolding process on_cancellation on_failure lift try_except set_active_index ◌>>=◌
    execute_running worker_id run = do
      set_active_index none
      duration ← lift (duration_of executor run)
      try_except (process worker_id duration run) (on_exception job.run_id)

    abbrev pub cancel_or_start :
        (worker_id : String) → AnalysisRun → Bool → Action AnalysisRunStatus
    cancel_or_start worker_id run true = do
      now ← utc_now env
      cancelled ← lift (cancel run none now (some "Cancelled before execution.") none)
      save env cancelled
      pure AnalysisRunStatus.cancelled
    cancel_or_start worker_id run false = do
      now ← utc_now env
      started ← lift (start run none now (some run.stages))
      save env started
      execute_running worker_id started

    unfoldable pub execute : (worker_id : String) → Action AnalysisRunStatus
    unfolding load save utc_now cancellation_requested start cancel execute_running pure lift ◌>>=◌
    execute worker_id = do
      run ← load env job.run_id
      if is_terminal run.status
          then pure run.status
          else if is_queued run.status
          then cancellation_requested env run.run_id >>= cancel_or_start worker_id run
          else execute_running worker_id run
