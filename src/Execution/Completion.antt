-- ===== src/Execution/Completion.antt =====
-- `execute` of execution/executor.py from end to end.
use technical_test_mitus_ai.Prelude.{String, ◌≡◌, refl, Bool, true, false, Option, none, some}
use technical_test_mitus_ai.Contract.Json.{Number}
use technical_test_mitus_ai.Contract.Run.{AnalysisRun, AnalysisRunStatus}
use technical_test_mitus_ai.Contract.Transitions.{is_queued}
use technical_test_mitus_ai.Contract.Operations.{op_cancel, call}
use technical_test_mitus_ai.Repository.Tables.{Attempt}
use technical_test_mitus_ai.Repository.Saves.{row_of}
use technical_test_mitus_ai.Repository.History.{IsProjected}
use technical_test_mitus_ai.Repository.Immutability.{Lineage-refl}
use technical_test_mitus_ai.Queue.Jobs.{ExecutionJob}
use technical_test_mitus_ai.Execution.Action.{Environment, World, Action}
use technical_test_mitus_ai.Execution.Pipeline.{
  Payloads, AnalysisExecutor, adapter_for, duration_of,
}
use technical_test_mitus_ai.Execution.Executor.{
  built_or_build, process, execute_running, cancel_or_start, execute,
}
use technical_test_mitus_ai.Execution.Triple.{
  Holds, Triple-then, Triple-lift, Triple-if, Triple-try_except, Keeps, keeps_rules,
}
use technical_test_mitus_ai.Execution.Keeps.{
  On, set_active_index-Keeps, cancellation_requested-Keeps, save-Keeps,
}
use technical_test_mitus_ai.Execution.Rounds.{run_stages-Keeps, build_artifacts-Keeps}
use technical_test_mitus_ai.Execution.Ending.{
  Descends, Descends-Closed, Settled, Ends, now-Keeps, end_or, call_and_end, publish-Ends,
  on_exception-Ends,
}

module _ (env : Environment) (executor : AnalysisExecutor) (job : ExecutionJob) (a : Attempt)
    (named : a.manifest.run_id ≡ job.run_id) where
  abbrev Final : AnalysisRunStatus → World → Type 0
  Final = Settled job.run_id a

  abbrev Finishes : Action AnalysisRunStatus → Type 0
  Finishes = Ends job.run_id a named env

  built_or_build-Keeps :
      (payloads : Option Payloads) (run : AnalysisRun) (duration : Number)
      → Keeps (On (Descends job.run_id a)) (built_or_build env executor job payloads run duration)
  built_or_build-Keeps (some payloads) run duration = search keeps_rules
  built_or_build-Keeps none run duration =
      build_artifacts-Keeps (Descends job.run_id a) (Descends-Closed job.run_id a) env
        (adapter_for executor job) run duration

  module _ (worker_id : String) where
    process-Ends :
        (duration : Number) (run : AnalysisRun)
        → Finishes (process env executor job worker_id duration run)
    unfolding process
    process-Ends duration run =
        let D = Descends job.run_id a in
        let closed = Descends-Closed job.run_id a in
        Triple-then Final _ _
          (run_stages-Keeps D closed env executor job worker_id duration 0 run.stages
            (record { run = run; payloads = none }))
          λ p.
            Triple-then Final _ _ (built_or_build-Keeps p.payloads p.run duration)
              λ payloads. publish-Ends job.run_id a named env executor p.run.run_id payloads

    execute_running-Ends :
        (run : AnalysisRun) → Finishes (execute_running env executor job worker_id run)
    unfolding execute_running
    execute_running-Ends run =
        Triple-then Final _ _
          (set_active_index-Keeps (Descends job.run_id a) (Descends-Closed job.run_id a) env none)
          λ done. Triple-lift Final (duration_of executor run) _ λ duration made.
            Triple-try_except Final _ _ (process-Ends duration run)
              (on_exception-Ends job.run_id a named env)

    cancel_or_start-Ends :
        (run : AnalysisRun) (flag : Bool)
        → run.run_id ≡ job.run_id
        → Finishes (cancel_or_start env executor job worker_id run flag)
    unfolding call
    cancel_or_start-Ends run true mine =
        Triple-then Final _ _ (now-Keeps job.run_id a named env) λ now.
          call_and_end job.run_id a named env
            (op_cancel none now (some "Cancelled before execution.") none) run
            AnalysisRunStatus.cancelled mine refl refl
    cancel_or_start-Ends run false mine =
        Triple-then Final _ _ (now-Keeps job.run_id a named env) λ now.
          Triple-lift Final _ _ λ started made.
            Triple-then Final _ _
              (save-Keeps (Descends job.run_id a) (Descends-Closed job.run_id a) env started)
              λ done. execute_running-Ends started

    execute-Ends : Finishes (execute env executor job worker_id)
    unfolding execute
    execute-Ends = end_or job.run_id a named env _ λ run mine.
        Triple-if Final (is_queued run.status) _ _
          (λ waiting.
            Triple-then Final _ _
              (cancellation_requested-Keeps (Descends job.run_id a) (Descends-Closed job.run_id a)
                env run.run_id)
              λ flag. cancel_or_start-Ends run flag mine)
          (λ underway. execute_running-Ends run)

-- Whatever the pipelines produce or raise and whatever other processes call meanwhile, an execution
-- leaves the attempt stored: with its identity, moved only along the lifecycle, unchanged if it was
-- terminal. If the execution returns a status, that is the stored one, and it is terminal.
pub execute-Settled :
    (env : Environment) (executor : AnalysisExecutor) (job : ExecutionJob) (worker_id : String)
    (w : World) (a : Attempt)
    → IsProjected a
    → a.manifest.run_id ≡ job.run_id
    → row_of job.run_id w.db ≡ some a
    → Holds
        (Settled job.run_id a)
        (On (Descends job.run_id a))
        (execute env executor job worker_id w).0
        (execute env executor job worker_id w).1
execute-Settled env executor job worker_id w a projected named stored =
    (execute-Ends env executor job a named worker_id).at w (a, stored, Lineage-refl a projected)
