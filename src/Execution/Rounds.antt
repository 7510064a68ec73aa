-- ===== src/Execution/Rounds.antt =====
-- The stage loop and the publication of execution/executor.py keep what the repository's calls keep.
use technical_test_mitus_ai.Prelude.{
  ℕ, zero, suc, ◌+◌, ◌∷◌, String, Bool, true, false, Option, none, some, List, [],
}
use technical_test_mitus_ai.Contract.Json.{Number}
use technical_test_mitus_ai.Contract.References.{ArtifactReference}
use technical_test_mitus_ai.Contract.Stage.{StageExecution}
use technical_test_mitus_ai.Contract.Run.{AnalysisRun}
use technical_test_mitus_ai.Repository as Repository
use technical_test_mitus_ai.Repository.Tables.{Database}
use technical_test_mitus_ai.Queue.Jobs.{ExecutionJob}
use technical_test_mitus_ai.Execution.Action.{Environment, World, Outcome, interleave}
use technical_test_mitus_ai.Execution.Pipeline.{
  Payload, Payloads, PipelineAdapter, AnalysisExecutor, later, asked, build_artifacts,
}
use technical_test_mitus_ai.Execution.Stages.{
  Progress, checkpoint, observed, replace_stage, stop_if, started_or_now, build_if, run_stage,
  skip_stage, visit_stage, run_stages,
}
use technical_test_mitus_ai.Execution.Publication.{
  write_payload, write_payloads, write_aliases, accept, verify_all,
}
use technical_test_mitus_ai.Execution.Triple.{
  Triple, Holds, Keeps, Keeps-bind, Keeps-pure, keeps_rules,
}
use technical_test_mitus_ai.Execution.Keeps.{
  Closed, On, Holds-always, interleave-On, set_active_index-Keeps, utc_now-Keeps, load-Keeps,
  cancellation_requested-Keeps, write_artifact-Keeps, artifact_reference_integrity-Keeps,
  materialize_input-Keeps, save-Keeps,
}

pub ruleset port_rules = (
  keeps_rules, set_active_index-Keeps, utc_now-Keeps, load-Keeps, cancellation_requested-Keeps,
  write_artifact-Keeps, artifact_reference_integrity-Keeps, materialize_input-Keeps, save-Keeps,
)

module _ (D : Database → Type 0) (closed : Closed D) (env : Environment) where
  later-On : (n : ℕ) (w : World) → D w.db → D (later env n w).db
  unfolding later
  later-On zero w h = h
  later-On (suc n) w h = later-On n (interleave env w) (interleave-On D closed env w h)

  asked-On :
      (out : Outcome Payloads × ℕ) (w : World)
      → D w.db
      → Holds (λ a. On D) (On D) (asked env out w).0 (asked env out w).1
  asked-On (out, questions) w h =
      Holds-always (On D) out (later env questions w) (later-On questions w h)

  pub build_artifacts-Keeps :
      (adapter : PipelineAdapter) (run : AnalysisRun) (duration : Number)
      → Keeps (On D) (build_artifacts env adapter run duration)
  unfolding build_artifacts
  build_artifacts-Keeps adapter run duration =
      Keeps-bind _ _ (materialize_input-Keeps D closed env run.run_id) λ input. record {
        at = λ w h.
            asked-On
              (adapter.build_artifacts run duration input
                (λ i. Repository.cancellation_requested run.run_id (later env (i + 1) w).db))
              w h;
      }

  observed-Keeps : (flag : Bool) → Keeps (On D) (observed flag)
  observed-Keeps true = search keeps_rules
  observed-Keeps false = search keeps_rules

  stop_if-Keeps : (stopped : Bool) → Keeps (On D) (stop_if stopped)
  stop_if-Keeps true = search keeps_rules
  stop_if-Keeps false = search keeps_rules

  accept-Keeps : (intact : Bool) → Keeps (On D) (accept intact)
  accept-Keeps true = search keeps_rules
  accept-Keeps false = search keeps_rules

  checkpoint-Keeps : (job : ExecutionJob) → Keeps (On D) (checkpoint env job)
  unfolding checkpoint
  checkpoint-Keeps job = search (port_rules, observed-Keeps)

  replace_stage-Keeps :
      (run : AnalysisRun) (index : ℕ) (stage : StageExecution)
      → Keeps (On D) (replace_stage env run index stage)
  unfolding replace_stage
  replace_stage-Keeps run index stage = search port_rules

  started_or_now-Keeps : (at : Option ℕ) → Keeps (On D) (started_or_now env at)
  started_or_now-Keeps none = search port_rules
  started_or_now-Keeps (some at) = search port_rules

  module _ (executor : AnalysisExecutor) (job : ExecutionJob) where
    build_if-Keeps :
        (due : Bool) (duration : Number) (run : AnalysisRun) (payloads : Option Payloads)
        → Keeps (On D) (build_if env executor job due duration run payloads)
    build_if-Keeps false duration run payloads = search keeps_rules
    build_if-Keeps true duration run payloads = search (keeps_rules, build_artifacts-Keeps)

    module _ (worker_id : String) (duration : Number) where
      run_stage-Keeps :
          (index : ℕ) (stage : StageExecution) (p : Progress)
          → Keeps (On D) (run_stage env executor job worker_id duration index stage p)
      unfolding run_stage
      run_stage-Keeps index stage p =
          search
            (
              port_rules, checkpoint-Keeps, stop_if-Keeps, started_or_now-Keeps,
              replace_stage-Keeps, build_if-Keeps,
            )
            depth 20

      skip_stage-Keeps :
          (index : ℕ) (stage : StageExecution) (p : Progress)
          → Keeps (On D) (skip_stage env executor job worker_id duration index stage p)
      skip_stage-Keeps index stage p = search (port_rules, replace_stage-Keeps)

      visit_stage-Keeps :
          (index : ℕ) (stage : StageExecution) (p : Progress)
          → Keeps (On D) (visit_stage env executor job worker_id duration index stage p)
      unfolding visit_stage
      visit_stage-Keeps index stage p = search (port_rules, run_stage-Keeps, skip_stage-Keeps)

      pub run_stages-Keeps :
          (index : ℕ) (stages : List StageExecution) (p : Progress)
          → Keeps (On D) (run_stages env executor job worker_id duration index stages p)
      unfolding run_stages
      run_stages-Keeps index [] p = Keeps-pure p
      run_stages-Keeps index (stage ∷ stages) p =
          Keeps-bind _ _ (visit_stage-Keeps index stage p) (run_stages-Keeps (index + 1) stages)

  module _ (executor : AnalysisExecutor) (run_id : String) where
    write_payload-Keeps :
        (artifact_id : String) (p : Payload)
        → Keeps (On D) (write_payload env executor run_id artifact_id p)
    unfolding write_payload
    write_payload-Keeps artifact_id p = search port_rules

    pub write_payloads-Keeps :
        (payloads : Payloads) → Keeps (On D) (write_payloads env executor run_id payloads)
    unfolding write_payloads
    write_payloads-Keeps [] = Keeps-pure []
    write_payloads-Keeps ((artifact_id, p) ∷ payloads) =
        Keeps-bind _ _ (write_payload-Keeps artifact_id p) λ reference.
          Keeps-bind _ _ (write_payloads-Keeps payloads) λ references. search keeps_rules

    pub write_aliases-Keeps :
        (payloads : Payloads) → Keeps (On D) (write_aliases env executor run_id payloads)
    unfolding write_aliases
    write_aliases-Keeps payloads = search port_rules depth 20

  pub verify_all-Keeps :
      (run_id : String) (references : List ArtifactReference)
      → Keeps (On D) (verify_all env run_id references)
  unfolding verify_all
  verify_all-Keeps run_id [] = Keeps-pure tt
  verify_all-Keeps run_id (reference ∷ references) =
      Keeps-bind _ _
        (Keeps-bind _ _ (artifact_reference_integrity-Keeps D closed env run_id reference)
          accept-Keeps)
        (λ done. verify_all-Keeps run_id references)
