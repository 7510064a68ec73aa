-- ===== src/Contract/Transitions.antt =====
-- The constructors and lifecycle methods of `AnalysisRun` (contracts/v1/analysis_run.py). `now` is
-- the value of `utc_now()` and `fresh` that of `str(uuid.uuid4())` where the method calls them.
use technical_test_mitus_ai.Prelude.{
  ℕ, ◌+◌, String, Bool, true, false, ◌||◌, Option, none, some, List, [], or_else, is_empty, codes,
  if◌then◌else◌, invalid_status_transition, Result, ◌>>◌, require, forbid,
}
use technical_test_mitus_ai.Contract.Json.{Fields, end}
use technical_test_mitus_ai.Contract.References.{
  InputReference, CodeReference, ModelReference, ArtifactReference, StructuredError,
}
use technical_test_mitus_ai.Contract.Stage.{StageExecution}
use technical_test_mitus_ai.Contract.Run.{
  DataOrigin, AnalysisRunStatus, queued, running, succeeded, partial, failed, cancelled,
  is_terminal, AnalysisRun, contract_version_v1, analysis_run,
}

-- `text or default`: None and "" are both replaced.
abbrev pub text_or : Option String → String → String
text_or none d = d
text_or (some s) d = if is_empty (codes s) then d else s

abbrev pub is_queued : AnalysisRunStatus → Bool
is_queued queued = true
is_queued _ = false

abbrev pub is_running : AnalysisRunStatus → Bool
is_running running = true
is_running _ = false

-- {FAILED, PARTIAL}
abbrev pub is_retryable : AnalysisRunStatus → Bool
is_retryable failed = true
is_retryable partial = true
is_retryable _ = false

-- The keyword arguments of `AnalysisRun.new`.
pub record NewRun : Type 0 where
  pub data_origin : DataOrigin
  pub input : InputReference
  pub code : CodeReference
  pub pipeline_version : String
  pub parameters : Option Fields
  pub models : List ModelReference
  pub stages : List StageExecution
  pub logical_analysis_id : Option String
  pub run_id : Option String
  pub created_at : Option ℕ

-- `AnalysisRun.new`; the two fresh identifiers are for the logical analysis and for the run
unfoldable pub new : NewRun → (fresh_logical fresh_run : String) (now : ℕ) → Result AnalysisRun
new a fresh_logical fresh_run now = analysis_run (record {
  logical_analysis_id = text_or a.logical_analysis_id fresh_logical;
  run_id = text_or a.run_id fresh_run;
  attempt_number = 1;
  previous_attempt_run_id = none;
  status = queued;
  data_origin = a.data_origin;
  input = a.input;
  code = a.code;
  pipeline_version = a.pipeline_version;
  parameters = or_else a.parameters end;
  models = a.models;
  artifacts = [];
  stages = a.stages;
  created_at = or_else a.created_at now;
  started_at = none;
  completed_at = none;
  failure = none;
  partial_reason = none;
  cancellation_reason = none;
  contract_version = contract_version_v1;
})

-- The keyword arguments of `AnalysisRun.retry_from`.
pub record RetryArguments : Type 0 where
  pub code : Option CodeReference
  pub pipeline_version : Option String
  pub parameters : Option Fields
  pub models : Option (List ModelReference)
  pub run_id : Option String
  pub created_at : Option ℕ

abbrev pub no_arguments : RetryArguments
no_arguments = record {
  code = none;
  pipeline_version = none;
  parameters = none;
  models = none;
  run_id = none;
  created_at = none;
}

unfoldable pub retry_from :
    (previous : AnalysisRun) (a : RetryArguments) (fresh : String) (now : ℕ) → Result AnalysisRun
retry_from previous a fresh now = do
  require (is_retryable previous.status) (invalid_status_transition "cannot retry run")
  analysis_run (record {
    logical_analysis_id = previous.logical_analysis_id;
    run_id = text_or a.run_id fresh;
    attempt_number = previous.attempt_number + 1;
    previous_attempt_run_id = some previous.run_id;
    status = queued;
    data_origin = previous.data_origin;
    input = previous.input;
    code = or_else a.code previous.code;
    pipeline_version = text_or a.pipeline_version previous.pipeline_version;
    parameters = or_else a.parameters previous.parameters;
    models = or_else a.models previous.models;
    artifacts = [];
    stages = [];
    created_at = or_else a.created_at now;
    started_at = none;
    completed_at = none;
    failure = none;
    partial_reason = none;
    cancellation_reason = none;
    contract_version = contract_version_v1;
  })

module _ (self : AnalysisRun) where
  unfoldable pub start :
      (at : Option ℕ) (now : ℕ) → Option (List StageExecution) → Result AnalysisRun
  start at now stages = do
    require (is_queued self.status) (invalid_status_transition "cannot start run")
    analysis_run (record self {
      status = running;
      started_at = some (or_else at now);
      stages = or_else stages self.stages;
    })

  unfoldable pub with_stages : List StageExecution → Result AnalysisRun
  with_stages stages = do
    forbid (is_terminal self.status)
        (invalid_status_transition "terminal attempts cannot update stage records")
    analysis_run (record self { stages = stages })

  unfoldable pub succeed :
      List ArtifactReference → (at : Option ℕ) (now : ℕ) → List StageExecution → Result AnalysisRun
  succeed artifacts at now stages = do
    require (is_running self.status) (invalid_status_transition "cannot succeed run")
    analysis_run (record self {
      status = succeeded;
      artifacts = artifacts;
      stages = stages;
      completed_at = some (or_else at now);
    })

  unfoldable pub complete_partial :
      List ArtifactReference
      → String
      → (at : Option ℕ) (now : ℕ) → List StageExecution
      → Result AnalysisRun
  complete_partial artifacts partial_reason at now stages = do
    require (is_running self.status) (invalid_status_transition "cannot complete partial run")
    analysis_run (record self {
      status = partial;
      artifacts = artifacts;
      stages = stages;
      partial_reason = some partial_reason;
      completed_at = some (or_else at now);
    })

  unfoldable pub fail :
      StructuredError
      → (at : Option ℕ) (now : ℕ) → Option (List StageExecution)
      → Result AnalysisRun
  fail failure at now stages = do
    require (is_queued self.status || is_running self.status)
        (invalid_status_transition "cannot fail run")
    analysis_run (record self {
      status = failed;
      failure = some failure;
      stages = or_else stages self.stages;
      completed_at = some (or_else at now);
    })

  unfoldable pub cancel :
      (at : Option ℕ) (now : ℕ) → Option String → Option (List StageExecution) → Result AnalysisRun
  cancel at now reason stages = do
    require (is_queued self.status || is_running self.status)
        (invalid_status_transition "cannot cancel run")
    analysis_run (record self {
      status = cancelled;
      cancellation_reason = reason;
      stages = or_else stages self.stages;
      completed_at = some (or_else at now);
    })
