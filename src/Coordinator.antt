-- ===== src/Coordinator.antt =====
-- v2/src/footballai_v2/execution/coordinator.py: retries and clones, over the repository on PostgreSQL, the
-- storage in memory and the filesystem queue. `str` of a JSON value that is no text is a parameter.
pub mod Compensation
pub mod Planned
pub mod Delivery
use technical_test_mitus_ai.Prelude.{
  ℕ, ◌+◌, String, Bool, true, false, not, ◌&&◌, Option, none, some, List, [], map, ◌==◌, string_eq,
  Result, ok, err, ◌>>=◌, ◌>>◌, Error, key_error,
}
use technical_test_mitus_ai.Contract.Json.{JsonValue, string, int, pos, Fields, end, get_field}
use technical_test_mitus_ai.Contract.References.{CodeReference, StructuredError}
use technical_test_mitus_ai.Contract.Stage.{
  StageName, identity_resolution, pitch_calibration, StageStatus, StageExecution,
}
use technical_test_mitus_ai.Contract.Run.{AnalysisRun}
use technical_test_mitus_ai.Contract.Transitions.{
  NewRun, new, no_arguments, retry_from, with_stages, fail,
}
use technical_test_mitus_ai.Repository.{create, load, save}
use technical_test_mitus_ai.Repository.Tables.{Database}
use technical_test_mitus_ai.Queue.Local.{Queue}
use technical_test_mitus_ai.Storage.Memory.{Objects}
use technical_test_mitus_ai.Storage.Inputs.{copy_input}
use technical_test_mitus_ai.Uploads.Service.{stage_names, stage_value, submit}

-- The control plane, the data plane and the delivery
pub record Planes : Type 0 where
  pub db : Database
  pub objects : Objects
  pub queue : Queue

-- The identifiers that a call makes up, and what it reads from the clock, in the order of the readings
pub record Readings : Type 0 where
  pub run_id : String
  pub logical_analysis_id : String
  pub job_id : String
  pub run_time : ℕ
  pub created_time : ℕ
  pub job_time : ℕ
  pub error_time : ℕ
  pub failed_time : ℕ
  pub saved_time : ℕ

abbrev is_unsupported : StageName → Bool
is_unsupported identity_resolution = true
is_unsupported pitch_calibration = true
is_unsupported _ = false

-- `_queued_stages`; the constructor has nothing to refuse in these values
abbrev pub queued_stages : ℕ → (profile : String) → List StageExecution
queued_stages attempt profile =
    map
      (λ name. record {
        stage_id = stage_value name;
        stage_name = name;
        required = not (profile == "v1_compat" && is_unsupported name);
        status = StageStatus.queued;
        progress_percent = int (pos 0);
        attempt_number = attempt;
        started_at = none;
        finished_at = none;
        produced_artifact_ids = [];
        error = none;
        performance_metrics = end;
        message = none;
      })
      stage_names

-- The error of a run whose input was not copied or whose job was not queued
abbrev pub copy_failure : ℕ → StructuredError
copy_failure at = record {
  error_code = "input_copy_failed";
  safe_message = "The source input could not be copied safely.";
  retryable = false;
  occurred_at = at;
  technical_details = none;
}

abbrev pub Outcome : Type 0
Outcome = Result AnalysisRun × Planes

-- `except Exception: self.repository.save(run.fail(…)); raise`
abbrev pub failing_save : AnalysisRun → Readings → Database → Result Database
failing_save run c db = do
  failed ← fail run (copy_failure c.error_time) none c.failed_time none
  save failed none c.saved_time db

abbrev pub compensated : Error → Planes → Result Database → Outcome
compensated raised p (ok saved) = (err raised, record p { db = saved })
compensated raised p (err second) = (err second, p)

unfoldable pub compensate : AnalysisRun → Readings → Error → Planes → Outcome
unfolding fail save
compensate run c raised p = compensated raised p (failing_save run c p.db)

-- The second half of the `try` block
abbrev pub queued_or_failed :
    AnalysisRun → Readings → Planes → Result AnalysisRun × Database × Queue → Outcome
queued_or_failed run c p (ok same, db, queue) = (ok run, record p { queue = queue })
queued_or_failed run c p (err raised, db, queue) =
    compensate run c raised (record p { queue = queue })

abbrev pub copied_or_failed :
    AnalysisRun → (profile : String) → Readings → Planes → Result (List ℕ) × Objects → Outcome
copied_or_failed run profile c p (ok key, objects) =
    queued_or_failed run c (record p { objects = objects })
      (submit run profile c.job_id c.job_time p.db p.queue)
copied_or_failed run profile c p (err raised, objects) =
    compensate run c raised (record p { objects = objects })

abbrev profile_text : (JsonValue → String) → Option JsonValue → Result String
profile_text str none = err key_error
profile_text str (some (string s)) = ok s
profile_text str (some value) = ok (str value)

-- `str(previous.parameters["pipeline_profile"])`
abbrev pub profile_of : (JsonValue → String) → AnalysisRun → Result String
profile_of str previous = profile_text str (get_field "pipeline_profile" previous.parameters)

-- The arguments of `AnalysisRun.new` in `clone`
abbrev pub cloned_from : AnalysisRun → CodeReference → (profile : String) → NewRun
cloned_from previous code profile = record {
  data_origin = previous.data_origin;
  input = previous.input;
  code = code;
  pipeline_version = previous.pipeline_version;
  parameters = some previous.parameters;
  models = previous.models;
  stages = queued_stages 1 profile;
  logical_analysis_id = none;
  run_id = none;
  created_at = none;
}

module _ (sha256_of : List ℕ → String) (str : JsonValue → String) where
  -- What follows the creation of the new attempt
  unfoldable pub deliver :
      (source_run_id : String) → AnalysisRun → (profile : String) → Readings → Planes → Outcome
  unfolding copy_input submit compensate
  deliver source_run_id run profile c p =
      copied_or_failed run profile c p (copy_input sha256_of source_run_id run.run_id p.objects)

  abbrev pub admit :
      (source_run_id : String)
      → AnalysisRun
      → (profile : String) → Readings
      → Planes
      → Result (String × Database)
      → Outcome
  admit source_run_id run profile c p (err raised) = (err raised, p)
  admit source_run_id run profile c p (ok (created, db)) =
      deliver source_run_id run profile c (record p { db = db })

  abbrev pub launch :
      (source_run_id : String) → Readings → Planes → Result (String × AnalysisRun) → Outcome
  launch source_run_id c p (err raised) = (err raised, p)
  launch source_run_id c p (ok (profile, run)) =
      admit source_run_id run profile c p (create run c.created_time p.db)

  -- `retry` up to the new run
  abbrev pub next_attempt : String → Readings → Database → Result (String × AnalysisRun)
  next_attempt run_id c db = do
    previous ← load run_id db
    profile ← profile_of str previous
    retried ← retry_from previous no_arguments c.run_id c.run_time
    staged ← with_stages retried (queued_stages (previous.attempt_number + 1) profile)
    ok (profile, staged)

  unfoldable pub retry : String → Readings → Planes → Outcome
  unfolding load retry_from with_stages create deliver
  retry run_id c p = launch run_id c p (next_attempt run_id c p.db)

  abbrev pub cloned : String → CodeReference → Readings → Database → Result (String × AnalysisRun)
  cloned run_id code c db = do
    previous ← load run_id db
    profile ← profile_of str previous
    run ← new (cloned_from previous code profile) c.logical_analysis_id c.run_id c.run_time
    ok (profile, run)

  unfoldable pub clone : String → (code_reference : CodeReference) → Readings → Planes → Outcome
  unfolding load new create deliver
  clone run_id code c p = launch run_id c p (cloned run_id code c p.db)
