-- ===== src/Uploads/Service.antt =====
-- `DirectUploadService` of v2/src/footballai_v2/storage/upload_service.py over the storage in memory, the
-- repository and the filesystem queue.
use Prim.Native.String as Native
use technical_test_mitus_ai.Prelude.{
  ℕ, String, true, Option, none, some, List, [], ◌∷◌, map, ◌==◌, string_eq, if◌then◌else◌, contains,
  or_else, Result, ok, err, ◌>>=◌, ◌>>◌, Error, require, run_already_exists, invalid_storage_object,
}
use technical_test_mitus_ai.Contract.Json.{Fields, end, field, JsonValue, string, int, pos}
use technical_test_mitus_ai.Contract.References.{CodeReference, InputReference, input_reference}
use technical_test_mitus_ai.Contract.Run.{AnalysisRun, DataOrigin}
use technical_test_mitus_ai.Contract.Stage.{
  StageName, ingestion, video_validation, detection, tracking, identity_resolution,
  pitch_calibration, metrics, workload_advisory, artifact_publication, StageStatus, StageExecution,
}
use technical_test_mitus_ai.Contract.Transitions.{NewRun, new}
use technical_test_mitus_ai.Repository.{create, load}
use technical_test_mitus_ai.Repository.Tables.{Database}
use technical_test_mitus_ai.Queue.Jobs.{ExecutionJob, execution_job}
use technical_test_mitus_ai.Queue.Local.{Queue, enqueue}
use technical_test_mitus_ai.Storage.Memory.{Objects}
use technical_test_mitus_ai.Storage.Inputs.{finalize_upload, UploadGrant, authorize_upload}
use technical_test_mitus_ai.Uploads.Characters.{text_of}

abbrev pub video_content_types : List String
video_content_types = "video/mp4" ∷ "video/quicktime" ∷ "video/x-matroska" ∷ "video/webm" ∷ []

-- The fields of `DirectUploadService` that are no ports
pub record DirectUploadService : Type 0 where
  pub max_upload_bytes : ℕ
  pub code_reference : CodeReference
  pub expires_seconds : ℕ

pub record AuthorizedUpload : Type 0 where
  pub run_id : String
  pub grant : UploadGrant

unfoldable pub authorize :
    DirectUploadService
    → (content_type : String) → (fresh : String) (now : ℕ) → Result AuthorizedUpload
unfolding contains authorize_upload
authorize service content_type fresh now = do
  require (contains video_content_types content_type) invalid_storage_object
  grant ← authorize_upload fresh content_type service.max_upload_bytes service.expires_seconds now
  ok (record { run_id = fresh; grant = grant })

-- `name.value`
abbrev pub stage_value : StageName → String
stage_value ingestion = "ingestion"
stage_value video_validation = "video_validation"
stage_value detection = "detection"
stage_value tracking = "tracking"
stage_value identity_resolution = "identity_resolution"
stage_value pitch_calibration = "pitch_calibration"
stage_value metrics = "metrics"
stage_value workload_advisory = "workload_advisory"
stage_value artifact_publication = "artifact_publication"

abbrev pub stage_names : List StageName
stage_names =
    ingestion ∷ video_validation ∷ detection ∷ tracking ∷ identity_resolution ∷ pitch_calibration
    ∷ metrics ∷ workload_advisory ∷ artifact_publication ∷ []

-- `_queued_stages`; the constructor has nothing to refuse in these values
abbrev pub queued_stages : ℕ → List StageExecution
queued_stages attempt =
    map
      (λ name. record {
        stage_id = stage_value name;
        stage_name = name;
        required = true;
        status = StageStatus.queued;
        progress_percent = int (pos 0);
        attempt_number = attempt;
        started_at = none;
        finished_at = none;
        produced_artifact_ids = [];
        error = none;
        performance_metrics = end;
        message = none;
      })
      stage_names

-- `{**fields, key: value}`
abbrev set_field : String → JsonValue → Fields → Fields
set_field key value end = field key value end
set_field key value (field k v fields) =
    let rest = set_field key value fields in
    if k == key then field k value fields else field k v rest

-- The arguments of `finalize`
pub record Finalization : Type 0 where
  pub run_id : String
  pub profile : String
  pub data_origin : DataOrigin
  pub parameters : Option Fields

-- The arguments of `AnalysisRun.new`
abbrev pub new_run : DirectUploadService → Finalization → InputReference → NewRun
new_run service f input = record {
  data_origin = f.data_origin;
  input = input;
  code = service.code_reference;
  pipeline_version = Native.◌++◌ f.profile "/1.0.0";
  parameters = some (set_field "pipeline_profile" (string f.profile) (or_else f.parameters end));
  models = [];
  stages = queued_stages 1;
  logical_analysis_id = none;
  run_id = some f.run_id;
  created_at = none;
}

-- `finalize` up to the new run. `finalize_upload` refuses an empty run id, so `new` makes none up.
unfoldable pub prepare :
    DirectUploadService
    → Finalization
    → (fresh_logical : String) (now : ℕ) → Objects
    → Result AnalysisRun
unfolding finalize_upload input_reference new text_of
prepare service f fresh_logical now objects = do
  finalized ← finalize_upload f.run_id service.max_upload_bytes video_content_types objects
  input ←
      input_reference (Native.◌++◌ "blob://" (text_of finalized.object_reference)) finalized.sha256
        finalized.content_type
  new (new_run service f input) fresh_logical f.run_id now

abbrev pub Outcome : Type 0
Outcome = Result AnalysisRun × Database × Queue

abbrev pub enqueued : AnalysisRun → Database → Queue → Result ExecutionJob → Outcome
enqueued run db q (ok job) = ((enqueue job q).0 >> ok run, db, (enqueue job q).1)
enqueued run db q (err raised) = (err raised, db, q)

-- `ExecutionJob.new` and `enqueue`
unfoldable pub submit :
    AnalysisRun → String → (fresh_job : String) (now : ℕ) → Database → Queue → Outcome
unfolding execution_job enqueue
submit run profile fresh_job now db q = enqueued run db q (
    execution_job (record {
      job_id = fresh_job;
      run_id = run.run_id;
      logical_analysis_id = run.logical_analysis_id;
      attempt_number = run.attempt_number;
      pipeline_profile = profile;
      created_at = now;
      claimed_at = none;
      worker_id = none;
    }))

abbrev pub refused : String → Database → Queue → Error → Outcome
refused run_id db q run_already_exists = (load run_id db, db, q)
refused run_id db q raised = (err raised, db, q)

unfoldable pub admit :
    AnalysisRun → Finalization → (fresh_job : String) (now : ℕ) → Database → Queue → Outcome
unfolding create load submit
admit run f fresh_job now db q = elim (create run now db) [
  | ok created ↦ submit run f.profile fresh_job now created.1 q
  | err raised ↦ refused f.run_id db q raised
]

unfoldable pub finalize :
    DirectUploadService
    → Finalization
    → (fresh_logical fresh_job : String) (now : ℕ) → Objects
    → Database
    → Queue
    → Outcome
unfolding prepare admit
finalize service f fresh_logical fresh_job now objects db q =
    elim (prepare service f fresh_logical now objects) [
      | ok run ↦ admit run f fresh_job now db q
      | err raised ↦ (err raised, db, q)
    ]
