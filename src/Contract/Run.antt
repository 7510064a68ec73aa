-- ===== src/Contract/Run.antt =====
-- `AnalysisRun` of contracts/v1/analysis_run.py: the manifest of one attempt and its checks.

pub mod Shape
pub mod Manifest
use technical_test_mitus_ai.Prelude.{
  ℕ, String, ◌≡◌, Bool, true, false, not, ◌&&◌, ◌||◌, Option, none, some, List, [], ◌∷◌, map, Eq,
  ◌==◌, nat_eq, string_eq, option_eq, leb, ltb, if◌then◌else◌, is_some, or_else, is_empty, any, all,
  all_distinct, subset_of, Error, contract_validation, Result, ok, err, ◌>>=◌, ◌>>◌, require,
  forbid, codes,
}
use technical_test_mitus_ai.Contract.Text.{validate_uuid_v4, validate_run_id, require_non_empty}
use technical_test_mitus_ai.Contract.Json.{Fields, validate_mapping}
use technical_test_mitus_ai.Contract.References.{
  InputReference, CodeReference, ModelReference, ArtifactReference, StructuredError,
}
use technical_test_mitus_ai.Contract.Stage.{
  StageName, ingestion, video_validation, detection, tracking, identity_resolution,
  pitch_calibration, metrics, workload_advisory, artifact_publication, StageStatus, StageExecution,
  optional_safe_text,
}
use technical_test_mitus_ai.Contract.Stage as Stage

pub data DataOrigin : Type 0 where
  real synthetic evaluation legacy_v1 : DataOrigin

pub data AnalysisRunStatus : Type 0 where
  queued running succeeded partial failed cancelled : AnalysisRunStatus

-- `AnalysisRunStatus.is_terminal`
abbrev pub is_terminal : AnalysisRunStatus → Bool
is_terminal queued = false
is_terminal running = false
is_terminal _ = true

pub record AnalysisRun : Type 0 where
  pub logical_analysis_id : String
  pub run_id : String
  pub attempt_number : ℕ
  pub previous_attempt_run_id : Option String
  pub status : AnalysisRunStatus
  pub data_origin : DataOrigin
  pub input : InputReference
  pub code : CodeReference
  pub pipeline_version : String
  pub parameters : Fields
  pub models : List ModelReference
  pub artifacts : List ArtifactReference
  pub stages : List StageExecution
  pub created_at : ℕ
  pub started_at : Option ℕ
  pub completed_at : Option ℕ
  pub failure : Option StructuredError
  pub partial_reason : Option String
  pub cancellation_reason : Option String
  pub contract_version : String

abbrev pub contract_version_v1 : String
contract_version_v1 = "footballai.analysis-run/v1"

abbrev stage_index : StageName → ℕ
stage_index ingestion = 0
stage_index video_validation = 1
stage_index detection = 2
stage_index tracking = 3
stage_index identity_resolution = 4
stage_index pitch_calibration = 5
stage_index metrics = 6
stage_index workload_advisory = 7
stage_index artifact_publication = 8

instance abbrev pub stage_name_eq : Eq StageName
stage_name_eq = record { beq = λ a b. stage_index a == stage_index b }

-- `if value:` of an optional text: neither None nor ""
abbrev pub truthy : Option String → Bool
truthy none = false
truthy (some s) = not (is_empty (codes s))

abbrev unique : {A : Type 0} ⦃e : Eq A⦄ → List A → String → Result (Unit {0})
unique xs message = require (all_distinct xs) (contract_validation message)

unfoldable pub validate_unique_dependencies : AnalysisRun → Result (Unit {0})
validate_unique_dependencies r = do
  unique (map (λ m. m.name) r.models) "model names must be unique within an analysis run"
  unique (map (λ a. a.artifact_id) r.artifacts) "artifact IDs must be unique within an analysis run"
  unique (map (λ a. a.name) r.artifacts) "artifact names must be unique within an analysis run"
  unique (map (λ a. a.relative_path) r.artifacts) "artifact relative paths must be unique"
  unique (map (λ s. s.stage_id) r.stages) "stage IDs must be unique within an analysis run"
  unique (map (λ s. s.stage_name) r.stages) "stage names must be unique within an analysis run"

unfoldable pub validate_links : ℕ → List String → List StageExecution → Result (Unit {0})
validate_links attempt_number artifact_ids [] = ok tt
validate_links attempt_number artifact_ids (s ∷ stages) = do
  require (s.attempt_number == attempt_number)
      (contract_validation "stage attempt_number must match the run attempt_number")
  require (subset_of s.produced_artifact_ids artifact_ids)
      (contract_validation "stage references unknown artifact IDs")
  validate_links attempt_number artifact_ids stages

unfoldable pub validate_stage_artifact_links : AnalysisRun → Result (Unit {0})
unfolding validate_links
validate_stage_artifact_links r =
    validate_links r.attempt_number (map (λ a. a.artifact_id) r.artifacts) r.stages

abbrev pub is_active_stage : StageExecution → Bool
is_active_stage s = Stage.is_queued s.status || Stage.is_running s.status

-- {PARTIAL, FAILED, CANCELLED, SKIPPED}
abbrev pub is_incomplete : StageStatus → Bool
is_incomplete StageStatus.partial = true
is_incomplete StageStatus.failed = true
is_incomplete StageStatus.cancelled = true
is_incomplete StageStatus.skipped = true
is_incomplete _ = false

-- `_validate_lifecycle`, one clause for each status
unfoldable pub validate_lifecycle : AnalysisRunStatus → AnalysisRun → Result (Unit {0})
unfolding any
validate_lifecycle queued r = do
  forbid
      (is_some r.started_at
        || is_some r.completed_at
        || is_some r.failure
        || not (is_empty r.artifacts)
        || truthy r.partial_reason
        || truthy r.cancellation_reason)
      (contract_validation "queued run cannot have execution or terminal fields")
  forbid (any (λ s. not (Stage.is_queued s.status)) r.stages)
      (contract_validation "queued run may contain only queued stage records")
validate_lifecycle running r =
    forbid
      (not (is_some r.started_at)
        || is_some r.completed_at
        || is_some r.failure
        || not (is_empty r.artifacts)
        || truthy r.partial_reason
        || truthy r.cancellation_reason)
      (contract_validation "running run requires started_at and no terminal fields")
validate_lifecycle succeeded r = do
  forbid
      (not (is_some r.started_at)
        || not (is_some r.completed_at)
        || is_some r.failure
        || is_some r.partial_reason
        || is_some r.cancellation_reason)
      (contract_validation "succeeded run requires start/completion and no failure reason")
  forbid (is_empty r.artifacts || is_empty r.stages)
      (contract_validation "succeeded run requires artifacts and terminal stage records")
  forbid (any is_active_stage r.stages)
      (contract_validation "succeeded run cannot contain active stages")
  forbid (any (λ s. s.required && not (Stage.is_succeeded s.status)) r.stages)
      (contract_validation "succeeded run requires every required stage to succeed")
validate_lifecycle partial r = do
  forbid
      (not (is_some r.started_at)
        || not (is_some r.completed_at)
        || is_some r.failure
        || not (is_some r.partial_reason)
        || is_some r.cancellation_reason)
      (contract_validation "partial run requires start/completion/safe reason and no run failure")
  forbid (is_empty r.artifacts)
      (contract_validation "partial run requires at least one useful artifact")
  forbid (is_empty r.stages || any is_active_stage r.stages)
      (contract_validation "partial run requires terminal stage records")
  require (any (λ s. s.required && is_incomplete s.status) r.stages)
      (contract_validation "partial run requires incomplete mandatory stage evidence")
validate_lifecycle failed r = do
  forbid
      (not (is_some r.completed_at)
        || not (is_some r.failure)
        || not (is_empty r.artifacts)
        || is_some r.partial_reason
        || is_some r.cancellation_reason)
      (contract_validation "failed run requires completion/error and no artifacts")
  forbid (any (λ s. Stage.is_running s.status) r.stages)
      (contract_validation "failed run cannot contain a running stage")
validate_lifecycle cancelled r = do
  forbid
      (not (is_some r.completed_at)
        || is_some r.failure
        || not (is_empty r.artifacts)
        || is_some r.partial_reason)
      (contract_validation "cancelled run requires completion and no failure/artifacts")
  forbid (any (λ s. Stage.is_running s.status) r.stages)
      (contract_validation "cancelled run cannot contain a running stage")

-- The first attempt has no predecessor; every later one names it.
unfoldable pub check_previous : ℕ → Option String → Result (Unit {0})
check_previous n none =
    require (n == 1) (contract_validation "retry attempt requires previous_attempt_run_id")
check_previous n (some p) = do
  forbid (n == 1) (contract_validation "first attempt requires previous_attempt_run_id null")
  validate_run_id p

-- `a is not None and a < b`
abbrev before : Option ℕ → ℕ → Bool
before none b = false
before (some a) b = ltb a b

unfoldable pub check_identity : AnalysisRun → Result (Unit {0})
check_identity r = do
  require (r.contract_version == contract_version_v1)
      (contract_validation "unsupported contract_version")
  validate_uuid_v4 r.logical_analysis_id
  validate_run_id r.run_id
  require (leb 1 r.attempt_number)
      (contract_validation "attempt_number must be an integer of at least 1")
  check_previous r.attempt_number r.previous_attempt_run_id
  forbid (r.previous_attempt_run_id == some r.run_id)
      (contract_validation "previous_attempt_run_id cannot equal run_id")
  require_non_empty r.pipeline_version
  validate_mapping r.parameters

unfoldable pub check_times : AnalysisRun → Result (Unit {0})
check_times r = do
  forbid (before r.started_at r.created_at)
      (contract_validation "started_at cannot precede created_at")
  forbid (before r.completed_at (or_else r.started_at r.created_at))
      (contract_validation "completed_at cannot precede the run start")

-- `__post_init__`
unfoldable pub validate_run : AnalysisRun → Result (Unit {0})
validate_run r = do
  check_identity r
  check_times r
  optional_safe_text r.partial_reason
  optional_safe_text r.cancellation_reason
  validate_unique_dependencies r
  validate_stage_artifact_links r
  validate_lifecycle r.status r

-- The constructor, and `dataclasses.replace`: the new value is checked again.
unfoldable pub analysis_run : AnalysisRun → Result AnalysisRun
analysis_run r = do validate_run r; ok r
