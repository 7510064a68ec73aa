-- ===== src/Repository/Tables.antt =====
-- v2/src/footballai_v2/storage/postgres/schema.py: the tables of the control plane, and the SQL
-- statements that the repository issues. The manifest column holds the run that its JSON stands for.
use technical_test_mitus_ai.Prelude.{
  ℕ, String, Bool, false, not, ◌&&◌, ◌||◌, Option, none, some, List, [], ◌∷◌, ◌++◌, ◌==◌, nat_eq,
  string_eq, if◌then◌else◌, any, integrity_error, value_error, Result, ok, err, ◌≡◌, refl,
}
use technical_test_mitus_ai.Contract.Json.{Number, Fields}
use technical_test_mitus_ai.Contract.References.{ArtifactReference}
use technical_test_mitus_ai.Contract.Stage.{StageName, StageStatus}
use technical_test_mitus_ai.Contract.Run.{
  DataOrigin, AnalysisRunStatus, queued, running, succeeded, partial, failed, cancelled,
  AnalysisRun,
}

-- `AnalysisRunStatus.value`
abbrev pub status_value : AnalysisRunStatus → String
status_value queued = "queued"
status_value running = "running"
status_value succeeded = "succeeded"
status_value partial = "partial"
status_value failed = "failed"
status_value cancelled = "cancelled"

-- `AnalysisRunStatus(text)`
unfoldable pub parse_status : String → Result AnalysisRunStatus
parse_status s =
    if s == "queued"
    then ok queued
    else if s == "running"
    then ok running
    else if s == "succeeded"
    then ok succeeded
    else if s == "partial"
    then ok partial
    else if s == "failed"
    then ok failed
    else if s == "cancelled"
    then ok cancelled
    else err value_error

pub parse_status-status_value : (s : AnalysisRunStatus) → parse_status (status_value s) ≡ ok s
unfolding parse_status
parse_status-status_value queued = refl
parse_status-status_value running = refl
parse_status-status_value succeeded = refl
parse_status-status_value partial = refl
parse_status-status_value failed = refl
parse_status-status_value cancelled = refl

-- `logical_analyses`
pub record LogicalAnalysis : Type 0 where
  pub logical_analysis_id : String
  pub data_origin : DataOrigin
  pub created_at : ℕ

-- `analysis_attempts`
pub record Attempt : Type 0 where
  pub run_id : String
  pub logical_analysis_id : String
  pub attempt_number : ℕ
  pub previous_attempt_run_id : Option String
  pub status : String
  pub data_origin : DataOrigin
  pub pipeline_version : String
  pub contract_version : String
  pub manifest : AnalysisRun
  pub version : ℕ
  pub cancel_requested : Bool
  pub created_at : ℕ
  pub started_at : Option ℕ
  pub completed_at : Option ℕ

-- `stage_executions`
pub record StageRow : Type 0 where
  pub run_id : String
  pub stage_id : String
  pub stage_name : StageName
  pub required : Bool
  pub status : StageStatus
  pub progress_percent : Number
  pub attempt_number : ℕ

-- `artifact_metadata`
pub record ArtifactRow : Type 0 where
  pub run_id : String
  pub artifact : ArtifactReference

pub data EventType : Type 0 where
  attempt_created attempt_updated attempt_retried : EventType

-- `audit_events`, in the order of their ids
pub record AuditEvent : Type 0 where
  pub logical_analysis_id : String
  pub run_id : String
  pub attempt_number : ℕ
  pub event_type : EventType
  pub detail : Fields
  pub created_at : ℕ

pub record Database : Type 0 where
  pub logical_analyses : List LogicalAnalysis
  pub analysis_attempts : List Attempt
  pub stage_executions : List StageRow
  pub artifact_metadata : List ArtifactRow
  pub audit_events : List AuditEvent

-- SELECT … WHERE run_id = k; `first()`
unfoldable pub find_attempt : String → List Attempt → Option Attempt
find_attempt k [] = none
find_attempt k (a ∷ rows) = if a.run_id == k then some a else find_attempt k rows

-- UPDATE … WHERE run_id = k
unfoldable pub update_attempt : String → (Attempt → Attempt) → List Attempt → List Attempt
update_attempt k f [] = []
update_attempt k f (a ∷ rows) = (if a.run_id == k then f a else a) ∷ update_attempt k f rows

unfoldable pub has_logical : String → List LogicalAnalysis → Bool
has_logical k [] = false
has_logical k (l ∷ rows) = l.logical_analysis_id == k || has_logical k rows

-- The primary key `run_id`, and UNIQUE (logical_analysis_id, attempt_number)
abbrev pub collides : Attempt → Attempt → Bool
collides a b =
    b.run_id == a.run_id
    || b.logical_analysis_id == a.logical_analysis_id && b.attempt_number == a.attempt_number

-- INSERT into `analysis_attempts`, under its constraints and its foreign key
unfoldable pub insert_attempt : Attempt → Database → Result Database
unfolding any has_logical
insert_attempt a db =
    if any (collides a) db.analysis_attempts
      || not (has_logical a.logical_analysis_id db.logical_analyses)
    then err integrity_error
    else ok (record db { analysis_attempts = db.analysis_attempts ++ a ∷ [] })

-- DELETE FROM stage_executions WHERE run_id = k
unfoldable pub delete_stages : String → List StageRow → List StageRow
delete_stages k [] = []
delete_stages k (r ∷ rows) =
    let rest = delete_stages k rows in if r.run_id == k then rest else r ∷ rest

unfoldable pub delete_artifacts : String → List ArtifactRow → List ArtifactRow
delete_artifacts k [] = []
delete_artifacts k (r ∷ rows) =
    let rest = delete_artifacts k rows in if r.run_id == k then rest else r ∷ rest
