-- ===== src/Repository.antt =====
-- v2/src/footballai_v2/storage/postgres/repository.py: the control plane on PostgreSQL. A method is
-- one transaction: its row locks let no other run in between, and what it raises undoes it. `now`
-- is the value of `utc_now()` and `fresh` that of `str(uuid.uuid4())`.
pub mod Tables
pub mod Lookup
pub mod Saves
pub mod Locking
pub mod History
pub mod Immutability
use technical_test_mitus_ai.Prelude.{
  ℕ, ◌+◌, String, Bool, true, false, not, ◌&&◌, Option, none, some, List, [], ◌∷◌, ◌++◌, map, ◌==◌,
  nat_eq, string_eq, if◌then◌else◌, is_some, run_already_exists, run_not_found,
  concurrency_conflict, Result, ok, err, ◌>>=◌, ◌>>◌, require, forbid,
}
use technical_test_mitus_ai.Contract.Json.{
  JsonValue, null, number, int, pos, string, Fields, end, field,
}
use technical_test_mitus_ai.Contract.Run.{AnalysisRunStatus, is_terminal, AnalysisRun}
use technical_test_mitus_ai.Contract.Stage.{StageExecution}
use technical_test_mitus_ai.Contract.References.{ArtifactReference}
use technical_test_mitus_ai.Contract.Transitions.{RetryArguments, retry_from}
use technical_test_mitus_ai.Lifecycle.{ensure_creatable, ensure_transition_allowed}
use Tables.{
  status_value, parse_status, LogicalAnalysis, Attempt, StageRow, ArtifactRow, EventType,
  attempt_created, attempt_updated, attempt_retried, AuditEvent, Database, find_attempt,
  update_attempt, has_logical, insert_attempt, delete_stages, delete_artifacts,
}

-- `_attempt_row`, for an INSERT; `cancel_requested` has its server default
abbrev pub attempt_row : AnalysisRun → ℕ → Attempt
attempt_row run version = record {
  run_id = run.run_id;
  logical_analysis_id = run.logical_analysis_id;
  attempt_number = run.attempt_number;
  previous_attempt_run_id = run.previous_attempt_run_id;
  status = status_value run.status;
  data_origin = run.data_origin;
  pipeline_version = run.pipeline_version;
  contract_version = run.contract_version;
  manifest = run;
  version = version;
  cancel_requested = false;
  created_at = run.created_at;
  started_at = run.started_at;
  completed_at = run.completed_at;
}

-- `_attempt_row`, for an UPDATE: it does not set `cancel_requested`
abbrev pub updated_row : AnalysisRun → ℕ → Attempt → Attempt
updated_row run version a = record (attempt_row run version) {
  cancel_requested = a.cancel_requested;
}

abbrev pub stage_row : AnalysisRun → StageExecution → StageRow
stage_row run s = record {
  run_id = run.run_id;
  stage_id = s.stage_id;
  stage_name = s.stage_name;
  required = s.required;
  status = s.status;
  progress_percent = s.progress_percent;
  attempt_number = s.attempt_number;
}

abbrev pub artifact_row : AnalysisRun → ArtifactReference → ArtifactRow
artifact_row run a = record { run_id = run.run_id; artifact = a }

-- `_replace_projections`
unfoldable pub replace_projections : AnalysisRun → Database → Database
unfolding delete_stages delete_artifacts
replace_projections run db = record db {
  stage_executions = delete_stages run.run_id db.stage_executions ++ map (stage_row run) run.stages;
  artifact_metadata =
      delete_artifacts run.run_id db.artifact_metadata ++ map (artifact_row run) run.artifacts;
}

-- `_append_audit`
unfoldable pub append_audit : AnalysisRun → EventType → Fields → ℕ → Database → Database
append_audit run event_type detail now db = record db {
  audit_events =
      db.audit_events
      ++ record {
        logical_analysis_id = run.logical_analysis_id;
        run_id = run.run_id;
        attempt_number = run.attempt_number;
        event_type = event_type;
        detail = detail;
        created_at = now;
      }
        ∷ [];
}

abbrev pub optional_text : Option String → JsonValue
optional_text none = null
optional_text (some s) = string s

abbrev pub count_value : ℕ → JsonValue
count_value n = number (int (pos n))

-- The `detail` of the audit events of a creation and of a retry.
abbrev pub create_detail : AnalysisRun → Fields
create_detail run = field "attempt_number" (count_value run.attempt_number) (
    field "previous_attempt_run_id" (optional_text run.previous_attempt_run_id)
      (field "status" (string (status_value run.status)) end))

abbrev pub retry_detail : AnalysisRun → Fields
retry_detail run =
    field "attempt_number" (count_value run.attempt_number)
      (field "previous_attempt_run_id" (optional_text run.previous_attempt_run_id) end)

-- INSERT … ON CONFLICT DO NOTHING
abbrev pub insert_logical : AnalysisRun → Database → Database
insert_logical run db =
    if has_logical run.logical_analysis_id db.logical_analyses then db else record db {
      logical_analyses =
          db.logical_analyses
          ++ record {
            logical_analysis_id = run.logical_analysis_id;
            data_origin = run.data_origin;
            created_at = run.created_at;
          }
            ∷ [];
    }

-- What both insertions do behind the row of the attempt.
abbrev pub record_attempt : AnalysisRun → EventType → Fields → ℕ → Database → Database
record_attempt run event_type detail now db =
    append_audit run event_type detail now (replace_projections run db)

unfoldable pub create : AnalysisRun → (now : ℕ) → Database → Result (String × Database)
unfolding ensure_creatable find_attempt insert_attempt replace_projections append_audit has_logical
create run now db0 = do
  ensure_creatable run
  let db = insert_logical run db0
  forbid (is_some (find_attempt run.run_id db.analysis_attempts)) run_already_exists
  inserted ← insert_attempt (attempt_row run 1) db
  ok (run.run_id, record_attempt run attempt_created (create_detail run) now inserted)

abbrev pub found : Option Attempt → Result Attempt
found none = err run_not_found
found (some a) = ok a

unfoldable pub load : String → Database → Result AnalysisRun
unfolding find_attempt
load run_id db = do row ← found (find_attempt run_id db.analysis_attempts); ok row.manifest

-- `expected_version is not None and expected_version != stored_version`
abbrev pub stale : Option ℕ → ℕ → Bool
stale none v = false
stale (some e) v = not (e == v)

-- The writes of `save`, once its checks have passed.
unfoldable pub write_attempt : AnalysisRun → (version now : ℕ) → Database → Database
unfolding update_attempt replace_projections append_audit
write_attempt run version now db =
    record_attempt run attempt_updated
      (field "status" (string (status_value run.status))
        (field "version" (count_value version) end))
      now
      (record db {
        analysis_attempts =
            update_attempt run.run_id (updated_row run version) db.analysis_attempts;
      })

unfoldable pub save :
    AnalysisRun → (expected_version : Option ℕ) (now : ℕ) → Database → Result Database
unfolding find_attempt
save run expected_version now db = do
  current ← found (find_attempt run.run_id db.analysis_attempts)
  forbid (stale expected_version current.version) concurrency_conflict
  ensure_transition_allowed current.manifest run
  ok (write_attempt run (current.version + 1) now db)

abbrev pub set_flag : Attempt → Attempt
set_flag a = record a { cancel_requested = true }

-- The write of `request_cancellation`: none on a terminal attempt
unfoldable pub write_flag : String → AnalysisRunStatus → Database → Database
unfolding update_attempt
write_flag run_id status db =
    if is_terminal status
    then db
    else record db { analysis_attempts = update_attempt run_id set_flag db.analysis_attempts }

unfoldable pub request_cancellation : String → Database → Result Database
unfolding find_attempt parse_status write_flag
request_cancellation run_id db = do
  row ← found (find_attempt run_id db.analysis_attempts)
  status ← parse_status row.status
  ok (write_flag run_id status db)

unfoldable pub cancellation_requested : String → Database → Bool
unfolding find_attempt
cancellation_requested run_id db = elim (find_attempt run_id db.analysis_attempts) [
  | none ↦ false
  | some row ↦ row.cancel_requested
]

unfoldable pub create_retry_attempt :
    String
    → RetryArguments
    → (fresh : String) (now : ℕ) → Database
    → Result (AnalysisRun × Database)
unfolding find_attempt retry_from insert_attempt replace_projections append_audit
create_retry_attempt previous_run_id a fresh now db = do
  previous ← found (find_attempt previous_run_id db.analysis_attempts)
  retry ← retry_from previous.manifest a fresh now
  inserted ← insert_attempt (attempt_row retry 1) db
  ok (retry, record_attempt retry attempt_retried (retry_detail retry) now inserted)

unfoldable pub version_of : String → Database → Result ℕ
unfolding find_attempt
version_of run_id db = do row ← found (find_attempt run_id db.analysis_attempts); ok row.version

-- WHERE logical_analysis_id = k ORDER BY id
unfoldable pub audit_trail_of : String → List AuditEvent → List AuditEvent
audit_trail_of k [] = []
audit_trail_of k (e ∷ events) =
    let rest = audit_trail_of k events in if e.logical_analysis_id == k then e ∷ rest else rest

unfoldable pub audit_trail : String → Database → List AuditEvent
unfolding audit_trail_of
audit_trail logical_analysis_id db = audit_trail_of logical_analysis_id db.audit_events
