-- ===== src/Contract/Stage.antt =====
-- `StageExecution` of contracts/v1/analysis_run.py, with the checks of its `__post_init__`.
use technical_test_mitus_ai.Prelude.{
  ℕ, String, Bool, true, false, not, ◌&&◌, ◌||◌, Option, none, some, List, [], ◌∷◌, string_eq, leb,
  ltb, is_some, all_distinct, contract_validation, overflow_error, Result, ok, ◌>>◌, require,
  forbid,
}
use technical_test_mitus_ai.Contract.Text.{require_identifier, validate_safe_text}
use technical_test_mitus_ai.Contract.Json.{
  Number, Fields, is_finite, float_overflows, is_percent, is_hundred, validate_mapping,
}
use technical_test_mitus_ai.Contract.References.{StructuredError}

pub data StageName : Type 0 where
  ingestion video_validation detection tracking identity_resolution pitch_calibration metrics
        workload_advisory artifact_publication :
      StageName

pub data StageStatus : Type 0 where
  queued running succeeded partial failed cancelled skipped : StageStatus

abbrev pub is_queued : StageStatus → Bool
is_queued queued = true
is_queued _ = false

abbrev pub is_running : StageStatus → Bool
is_running running = true
is_running _ = false

abbrev pub is_succeeded : StageStatus → Bool
is_succeeded succeeded = true
is_succeeded _ = false

abbrev pub is_failed : StageStatus → Bool
is_failed failed = true
is_failed _ = false

-- `StageStatus.is_terminal`
abbrev pub is_terminal : StageStatus → Bool
is_terminal queued = false
is_terminal running = false
is_terminal _ = true

pub record StageExecution : Type 0 where
  pub stage_id : String
  pub stage_name : StageName
  pub required : Bool
  pub status : StageStatus
  pub progress_percent : Number
  pub attempt_number : ℕ
  pub started_at : Option ℕ
  pub finished_at : Option ℕ
  pub produced_artifact_ids : List String
  pub error : Option StructuredError
  pub performance_metrics : Fields
  pub message : Option String

-- `a is not None and b is not None and b < a`
abbrev precedes : Option ℕ → Option ℕ → Bool
precedes (some a) (some b) = ltb b a
precedes _ _ = false

-- `isfinite(float(x))` raises OverflowError on an integer beyond the floats.
abbrev check_progress : Number → Result (Unit {0})
check_progress p = do
  forbid (float_overflows p) overflow_error
  require (is_finite p && is_percent p)
      (contract_validation "stage.progress_percent must be finite and between 0 and 100")

-- The checks that link a status with the other fields, in the order of the code.
unfoldable pub check_status : StageExecution → Result (Unit {0})
check_status s = do
  forbid (is_queued s.status && (is_some s.started_at || is_some s.finished_at))
      (contract_validation "queued stage cannot have start or finish timestamps")
  forbid (is_running s.status && (not (is_some s.started_at) || is_some s.finished_at))
      (contract_validation "running stage requires started_at and no finished_at")
  forbid (is_terminal s.status && not (is_some s.finished_at))
      (contract_validation "terminal stage requires finished_at")
  forbid (is_succeeded s.status && not (is_hundred s.progress_percent))
      (contract_validation "succeeded stage requires 100 percent progress")
  forbid (is_failed s.status && not (is_some s.error))
      (contract_validation "failed stage requires structured error information")

unfoldable pub each_identifier : List String → Result (Unit {0})
each_identifier [] = ok tt
each_identifier (x ∷ xs) = do require_identifier x; each_identifier xs

abbrev pub optional_safe_text : Option String → Result (Unit {0})
optional_safe_text none = ok tt
optional_safe_text (some s) = validate_safe_text s

-- `__post_init__`
unfoldable pub validate_stage : StageExecution → Result (Unit {0})
validate_stage s = do
  require_identifier s.stage_id
  check_progress s.progress_percent
  require (leb 1 s.attempt_number)
      (contract_validation "stage.attempt_number must be an integer of at least 1")
  forbid (precedes s.started_at s.finished_at)
      (contract_validation "stage.finished_at cannot precede stage.started_at")
  check_status s
  require (all_distinct s.produced_artifact_ids)
      (contract_validation "stage produced artifact IDs must be unique")
  each_identifier s.produced_artifact_ids
  validate_mapping s.performance_metrics
  optional_safe_text s.message

-- The constructor, and `dataclasses.replace`: the new value is checked again.
unfoldable pub stage_execution : StageExecution → Result StageExecution
stage_execution s = do validate_stage s; ok s
