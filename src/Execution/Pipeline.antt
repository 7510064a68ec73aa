-- ===== src/Execution/Pipeline.antt =====
-- What v2/src/footballai_v2/execution/executor.py asks of a pipeline (execution/adapters/base.py), and its
-- own settings.
use technical_test_mitus_ai.Prelude.{
  ℕ, zero, suc, ◌+◌, String, Bool, true, false, Option, none, some, List, [], ◌∷◌, ◌==◌, string_eq,
  if◌then◌else◌, overflow_error, type_error, Result, ok, err,
}
use technical_test_mitus_ai.Contract.Json.{
  JsonValue, bool, number, string, object, Number, int, pos, Fields, field, get_field,
  float_overflows,
}
use technical_test_mitus_ai.Contract.Run.{AnalysisRun}
use technical_test_mitus_ai.Repository as Repository
use technical_test_mitus_ai.Queue.Jobs.{ExecutionJob}
use technical_test_mitus_ai.Execution.Action.{
  Environment, World, Outcome, Action, ◌>>=◌, interleave, materialize_input,
}

-- An artifact's JSON object: its text under "schema", and the other entries
pub record Payload : Type 0 where
  pub schema : String
  pub entries : Fields

-- A dict of payloads, in its order
abbrev pub Payloads : Type 0
Payloads = List (String × Payload)

abbrev pub payload_value : Payload → JsonValue
payload_value p = object (field "schema" (string p.schema) p.entries)

abbrev pub find_payload : String → Payloads → Option Payload
find_payload k [] = none
find_payload k ((j, p) ∷ payloads) =
    let rest = find_payload k payloads in if j == k then some p else rest

-- `build_artifacts` of a pipeline: from the run, the duration, the input and the answers that the
-- cancellation callback will give, the payloads or an exception, and the number of questions asked.
pub record PipelineAdapter : Type 0 where
  pub build_artifacts :
      AnalysisRun
      → (duration_seconds : Number) (input : List ℕ) → (cancellation_requested : ℕ → Bool)
      → Outcome Payloads × ℕ

-- `json.dumps` with its two layouts, `float` of a text, `stage_delay_seconds` with what is rounded
-- from it, and the two pipelines
pub record AnalysisExecutor : Type 0 where
  pub dumps_indented : JsonValue → List ℕ
  pub dumps_compact : JsonValue → List ℕ
  pub float_of_text : String → Result Number
  pub has_delay : Bool
  pub rounded_delay : Number
  pub rounded_rate : Number
  pub v1_compat : PipelineAdapter
  pub demo : PipelineAdapter

-- `V1CompatPipeline() if job.pipeline_profile == "v1_compat" else DemoPipeline()`
abbrev pub adapter_for : AnalysisExecutor → ExecutionJob → PipelineAdapter
adapter_for executor job =
    if job.pipeline_profile == "v1_compat" then executor.v1_compat else executor.demo

abbrev checked_float : Number → Bool → Result Number
checked_float n true = err overflow_error
checked_float n false = ok n

-- `float(value)`
unfoldable pub float_of : AnalysisExecutor → JsonValue → Result Number
unfolding float_overflows
float_of executor (number n) = checked_float n (float_overflows n)
float_of executor (bool true) = ok (int (pos 1))
float_of executor (bool false) = ok (int (pos 0))
float_of executor (string s) = executor.float_of_text s
float_of executor _ = err type_error

abbrev probed_duration : AnalysisExecutor → Option JsonValue → Result Number
probed_duration executor none = float_of executor (number (int (pos 0)))
probed_duration executor (some v) = float_of executor v

unfoldable pub probe_duration : AnalysisExecutor → Option JsonValue → Result Number
unfolding float_of
probe_duration executor (some (object probe)) =
    probed_duration executor (get_field "duration_seconds" probe)
probe_duration executor _ = ok (int (pos 0))

-- `duration`
abbrev pub duration_of : AnalysisExecutor → AnalysisRun → Result Number
duration_of executor run = probe_duration executor (get_field "video_probe" run.parameters)

module _ (env : Environment) where
  -- The database after some more turns of the others, one for each question
  unfoldable pub later : ℕ → World → World
  unfolding interleave
  later zero w = w
  later (suc n) w = later n (interleave env w)

  abbrev pub asked : Outcome Payloads × ℕ → World → Outcome Payloads × World
  asked (payloads, questions) w = (payloads, later questions w)

  -- `_build_artifacts`
  unfoldable pub build_artifacts : PipelineAdapter → AnalysisRun → Number → Action Payloads
  unfolding materialize_input later ◌>>=◌ Repository.cancellation_requested
  build_artifacts adapter run duration = materialize_input env run.run_id >>= λ input w.
      asked
        (adapter.build_artifacts run duration input
          (λ i. Repository.cancellation_requested run.run_id (later (i + 1) w).db))
        w
