-- ===== src/Contract/Retry.antt =====
-- A retry of contracts/v1/analysis_run.py: `AnalysisRun.retry_from` without optional arguments.
use technical_test_mitus_ai.Prelude.{
  ℕ, ◌+◌, String, ◌≡◌, ◌≢◌, refl, true, none, some, [], arith, ok,
}
use technical_test_mitus_ai.Contract.Run.{AnalysisRun, queued, contract_version_v1, analysis_run}
use technical_test_mitus_ai.Contract.Run.Manifest.{IsUuid, IsManifest, validate_run_iff}
use technical_test_mitus_ai.Contract.Transitions.{is_retryable, no_arguments, retry_from}

-- The new attempt follows the old one, in the same logical analysis and with the same inputs.
abbrev pub Follows : AnalysisRun → (fresh : String) → AnalysisRun → Type 0
Follows previous fresh r =
    (r.run_id ≡ fresh)
    × (r.logical_analysis_id ≡ previous.logical_analysis_id)
    × (r.attempt_number ≡ previous.attempt_number + 1)
    × (r.previous_attempt_run_id ≡ some previous.run_id)
    × (r.status ≡ queued)
    × (r.data_origin ≡ previous.data_origin)
    × (r.input ≡ previous.input)
    × (r.parameters ≡ previous.parameters)
    × (r.stages ≡ [])

abbrev next_attempt : AnalysisRun → (fresh : String) → (now : ℕ) → AnalysisRun
next_attempt previous fresh now = record {
  logical_analysis_id = previous.logical_analysis_id;
  run_id = fresh;
  attempt_number = previous.attempt_number + 1;
  previous_attempt_run_id = some previous.run_id;
  status = queued;
  data_origin = previous.data_origin;
  input = previous.input;
  code = previous.code;
  pipeline_version = previous.pipeline_version;
  parameters = previous.parameters;
  models = previous.models;
  artifacts = [];
  stages = [];
  created_at = now;
  started_at = none;
  completed_at = none;
  failure = none;
  partial_reason = none;
  cancellation_reason = none;
  contract_version = contract_version_v1;
}

next_attempt-IsManifest :
    (previous : AnalysisRun) (fresh : String) (now : ℕ)
    → IsManifest previous
    → IsUuid fresh
    → previous.run_id ≢ fresh
    → IsManifest (next_attempt previous fresh now)
next_attempt-IsManifest previous fresh now m valid other = record {
  version = refl;
  logical = m.logical;
  run = valid;
  attempt = omega arith;
  chained = (λ e. let least = m.attempt in omega arith, m.run);
  not_own = λ e. other (cc e);
  pipeline = m.pipeline;
  parameters = m.parameters;
  started = tt;
  completed = tt;
  partial_reason = refl;
  cancellation_reason = refl;
  model_names = m.model_names;
  artifact_ids = tt;
  artifact_names = tt;
  artifact_paths = tt;
  stage_ids = tt;
  stage_names = tt;
  links = tt;
  shape = (refl, refl, refl, refl, refl, refl, tt);
}

-- A retry of a well-formed failed or partial attempt, under a fresh identifier that is a canonical UUID
-- and not the attempt's own, returns a well-formed queued attempt: the next number of the same logical
-- analysis, linked to the old attempt, with its input and parameters and without stages.
pub retry_from-Follows :
    (previous : AnalysisRun) (fresh : String) (now : ℕ)
    → IsManifest previous
    → is_retryable previous.status ≡ true
    → IsUuid fresh
    → previous.run_id ≢ fresh
    → (r : AnalysisRun) × (retry_from previous no_arguments fresh now ≡ ok r)
      × IsManifest r
      × Follows previous fresh r
unfolding retry_from analysis_run
retry_from-Follows previous fresh now m retryable valid other =
    let r = next_attempt previous fresh now in
    let good = next_attempt-IsManifest previous fresh now m valid other in
    (
      r,
      rw (retryable, (validate_run_iff r).1 good) refl,
      good,
      (refl, refl, refl, refl, refl, refl, refl, refl, refl),
    )
