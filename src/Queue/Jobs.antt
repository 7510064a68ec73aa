-- ===== src/Queue/Jobs.antt =====
-- v2/src/footballai_v2/execution/contracts.py: the record of an execution job.
use technical_test_mitus_ai.Prelude.{
  ℕ, String, Bool, false, ◌||◌, Option, none, some, List, [], ◌∷◌, ltb, string_eq, length, is_empty,
  codes, contains, Result, ok, ◌>>◌, require, forbid, value_error, ◌≡◌, >>-eq-ok, ok-injective,
}
use technical_test_mitus_ai.Contract.Text.{validate_uuid_v4, validate_run_id}

pub record ExecutionJob : Type 0 where
  pub job_id : String
  pub run_id : String
  pub logical_analysis_id : String
  pub attempt_number : ℕ
  pub pipeline_profile : String
  pub created_at : ℕ
  pub claimed_at : Option ℕ
  pub worker_id : Option String

abbrev pub profiles : List String
profiles = "demo_fast" ∷ "v1_compat" ∷ "test_fail" ∷ []

-- `not worker_id or len(worker_id) > 128`
unfoldable pub is_bad_worker : String → Bool
is_bad_worker worker_id = is_empty (codes worker_id) || ltb 128 (length (codes worker_id))

abbrev pub has_bad_worker : Option String → Bool
has_bad_worker none = false
has_bad_worker (some worker_id) = is_bad_worker worker_id

-- `ExecutionJob.__post_init__`
unfoldable pub execution_job : ExecutionJob → Result ExecutionJob
unfolding contains
execution_job job = do
  validate_uuid_v4 job.job_id
  validate_run_id job.run_id
  validate_uuid_v4 job.logical_analysis_id
  forbid (ltb job.attempt_number 1) value_error
  require (contains profiles job.pipeline_profile) value_error
  forbid (has_bad_worker job.worker_id) value_error
  ok job

-- `replace(job, claimed_at=now, worker_id=worker_id)`
abbrev pub stamp : String → ℕ → ExecutionJob → ExecutionJob
stamp worker_id now job = record job { claimed_at = some now; worker_id = some worker_id }

-- `replace(job, claimed_at=None, worker_id=None)`
abbrev pub unstamp : ExecutionJob → ExecutionJob
unstamp job = record job { claimed_at = none; worker_id = none }

-- The constructor hands its fields on.
pub execution_job-ok : (job made : ExecutionJob) → execution_job job ≡ ok made → job ≡ made
unfolding execution_job
execution_job-ok job made h =
    let h1 = (>>-eq-ok (validate_uuid_v4 job.job_id) _ h).1 in
    let h2 = (>>-eq-ok (validate_run_id job.run_id) _ h1).1 in
    let h3 = (>>-eq-ok (validate_uuid_v4 job.logical_analysis_id) _ h2).1 in
    let h4 = (>>-eq-ok (forbid (ltb job.attempt_number 1) value_error) _ h3).1 in
    let h5 = (>>-eq-ok (require (contains profiles job.pipeline_profile) value_error) _ h4).1 in
    ok-injective ((>>-eq-ok (forbid (has_bad_worker job.worker_id) value_error) _ h5).1)
