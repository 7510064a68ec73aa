-- ===== src/Coordinator/Planned.antt =====
-- The new attempts of v2/src/footballai_v2/execution/coordinator.py.
use technical_test_mitus_ai.Prelude.{
  ℕ, ◌+◌, some, String, ◌≡◌, refl, sym, ap, subst, ◌∙◌, true, none, List, string_eq, ok, >>-eq-ok,
  require, forbid, or_else,
}
use technical_test_mitus_ai.Contract.Json.{end}
use technical_test_mitus_ai.Contract.Json.Equality.{keyed_fields}
use technical_test_mitus_ai.Contract.Run.{AnalysisRun, queued, is_terminal}
use technical_test_mitus_ai.Contract.References.{CodeReference}
use technical_test_mitus_ai.Coordinator.{cloned_from}
use technical_test_mitus_ai.Contract.Run.Manifest.{IsManifest, validate_run_iff}
use technical_test_mitus_ai.Contract.Stage.{StageExecution}
use technical_test_mitus_ai.Contract.Transitions.{
  NewRun, new, is_retryable, no_arguments, retry_from, with_stages,
}
use technical_test_mitus_ai.Contract.Operations.{analysis_run-eq}
use technical_test_mitus_ai.Coordinator.Compensation.{Fresh}

-- The new attempt of a retry: the next one of the same analysis
pub record Retries (previous run : AnalysisRun) : Type 0 where
  pub well_formed : IsManifest run
  pub status : run.status ≡ queued
  pub logical_analysis_id : run.logical_analysis_id ≡ previous.logical_analysis_id
  pub attempt_number : run.attempt_number ≡ previous.attempt_number + 1
  pub previous_attempt_run_id : run.previous_attempt_run_id ≡ some previous.run_id
  pub data_origin : run.data_origin ≡ previous.data_origin
  pub input : run.input ≡ previous.input
  pub code : run.code ≡ previous.code
  pub pipeline_version : run.pipeline_version ≡ previous.pipeline_version
  pub parameters : run.parameters ≡ previous.parameters
  pub models : run.models ≡ previous.models

-- The new attempt of a clone: the first one of another analysis, with the same input and configuration
pub record Clones (previous : AnalysisRun) (code : CodeReference) (logical : String)
    (run : AnalysisRun) : Type 0 where
  pub well_formed : IsManifest run
  pub status : run.status ≡ queued
  pub logical_analysis_id : run.logical_analysis_id ≡ logical
  pub attempt_number : run.attempt_number ≡ 1
  pub previous_attempt_run_id : run.previous_attempt_run_id ≡ none
  pub data_origin : run.data_origin ≡ previous.data_origin
  pub input : run.input ≡ previous.input
  pub code_reference : run.code ≡ code
  pub pipeline_version : run.pipeline_version ≡ previous.pipeline_version
  pub parameters : run.parameters ≡ previous.parameters
  pub models : run.models ≡ previous.models

pub staged-Retries :
    (old retried staged : AnalysisRun) (stages : List StageExecution) (fresh : String) (now : ℕ)
    → retry_from old no_arguments fresh now ≡ ok retried
    → with_stages retried stages ≡ ok staged
    → Retries old staged
unfolding retry_from with_stages
staged-Retries old retried staged stages fresh now made updated =
    let (_, built) = >>-eq-ok (require (is_retryable old.status) _) _ made in
    let (_, first) = analysis_run-eq _ built in
    let (_, staging) = >>-eq-ok (forbid (is_terminal retried.status) _) _ updated in
    let (valid, second) = analysis_run-eq _ staging in
    record {
      well_formed = subst IsManifest (sym second) ((validate_run_iff _).0 valid);
      status = ap (λ r. r.status) second ∙ ap (λ r. r.status) first;
      logical_analysis_id =
          ap (λ r. r.logical_analysis_id) second ∙ ap (λ r. r.logical_analysis_id) first;
      attempt_number = ap (λ r. r.attempt_number) second ∙ ap (λ r. r.attempt_number) first;
      previous_attempt_run_id =
          ap (λ r. r.previous_attempt_run_id) second ∙ ap (λ r. r.previous_attempt_run_id) first;
      data_origin = ap (λ r. r.data_origin) second ∙ ap (λ r. r.data_origin) first;
      input = ap (λ r. r.input) second ∙ ap (λ r. r.input) first;
      code = ap (λ r. r.code) second ∙ ap (λ r. r.code) first;
      pipeline_version = ap (λ r. r.pipeline_version) second ∙ ap (λ r. r.pipeline_version) first;
      parameters = ap (λ r. r.parameters) second ∙ ap (λ r. r.parameters) first;
      models = ap (λ r. r.models) second ∙ ap (λ r. r.models) first;
    }

pub made-Clones :
    (old run : AnalysisRun) (code : CodeReference) (profile logical fresh : String) (now : ℕ)
    → new (cloned_from old code profile) logical fresh now ≡ ok run
    → Clones old code logical run
unfolding new
made-Clones old run code profile logical fresh now h =
    let (valid, made) = analysis_run-eq _ h in
    record {
      well_formed = subst IsManifest (sym made) ((validate_run_iff _).0 valid);
      status = ap (λ r. r.status) made;
      logical_analysis_id = ap (λ r. r.logical_analysis_id) made;
      attempt_number = ap (λ r. r.attempt_number) made;
      previous_attempt_run_id = ap (λ r. r.previous_attempt_run_id) made;
      data_origin = ap (λ r. r.data_origin) made;
      input = ap (λ r. r.input) made;
      code_reference = ap (λ r. r.code) made;
      pipeline_version = ap (λ r. r.pipeline_version) made;
      parameters = ap (λ r. r.parameters) made;
      models = ap (λ r. r.models) made;
    }

pub staged-Fresh :
    (old retried staged : AnalysisRun) (stages : List StageExecution) (fresh : String) (now : ℕ)
    → retry_from old no_arguments fresh now ≡ ok retried
    → with_stages retried stages ≡ ok staged
    → keyed_fields old.parameters ≡ true
    → Fresh staged × (staged.run_id ≡ fresh) × (staged.created_at ≡ now)
unfolding retry_from with_stages
staged-Fresh old retried staged stages fresh now made updated keys =
    let (_, built) = >>-eq-ok (require (is_retryable old.status) _) _ made in
    let (_, first) = analysis_run-eq _ built in
    let (_, staging) = >>-eq-ok (forbid (is_terminal retried.status) _) _ updated in
    let (valid, second) = analysis_run-eq _ staging in
    let parameters : staged.parameters ≡ old.parameters =
      ap (λ r. r.parameters) second ∙ ap (λ r. r.parameters) first in
    (
      record {
        well_formed = subst IsManifest (sym second) ((validate_run_iff _).0 valid);
        waits = ap (λ r. r.status) second ∙ ap (λ r. r.status) first;
        keyed = rw parameters keys;
      },
      ap (λ r. r.run_id) second ∙ ap (λ r. r.run_id) first,
      ap (λ r. r.created_at) second ∙ ap (λ r. r.created_at) first,
    )

pub new-Fresh :
    (a : NewRun) (fresh_logical fresh : String) (now : ℕ) (run : AnalysisRun)
    → new a fresh_logical fresh now ≡ ok run
    → a.run_id ≡ none
    → a.created_at ≡ none
    → keyed_fields (or_else a.parameters end) ≡ true
    → Fresh run × (run.run_id ≡ fresh) × (run.created_at ≡ now)
unfolding new
new-Fresh a fresh_logical fresh now run h unnamed undated keys =
    let (valid, made) = analysis_run-eq _ h in
    let parameters : run.parameters ≡ or_else a.parameters end = ap (λ r. r.parameters) made in
    (
      record {
        well_formed = subst IsManifest (sym made) ((validate_run_iff _).0 valid);
        waits = ap (λ r. r.status) made;
        keyed = rw parameters keys;
      },
      ap (λ r. r.run_id) made ∙ rw unnamed refl,
      ap (λ r. r.created_at) made ∙ rw undated refl,
    )
