-- ===== src/Lifecycle.antt =====
-- v2/src/footballai_v2/storage/lifecycle.py: when a stored attempt may be replaced.
pub mod Rules
use technical_test_mitus_ai.Prelude.{
  ℕ, String, Bool, true, false, ◌&&◌, Option, some, none, List, [], ◌∷◌, Eq, ◌==◌, nat_eq,
  string_eq, option_eq, manifest_transition, Result, ok, err, ◌>>=◌, ◌>>◌, require, forbid, not,
  is_empty, map,
}
use technical_test_mitus_ai.Contract.Json.{mapping_eq}
use technical_test_mitus_ai.Contract.References.{ModelReference, input_eq, code_eq, model_eq}
use technical_test_mitus_ai.Contract.Run.{
  DataOrigin, real, synthetic, evaluation, legacy_v1, AnalysisRunStatus, queued, running, succeeded,
  partial, failed, cancelled, is_terminal, AnalysisRun,
}
use technical_test_mitus_ai.Contract.Transitions.{is_queued}

-- `ALLOWED_STATUS_TRANSITIONS`
unfoldable pub permitted : AnalysisRunStatus → AnalysisRunStatus → Bool
permitted queued queued = true
permitted queued running = true
permitted queued failed = true
permitted queued cancelled = true
permitted running running = true
permitted running succeeded = true
permitted running partial = true
permitted running failed = true
permitted running cancelled = true
permitted _ _ = false

abbrev origin_index : DataOrigin → ℕ
origin_index real = 0
origin_index synthetic = 1
origin_index evaluation = 2
origin_index legacy_v1 = 3

instance abbrev pub origin_eq : Eq DataOrigin
origin_eq = record { beq = λ a b. origin_index a == origin_index b }

unfoldable pub models_beq : List ModelReference → List ModelReference → Bool
models_beq [] [] = true
models_beq (a ∷ as') (b ∷ bs) = a == b && models_beq as' bs
models_beq _ _ = false

-- `IMMUTABLE_PROVENANCE_FIELDS`, compared one by one: no name is in `changed`
unfoldable pub same_provenance : AnalysisRun → AnalysisRun → Bool
unfolding models_beq
same_provenance a b =
    a.contract_version == b.contract_version
    && a.logical_analysis_id == b.logical_analysis_id
    && a.run_id == b.run_id
    && a.attempt_number == b.attempt_number
    && a.previous_attempt_run_id == b.previous_attempt_run_id
    && a.data_origin == b.data_origin
    && a.input == b.input
    && a.code == b.code
    && a.pipeline_version == b.pipeline_version
    && mapping_eq a.parameters b.parameters
    && models_beq a.models b.models
    && a.created_at == b.created_at

unfoldable pub ensure_creatable : AnalysisRun → Result (Unit {0})
ensure_creatable run =
    require (is_queued run.status)
      (manifest_transition "a run namespace must be created in queued state")

unfoldable pub ensure_transition_allowed : AnalysisRun → AnalysisRun → Result (Unit {0})
unfolding permitted
ensure_transition_allowed current updated = do
  forbid (is_terminal current.status) (manifest_transition "terminal attempts are immutable")
  require (permitted current.status updated.status) (manifest_transition "cannot replace attempt")
  require (same_provenance current updated)
      (manifest_transition "run provenance and identity cannot change after namespace creation")
