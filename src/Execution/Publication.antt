-- ===== src/Execution/Publication.antt =====
-- The artifacts of a run in v2/src/footballai_v2/execution/executor.py: written, verified and registered.
use Prim.Native.String as Native
use technical_test_mitus_ai.Prelude.{
  ℕ, String, Bool, true, false, Option, none, some, List, [], ◌∷◌, ◌++◌, ◌==◌, string_eq,
  if◌then◌else◌, Result, ok, err, key_error, index_error,
}
use technical_test_mitus_ai.Contract.Json.{JsonValue, bool, int, pos, get_field}
use technical_test_mitus_ai.Contract.References.{
  ArtifactCategory, tracks, summary, workload_advisory, other, ArtifactReference,
}
use technical_test_mitus_ai.Contract.Stage.{StageStatus, StageExecution, stage_execution}
use technical_test_mitus_ai.Contract.Run.{AnalysisRun, AnalysisRunStatus}
use technical_test_mitus_ai.Contract.Transitions.{succeed, complete_partial}
use technical_test_mitus_ai.Storage.Memory.{Artifact}
use technical_test_mitus_ai.Execution.Action.{
  Environment, Action, execution_failure, pure, raise, lift, ◌>>=◌, ◌>>◌, utc_now, load, save,
  write_artifact, artifact_reference_integrity,
}
use technical_test_mitus_ai.Execution.Pipeline.{
  Payload, Payloads, payload_value, find_payload, AnalysisExecutor,
}

-- `artifact_id.replace("-", " ").title()` and `category_by_id[artifact_id]`
unfoldable pub describe : String → Result (String × ArtifactCategory)
describe artifact_id =
    if artifact_id == "team-summary"
    then ok ("Team Summary", summary)
    else if artifact_id == "track-summary"
    then ok ("Track Summary", tracks)
    else if artifact_id == "track-detail"
    then ok ("Track Detail", tracks)
    else if artifact_id == "workload-advisory"
    then ok ("Workload Advisory", workload_advisory)
    else if artifact_id == "analysis-diagnostics"
    then ok ("Analysis Diagnostics", other)
    else err key_error

abbrev newline : List ℕ
newline = 10 ∷ []

abbrev json_artifact :
    (artifact_id name : String) → ArtifactCategory → (file : String) → List ℕ → String → Artifact
json_artifact artifact_id name category file content schema_version = record {
  artifact_id = artifact_id;
  name = name;
  category = category;
  relative_path = Native.◌++◌ "artifacts/" (Native.◌++◌ file ".json");
  content = content ++ newline;
  media_type = "application/json";
  schema_version = some schema_version;
}

-- `mapping[key]`
abbrev pub key_of {ℓ} : {A : Type ℓ} → Option A → Result A
key_of none = err key_error
key_of (some a) = ok a

-- `stages[-1] = replace(stages[-1], …)`
abbrev pub stop_last : List StageExecution → Result (List StageExecution)
stop_last [] = err index_error
stop_last (stage ∷ []) =
    elim (stage_execution (record stage {
      status = StageStatus.partial;
      progress_percent = int (pos 80);
      message = some "Useful artifacts published before a controlled partial stop";
    })) [ ok stopped ↦ ok (stopped ∷ []) | err e ↦ err e ]
stop_last (stage ∷ stages) = elim (stop_last stages) [
  | ok stopped ↦ ok (stage ∷ stopped)
  | err e ↦ err e
]

abbrev is_true : Option JsonValue → Bool
is_true (some (bool true)) = true
is_true _ = false

-- `parameters.get("force_partial") is True`
abbrev pub forces_partial : AnalysisRun → Bool
forces_partial run = is_true (get_field "force_partial" run.parameters)

abbrev pub accept : Bool → Action (Unit {0})
accept true = pure tt
accept false = raise (
    execution_failure "artifact_integrity_failed"
      "A generated artifact failed integrity verification.")

module _ (env : Environment) (run_id : String) where
  -- The integrity gate
  unfoldable pub verify_all : List ArtifactReference → Action (Unit {0})
  unfolding artifact_reference_integrity pure raise ◌>>=◌
  verify_all [] = pure tt
  verify_all (reference ∷ references) =
      artifact_reference_integrity env run_id reference >>= accept >> verify_all references

module _ (env : Environment) (executor : AnalysisExecutor) (run_id : String) where
  unfoldable pub write_payload : String → Payload → Action ArtifactReference
  unfolding describe lift write_artifact ◌>>=◌
  write_payload artifact_id p = do
    described ← lift (describe artifact_id)
    write_artifact env run_id (
        json_artifact artifact_id described.0 described.1 artifact_id
          (executor.dumps_indented (payload_value p)) p.schema)

  unfoldable pub write_payloads : Payloads → Action (List ArtifactReference)
  unfolding write_payload pure ◌>>=◌
  write_payloads [] = pure []
  write_payloads ((artifact_id, p) ∷ payloads) = do
    reference ← write_payload artifact_id p
    references ← write_payloads payloads
    pure (reference ∷ references)

  -- The two aliases for the dashboard
  unfoldable pub write_aliases : Payloads → Action (List ArtifactReference)
  unfolding pure lift write_artifact ◌>>=◌
  write_aliases payloads = do
    track_summary ← lift (key_of (find_payload "track-summary" payloads))
    summary_alias ← write_artifact env run_id (
        json_artifact "legacy-player-summary" "Dashboard track summary" summary
          "dashboard-track-summary" (executor.dumps_compact (payload_value track_summary))
          "footballai.track-summary/v1")
    advisory ← lift (key_of (find_payload "workload-advisory" payloads))
    advisory_tracks ← lift (key_of (get_field "tracks" advisory.entries))
    advisory_alias ← write_artifact env run_id (
        json_artifact "dashboard-workload-advisory" "Dashboard workload advisory" workload_advisory
          "dashboard-workload-advisory" (executor.dumps_compact advisory_tracks)
          "footballai.workload-advisory/v1")
    pure (summary_alias ∷ advisory_alias ∷ [])

abbrev pub partial_reason : String
partial_reason = "Controlled partial completion with useful artifacts."

unfoldable pub finish_run : AnalysisRun → List ArtifactReference → (now : ℕ) → Result AnalysisRun
unfolding stage_execution succeed complete_partial
finish_run current artifacts now =
    if forces_partial current
    then elim (stop_last current.stages) [
      | ok stages ↦ complete_partial current artifacts partial_reason none now stages
      | err e ↦ err e
    ]
    else succeed current artifacts none now current.stages

module _ (env : Environment) (executor : AnalysisExecutor) where
  -- From the payloads to the finished run
  unfoldable pub publish :
      (run_id : String) (job_run_id : String) → Payloads → Action AnalysisRunStatus
  unfolding write_payloads write_aliases verify_all load save utc_now finish_run pure lift ◌>>=◌
  publish run_id job_run_id payloads = do
    references ← write_payloads env executor run_id payloads
    aliases ← write_aliases env executor run_id payloads
    verify_all env run_id (references ++ aliases)
    current ← load env job_run_id
    now ← utc_now env
    finished ← lift (finish_run current (references ++ aliases) now)
    save env finished
    pure finished.status
