-- ===== src/LocalStore/Runs.antt =====
-- The control plane of v2/src/footballai_v2/storage/local_analysis_runs.py. The file system itself does
-- not fail. `is_inside` says whether a path of a run resolves to one in the directory of the run.
use technical_test_mitus_ai.Prelude.{
  ℕ, String, Bool, true, false, ◌&&◌, Option, none, some, List, [], ◌∷◌, ◌++◌, ◌==◌, nat_eq,
  string_eq, list_eq, option_eq, if◌then◌else◌, is_some, length, Result, ok, err, ◌>>=◌, ◌>>◌,
  require, forbid, contract_validation, manifest_conflict, run_already_exists, run_not_found,
  os_error,
}
use technical_test_mitus_ai.Contract.Text.{validate_run_id}
use technical_test_mitus_ai.Contract.References.{ArtifactReference, input_eq, code_eq}
use technical_test_mitus_ai.Contract.Json.{mapping_eq}
use technical_test_mitus_ai.Contract.Run.{
  AnalysisRunStatus, queued, running, succeeded, partial, failed, cancelled, is_terminal,
  AnalysisRun,
}
use technical_test_mitus_ai.Contract.Transitions.{RetryArguments, retry_from, is_queued}
use technical_test_mitus_ai.Lifecycle.{origin_eq, models_beq}
use technical_test_mitus_ai.Storage.Paths.{validate_relative_artifact_path}
use technical_test_mitus_ai.LocalStore.Tree.{
  Node, file, directory, Manifest, absent, linked, raising, manifest, Folder, Top, foreign_file,
  linked_folder, folder, Tree, at_name, replace,
}

-- `_validate_run_directory`, with what it then finds there. The resolved directory of a run that is
-- no link is in the resolved root.
abbrev pub validate_run_directory : Option Top → Result Folder
validate_run_directory none = err run_not_found
validate_run_directory (some foreign_file) = err run_not_found
validate_run_directory (some (linked_folder f)) =
    err (contract_validation "analysis-run directory cannot be a symlink")
validate_run_directory (some (folder f)) = ok f

-- `manifest_path.is_file() and not manifest_path.is_symlink()`
abbrev pub is_manifest_file : Manifest → Bool
is_manifest_file absent = false
is_manifest_file linked = false
is_manifest_file _ = true

unfoldable pub require_run_directory : String → Tree → Result Folder
unfolding validate_run_id
require_run_directory run_id tree = do
  validate_run_id run_id
  f ← validate_run_directory (at_name run_id tree)
  require (is_manifest_file f.manifest_file) run_not_found
  ok f

-- `json.loads` and `from_dict` of the text of the manifest
abbrev pub read_manifest : Manifest → Result AnalysisRun
read_manifest absent = err run_not_found
read_manifest linked = err run_not_found
read_manifest (raising raised) = err raised
read_manifest (manifest run) = ok run

unfoldable pub load : String → Tree → Result AnalysisRun
unfolding validate_run_id
load run_id tree = do
  validate_run_id run_id
  f ← validate_run_directory (at_name run_id tree)
  run ← read_manifest f.manifest_file
  require (run.run_id == run_id) (manifest_conflict "manifest run ID does not match its directory")
  ok run

abbrev pub new_folder : AnalysisRun → Folder
new_folder run = record {
  manifest_file = manifest run;
  cancel_marker = none;
  input = [];
  entries = [];
}

unfoldable pub create : AnalysisRun → Tree → Result (String × Tree)
unfolding validate_run_id
create run tree = do
  require (is_queued run.status)
      (manifest_conflict "a run namespace must be created in queued state")
  validate_run_id run.run_id
  forbid (is_some (at_name run.run_id tree)) run_already_exists
  ok (run.run_id, tree ++ (run.run_id, folder (new_folder run)) ∷ [])

-- The table `allowed` of `save`
unfoldable pub allowed : AnalysisRunStatus → AnalysisRunStatus → Bool
allowed queued queued = true
allowed queued running = true
allowed queued failed = true
allowed queued cancelled = true
allowed running running = true
allowed running succeeded = true
allowed running partial = true
allowed running failed = true
allowed running cancelled = true
allowed _ _ = false

-- `immutable_fields`, compared one by one
unfoldable pub same_fields : AnalysisRun → AnalysisRun → Bool
unfolding models_beq
same_fields current run =
    current.contract_version == run.contract_version
    && current.logical_analysis_id == run.logical_analysis_id
    && current.run_id == run.run_id
    && current.attempt_number == run.attempt_number
    && current.previous_attempt_run_id == run.previous_attempt_run_id
    && current.data_origin == run.data_origin
    && current.input == run.input
    && current.code == run.code
    && current.pipeline_version == run.pipeline_version
    && mapping_eq current.parameters run.parameters
    && models_beq current.models run.models
    && current.created_at == run.created_at

unfoldable pub check_update : AnalysisRun → AnalysisRun → Result (Unit {0})
unfolding allowed same_fields
check_update current run = do
  forbid (is_terminal current.status) (manifest_conflict "terminal manifests are immutable")
  require (allowed current.status run.status) (manifest_conflict "cannot replace manifest")
  require (same_fields current run)
      (manifest_conflict "run provenance cannot change after namespace creation")

-- `path.is_file() and not path.is_symlink()`, with the bytes
abbrev pub entry_at : List ℕ → List (List ℕ × Node) → Option Node
entry_at path [] = none
entry_at path ((p, node) ∷ entries) =
    let rest = entry_at path entries in if p == path then some node else rest

abbrev pub file_bytes : (reason : String) → Option Node → Result (List ℕ)
file_bytes reason (some (file content)) = ok content
file_bytes reason _ = err (manifest_conflict reason)

abbrev pub concludes : AnalysisRunStatus → Bool
concludes succeeded = true
concludes partial = true
concludes _ = false

-- `_write_manifest` over an existing one
abbrev pub write_manifest : AnalysisRun → Folder → Tree → Tree
write_manifest run f tree = replace run.run_id (record f { manifest_file = manifest run }) tree

module _ (sha256_of : List ℕ → String) (is_inside : String → List ℕ → Bool) where
  abbrev pub require_within_run : String → List ℕ → Result (Unit {0})
  require_within_run run_id path =
      require (is_inside run_id path)
        (contract_validation "path escapes its analysis-run namespace")

  unfoldable pub artifact_path : String → String → Tree → Result (List ℕ × Folder)
  unfolding require_run_directory validate_relative_artifact_path
  artifact_path run_id relative_path tree = do
    f ← require_run_directory run_id tree
    normalized ← validate_relative_artifact_path relative_path
    require_within_run run_id normalized
    ok (normalized, f)

  -- The loop body of `_verify_artifacts`
  unfoldable pub verify_artifact : String → ArtifactReference → Tree → Result (Unit {0})
  unfolding artifact_path
  verify_artifact run_id artifact tree = do
    found ← artifact_path run_id artifact.relative_path tree
    content ←
        file_bytes "artifact is missing or is not a regular run artifact"
          (entry_at found.0 found.1.entries)
    require (length content == artifact.size_bytes)
        (manifest_conflict "artifact size does not match its manifest")
    require (sha256_of content == artifact.sha256)
        (manifest_conflict "artifact hash does not match its manifest")

  abbrev pub verify_artifacts : String → List ArtifactReference → Tree → Result (Unit {0})
  verify_artifacts run_id [] tree = ok tt
  verify_artifacts run_id (artifact ∷ artifacts) tree =
      verify_artifact run_id artifact tree >> verify_artifacts run_id artifacts tree

  abbrev pub verify_concluded : AnalysisRun → Tree → Result (Unit {0})
  verify_concluded run tree =
      if concludes run.status then verify_artifacts run.run_id run.artifacts tree else ok tt

  unfoldable pub save : AnalysisRun → Tree → Result Tree
  unfolding load check_update verify_artifact
  save run tree = do
    current ← load run.run_id tree
    check_update current run
    verify_concluded run tree
    f ← validate_run_directory (at_name run.run_id tree)
    ok (write_manifest run f tree)

abbrev pub is_directory : Option Node → Bool
is_directory (some directory) = true
is_directory _ = false

-- The write of the marker: `os.replace` refuses a directory only
abbrev pub write_marker : String → (payload : List ℕ) → Folder → Tree → Result Tree
write_marker run_id payload f tree =
    if is_directory f.cancel_marker
    then err os_error
    else ok (replace run_id (record f { cancel_marker = some (file payload) }) tree)

unfoldable pub request_cancellation : String → (payload : List ℕ) → Tree → Result Tree
unfolding require_run_directory load
request_cancellation run_id payload tree = do
  f ← require_run_directory run_id tree
  run ← load run_id tree
  if is_terminal run.status then ok tree else write_marker run_id payload f tree

abbrev is_file : Option Node → Bool
is_file (some (file content)) = true
is_file _ = false

abbrev has_marker : Option Top → Bool
has_marker (some (folder f)) = is_file f.cancel_marker
has_marker (some (linked_folder f)) = is_file f.cancel_marker
has_marker _ = false

unfoldable pub cancellation_requested : String → Tree → Result Bool
unfolding validate_run_id
cancellation_requested run_id tree = do
  validate_run_id run_id
  ok (has_marker (at_name run_id tree))

unfoldable pub create_retry_attempt :
    String → RetryArguments → (fresh : String) (now : ℕ) → Tree → Result (AnalysisRun × Tree)
unfolding load retry_from create
create_retry_attempt previous_run_id arguments fresh now tree = do
  previous ← load previous_run_id tree
  retry ← retry_from previous arguments fresh now
  created ← create retry tree
  ok (retry, created.1)
