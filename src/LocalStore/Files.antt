-- ===== src/LocalStore/Files.antt =====
-- The inputs and artifacts of v2/src/footballai_v2/storage/local_analysis_runs.py.
use technical_test_mitus_ai.Prelude.{
  ℕ, String, Bool, true, false, not, ◌&&◌, ◌||◌, Option, none, some, List, [], ◌∷◌, ◌++◌, ◌==◌,
  nat_eq, string_eq, list_eq, if◌then◌else◌, is_some, ltb, length, codes, starts_with, contains,
  map, Result, ok, err, ◌>>=◌, ◌>>◌, require, forbid, contract_validation, manifest_conflict,
  run_not_found, os_error, value_error,
}
use technical_test_mitus_ai.Contract.References.{ArtifactReference}
use technical_test_mitus_ai.Contract.Run.{AnalysisRunStatus, running, AnalysisRun}
use technical_test_mitus_ai.Storage.Paths.{
  slash, backslash, path_parts, join_parts, validate_relative_artifact_path, artifact_reference,
}
use technical_test_mitus_ai.Storage.Memory.{Artifact, reference_to}
use technical_test_mitus_ai.LocalStore.Tree.{Node, file, link, directory, Folder, Tree, replace}
use technical_test_mitus_ai.LocalStore.Runs.{
  require_run_directory, load, entry_at, file_bytes, artifact_path, require_within_run,
}

-- The regular files of input/
abbrev pub candidates : List (List ℕ × Node) → List (List ℕ × List ℕ)
candidates [] = []
candidates ((name, file content) ∷ entries) = (name, content) ∷ candidates entries
candidates ((name, node) ∷ entries) = candidates entries

abbrev pub only_one : List (List ℕ × List ℕ) → Result (List ℕ × List ℕ)
only_one (entry ∷ []) = ok entry
only_one _ = err (manifest_conflict "run must contain exactly one safe input file")

-- `destination.open("xb")` and the writes
abbrev pub write_input : String → List ℕ → List ℕ → Folder → Tree → Result Tree
write_input run_id name content f tree =
    if is_some (entry_at name f.input)
    then err os_error
    else ok (replace run_id (record f { input = f.input ++ (name, file content) ∷ [] }) tree)

abbrev pub found_input : Result (List ℕ × List ℕ) → Result Bool
found_input (ok entry) = ok true
found_input (err (manifest_conflict reason)) = ok false
found_input (err run_not_found) = ok false
found_input (err (contract_validation reason)) = ok false
found_input (err raised) = err raised

unfoldable pub put_input_file :
    String → (content extension : List ℕ) → Tree → Result (List ℕ × Tree)
unfolding require_run_directory starts_with contains
put_input_file run_id content extension tree = do
  forbid
      (not (starts_with extension (codes "."))
        || contains extension slash
        || contains extension backslash)
      value_error
  f ← require_run_directory run_id tree
  written ← write_input run_id (codes "source" ++ extension) content f tree
  ok (codes "runs/" ++ codes run_id ++ codes "/input/source" ++ extension, written)

-- The directories above a path, from the top, and none of the path itself
abbrev pub parents_of : List (List ℕ) → List (List (List ℕ))
parents_of [] = []
parents_of (part ∷ []) = []
parents_of (part ∷ next ∷ parts) =
    let rest = parents_of (next ∷ parts) in (part ∷ []) ∷ map (λ parent. part ∷ parent) rest

-- `mkdir(exist_ok=True)` of one of them
abbrev pub make_directory :
    List ℕ → Option Node → List (List ℕ × Node) → Result (List (List ℕ × Node))
make_directory path none entries = ok (entries ++ (path, directory) ∷ [])
make_directory path (some directory) entries = ok entries
make_directory path (some (link true)) entries = ok entries
make_directory path (some _) entries = err os_error

abbrev pub make_directories :
    List (List (List ℕ)) → List (List ℕ × Node) → Result (List (List ℕ × Node))
make_directories [] entries = ok entries
make_directories (parent ∷ parents) entries = do
  made ← make_directory (join_parts parent) (entry_at (join_parts parent) entries) entries
  make_directories parents made

-- `os.link`, which does not replace
abbrev pub link_file : List ℕ → List ℕ → List (List ℕ × Node) → Result (List (List ℕ × Node))
link_file path content entries =
    if is_some (entry_at path entries)
    then err os_error
    else ok (entries ++ (path, file content) ∷ [])

abbrev pub find_artifact : String → List ArtifactReference → Option ArtifactReference
find_artifact artifact_id [] = none
find_artifact artifact_id (a ∷ artifacts) =
    let rest = find_artifact artifact_id artifacts in
    if a.artifact_id == artifact_id then some a else rest

abbrev pub registered : Option ArtifactReference → Result ArtifactReference
registered none = err run_not_found
registered (some a) = ok a

-- Where the file system itself does not fail, OSError is not raised by a read
abbrev pub answer : {A : Type 0} → Result A → Result Bool
answer (ok content) = ok true
answer (err (manifest_conflict reason)) = ok false
answer (err run_not_found) = ok false
answer (err os_error) = ok false
answer (err raised) = err raised

abbrev pub is_running : AnalysisRunStatus → Bool
is_running running = true
is_running _ = false

-- The parents that `mkdir` makes stay when a later step raises.
abbrev pub with_entries : String → Folder → List (List ℕ × Node) → Tree → Tree
with_entries run_id f entries tree = replace run_id (record f { entries = entries }) tree

abbrev pub drop_last : List (List ℕ) → List (List ℕ)
drop_last [] = []
drop_last (part ∷ []) = []
drop_last (part ∷ next ∷ parts) = part ∷ drop_last (next ∷ parts)

module _ (sha256_of : List ℕ → String) (is_inside : String → List ℕ → Bool) where
  unfoldable pub input_path : String → Tree → Result (List ℕ × List ℕ)
  unfolding require_run_directory
  input_path run_id tree = do
    f ← require_run_directory run_id tree
    found ← only_one (candidates f.input)
    require_within_run sha256_of is_inside run_id (codes "input/" ++ found.0)
    ok found

  -- `has_input`
  unfoldable pub has_input : String → Tree → Result Bool
  unfolding input_path
  has_input run_id tree = found_input (input_path run_id tree)

  -- The copy is made and, where its digest is wrong, unlinked again.
  abbrev pub copy_to : AnalysisRun → String → List ℕ × List ℕ → Folder → Tree → Result Tree
  copy_to source destination_run_id found f tree = do
    written ← write_input destination_run_id found.0 found.1 f tree
    require (sha256_of found.1 == source.input.sha256)
        (manifest_conflict "source input integrity check failed")
    ok written

  unfoldable pub copy_input : String → String → Tree → Result Tree
  unfolding load input_path require_run_directory
  copy_input source_run_id destination_run_id tree = do
    source ← load source_run_id tree
    found ← input_path source_run_id tree
    f ← require_run_directory destination_run_id tree
    copy_to source destination_run_id found f tree

  unfoldable pub read_artifact_bytes : String → String → (max_bytes : ℕ) → Tree → Result (List ℕ)
  unfolding load artifact_path
  read_artifact_bytes run_id artifact_id max_bytes tree = do
    forbid (ltb max_bytes 1) value_error
    run ← load run_id tree
    artifact ← registered (find_artifact artifact_id run.artifacts)
    forbid (ltb max_bytes artifact.size_bytes)
        (manifest_conflict "registered artifact exceeds the configured read limit")
    found ← artifact_path sha256_of is_inside run_id artifact.relative_path tree
    content ←
        file_bytes "registered artifact is missing or unsafe" (entry_at found.0 found.1.entries)
    require (length content == artifact.size_bytes)
        (manifest_conflict "registered artifact size does not match")
    require (sha256_of content == artifact.sha256)
        (manifest_conflict "registered artifact hash does not match")
    ok content

  unfoldable pub artifact_integrity : String → String → Tree → Result Bool
  unfolding read_artifact_bytes
  artifact_integrity run_id artifact_id tree =
      answer (read_artifact_bytes run_id artifact_id 26214400 tree)

  abbrev pub reference_bytes : String → ArtifactReference → Tree → Result (List ℕ)
  reference_bytes run_id reference tree = do
    found ← artifact_path sha256_of is_inside run_id reference.relative_path tree
    file_bytes "registered artifact is missing or unsafe" (entry_at found.0 found.1.entries)

  abbrev pub agrees : ArtifactReference → Result (List ℕ) → Result Bool
  agrees reference (ok content) =
      ok (length content == reference.size_bytes && sha256_of content == reference.sha256)
  agrees reference (err (contract_validation reason)) = ok false
  agrees reference (err (manifest_conflict reason)) = ok false
  agrees reference (err run_not_found) = ok false
  agrees reference (err os_error) = ok false
  agrees reference (err raised) = err raised

  unfoldable pub artifact_reference_integrity : String → ArtifactReference → Tree → Result Bool
  unfolding artifact_path
  artifact_reference_integrity run_id reference tree =
      agrees reference (reference_bytes run_id reference tree)

  -- `write_artifact` up to the directories that it makes
  abbrev pub prepare_artifact :
      String → Artifact → Tree → Result (List ℕ × Folder × List (List ℕ × Node))
  prepare_artifact run_id a tree = do
    f ← require_run_directory run_id tree
    run ← load run_id tree
    require (is_running run.status)
        (manifest_conflict "artifacts can only be written while a run is running")
    normalized ← validate_relative_artifact_path a.relative_path
    made ← make_directories (parents_of (path_parts normalized)) f.entries
    ok (normalized, f, made)

  abbrev pub link_artifact :
      String
      → Artifact
      → Folder
      → (made : List (List ℕ × Node)) → Tree
      → Result (List (List ℕ × Node))
      → Result ArtifactReference × Tree
  link_artifact run_id a f made tree (err raised) = (err raised, with_entries run_id f made tree)
  link_artifact run_id a f made tree (ok linked) =
      (artifact_reference (reference_to sha256_of a), with_entries run_id f linked tree)

  abbrev pub place_artifact :
      String
      → Artifact
      → Tree
      → Result (List ℕ × Folder × List (List ℕ × Node))
      → Result ArtifactReference × Tree
  place_artifact run_id a tree (err raised) = (err raised, tree)
  place_artifact run_id a tree (ok (normalized, f, made)) =
      if is_inside run_id (join_parts (drop_last (path_parts normalized)))
      then link_artifact run_id a f made tree (link_file normalized a.content made)
      else (
        err (contract_validation "path escapes its analysis-run namespace"),
        with_entries run_id f made tree,
      )

  unfoldable pub write_artifact : String → Artifact → Tree → Result ArtifactReference × Tree
  unfolding require_run_directory load validate_relative_artifact_path artifact_reference
  write_artifact run_id a tree = place_artifact run_id a tree (prepare_artifact run_id a tree)
