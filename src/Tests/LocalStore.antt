-- ===== src/Tests/LocalStore.antt =====
-- The runs in directories at sample calls. Every path resolves to one in the directory of its run, and the
-- digest of the tests is one constant.
use technical_test_mitus_ai.Prelude.{
  ℕ, String, Bool, ◌≡◌, refl, true, none, some, List, [], ◌∷◌, codes, contains, list_beq, split_on,
  starts_with, ok, err, manifest_conflict, os_error, unicode_error, Error, contract_validation,
  index_error, ◌↔◌,
}
use technical_test_mitus_ai.Contract.References.{summary}
use technical_test_mitus_ai.Contract.Run.{AnalysisRun}
use technical_test_mitus_ai.Contract.Text.{require_identifier, is_sha256}
use technical_test_mitus_ai.Lifecycle.{models_beq, permitted, ensure_transition_allowed}
use technical_test_mitus_ai.Storage.Paths.{
  posix_path, validate_relative_artifact_path, artifact_reference,
}
use technical_test_mitus_ai.Storage.Memory.{Artifact, reference_to}
use technical_test_mitus_ai.LocalStore.Tree.{Tree, Folder, folder, at_name, raising}
use technical_test_mitus_ai.LocalStore.Runs.{
  require_run_directory, load, create, allowed, same_fields, check_update, artifact_path,
  verify_artifact, verify_concluded, save, request_cancellation, cancellation_requested,
  create_retry_attempt, new_folder,
}
use technical_test_mitus_ai.LocalStore.Files.{
  put_input_file, input_path, has_input, copy_input, read_artifact_bytes,
  artifact_reference_integrity, write_artifact,
}
use technical_test_mitus_ai.LocalStore.Lists.{list_entries, insert_run, newest_first, list_runs}
use technical_test_mitus_ai.LocalStore.Rules.{save_iff, load_iff}
use technical_test_mitus_ai.LocalStore.Growth.{Descends, Extends}
use technical_test_mitus_ai.LocalStore.History.{
  call_create, call_save, call_put_input_file, call_request_cancellation, call_write_artifact,
  perform, perform_all, perform_all-Extends,
}
use technical_test_mitus_ai.LocalStore.RoundTrip.{write_artifact-integrity}
use technical_test_mitus_ai.Tests.Contract.{program}
use technical_test_mitus_ai.Tests.Samples.{
  queued_run, running_run, succeeded_run, first_id, second_id, digest,
}

unfoldable pub local_program : Unit {0}
unfolding program require_identifier is_sha256 contains list_beq split_on starts_with posix_path
    validate_relative_artifact_path artifact_reference require_run_directory load create allowed
    same_fields check_update artifact_path verify_artifact save request_cancellation
    cancellation_requested create_retry_attempt put_input_file input_path has_input copy_input
    read_artifact_bytes artifact_reference_integrity write_artifact list_entries insert_run
    newest_first list_runs perform perform_all models_beq permitted
local_program = tt

abbrev constant_digest : List ℕ → String
constant_digest content = digest

abbrev always_inside : String → List ℕ → Bool
always_inside run_id path = true

abbrev team_summary : Artifact
team_summary = record {
  artifact_id = "team-summary";
  name = "Team Summary";
  category = summary;
  relative_path = "artifacts/team-summary.json";
  content = codes "{\"a\": \"bcd\"}";
  media_type = "application/json";
  schema_version = none;
}

abbrev started_tree : Tree
started_tree =
    perform_all constant_digest always_inside
      (call_create queued_run
        ∷ call_put_input_file first_id (codes "film") (codes ".mp4")
        ∷ call_save running_run
        ∷ [])
      []

abbrev written_tree : Tree
written_tree =
    perform_all constant_digest always_inside (call_write_artifact first_id team_summary ∷ [])
      started_tree

-- The attempt is finished once its artifact is there, and not before.
finishes :
    (load first_id
        (perform_all constant_digest always_inside (call_save succeeded_run ∷ []) written_tree)
      ≡ ok succeeded_run)
    × (save constant_digest always_inside succeeded_run started_tree
        ≡ err (manifest_conflict "artifact is missing or is not a regular run artifact"))
    × ((write_artifact constant_digest always_inside first_id team_summary written_tree).0
        ≡ err os_error)
    × (has_input constant_digest always_inside first_id started_tree ≡ ok true)
unfolding local_program
finishes = (refl, refl, refl, refl)

started-loads : load first_id started_tree ≡ ok running_run
unfolding local_program
started-loads = refl

wrote :
    write_artifact constant_digest always_inside first_id team_summary started_tree
    ≡ (ok (reference_to constant_digest team_summary), written_tree)
unfolding local_program
wrote = refl

save_iff_example :
    ((after : Tree) × (save constant_digest always_inside succeeded_run written_tree ≡ ok after))
    ↔ ((ensure_transition_allowed running_run succeeded_run ≡ ok tt)
        × (verify_concluded constant_digest always_inside succeeded_run written_tree ≡ ok tt))
unfolding local_program
save_iff_example =
    save_iff constant_digest always_inside succeeded_run running_run written_tree refl

perform_all-Extends_example :
    (later : AnalysisRun) × (g : Folder) × (load first_id (
        perform_all constant_digest always_inside
          (call_write_artifact first_id team_summary
            ∷ call_request_cancellation first_id (codes "{}")
            ∷ call_save succeeded_run
            ∷ [])
          started_tree)
      ≡ ok later)
    × Descends running_run later
    × (at_name first_id (
          perform_all constant_digest always_inside
            (call_write_artifact first_id team_summary
              ∷ call_request_cancellation first_id (codes "{}")
              ∷ call_save succeeded_run
              ∷ [])
            started_tree)
        ≡ some (folder g))
    × Extends ((load_iff first_id started_tree running_run).0 started-loads).place g
perform_all-Extends_example =
    perform_all-Extends constant_digest always_inside
      (call_write_artifact first_id team_summary
        ∷ call_request_cancellation first_id (codes "{}")
        ∷ call_save succeeded_run
        ∷ [])
      first_id started_tree running_run started-loads

write_artifact-integrity_example :
    artifact_reference_integrity constant_digest always_inside first_id
      (reference_to constant_digest team_summary)
      written_tree
    ≡ ok true
write_artifact-integrity_example =
    write_artifact-integrity constant_digest always_inside first_id team_summary started_tree
      written_tree (reference_to constant_digest team_summary) refl wrote

listed_run : list_runs started_tree ≡ ok (running_run ∷ [])
unfolding local_program
listed_run = refl

abbrev spoiled : Error → Tree
spoiled raised =
    (second_id, folder (record (new_folder queued_run) { manifest_file = raising raised }))
    ∷ started_tree

-- A manifest that the contract refuses is left out. One that is not UTF-8, or that has the artifact path ".",
-- leaves no list of the others.
list_runs-refused :
    (list_runs (spoiled (contract_validation "invalid stored manifest")) ≡ ok (running_run ∷ []))
    × (list_runs (spoiled unicode_error) ≡ err unicode_error)
    × (list_runs (spoiled index_error) ≡ err index_error)
unfolding local_program
list_runs-refused = (refl, refl, refl)
