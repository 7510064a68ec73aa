-- ===== src/Tests/Storage.antt =====
-- The storage in memory at sample artifacts. The digest of the tests tells by the first byte.
use technical_test_mitus_ai.Prelude.{
  ℕ, String, ◌≡◌, refl, true, false, none, some, List, [], ◌∷◌, ◌++◌, nat_eq, list_eq, codes,
  contains, list_beq, split_on, starts_with, ok, err, index_error, object_already_exists,
  object_not_found, arith,
}
use technical_test_mitus_ai.Contract.References.{summary}
use technical_test_mitus_ai.Storage.Paths.{
  posix_path, path_parts, validate_relative_artifact_path, artifact_reference,
}
use technical_test_mitus_ai.Storage.Keys.{
  run_prefix, input_prefix, input_object_key, artifact_object_key,
}
use technical_test_mitus_ai.Storage.Memory.{
  Objects, find, first_artifact, resolve_artifact, input_object, Artifact, stored_artifact,
  reference_to, store_artifact, write_artifact, read_artifact_bytes, artifact_reference_integrity,
  put_input,
}
use technical_test_mitus_ai.Storage.Inputs.{
  suffix, has_input, extension_for, authorize_upload, finalize_upload, copy_input,
}
use technical_test_mitus_ai.Storage.WriteOnce.{
  call_put_input, call_copy_input, store, store_all, store_all-unchanged,
}
use technical_test_mitus_ai.Storage.Confinement.{validate-confined}
use technical_test_mitus_ai.Storage.Separation.{artifact_object_key-own}
use technical_test_mitus_ai.Storage.RoundTrip.{write_artifact-read}
use technical_test_mitus_ai.Contract.Text.{require_identifier, is_sha256}
use technical_test_mitus_ai.Tests.Contract.{program}
use technical_test_mitus_ai.Tests.Samples.{first_id, second_id, digest}

unfoldable pub storage_program : Unit {0}
unfolding program require_identifier is_sha256 contains list_beq split_on starts_with posix_path
    validate_relative_artifact_path artifact_reference run_prefix input_prefix input_object_key
    artifact_object_key first_artifact resolve_artifact input_object store_artifact write_artifact
    read_artifact_bytes artifact_reference_integrity put_input suffix has_input extension_for
    authorize_upload finalize_upload copy_input store store_all
storage_program = tt

abbrev fake_digest : List ℕ → String
fake_digest [] = "0000000000000000000000000000000000000000000000000000000000000000"
fake_digest (byte ∷ bytes) = digest

abbrev team_summary : Artifact
team_summary = record {
  artifact_id = "team-summary";
  name = "Team Summary";
  category = summary;
  relative_path = "artifacts/team-summary.json";
  content = codes "{}";
  media_type = "application/json";
  schema_version = none;
}

abbrev key : List ℕ
key = codes "runs/" ++ codes first_id ++ codes "/artifacts/team-summary.json"

abbrev with_summary : Objects
with_summary = (key, stored_artifact fake_digest team_summary) ∷ []

writes :
    write_artifact fake_digest first_id team_summary []
    ≡ (ok (reference_to fake_digest team_summary), with_summary)
unfolding storage_program
writes = refl

-- A second write is refused, a path that leaves the run too, and `.` ends in an IndexError.
refusals :
    (write_artifact fake_digest first_id team_summary with_summary
      ≡ (err object_already_exists, with_summary))
    × (validate_relative_artifact_path "." ≡ err index_error)
unfolding storage_program
refusals = (refl, refl)

-- A copied input keeps its suffix.
copies :
    has_input second_id (
      store_all fake_digest
        (call_put_input first_id (codes "film") (codes ".mp4") "video/mp4"
          ∷ call_copy_input first_id second_id
          ∷ [])
        [])
    ≡ ok true
unfolding storage_program
copies = refl

not_there : resolve_artifact first_id "team-summary" [] ≡ err object_not_found
unfolding storage_program
not_there = refl

there : find key with_summary ≡ some (stored_artifact fake_digest team_summary)
unfolding storage_program
there = refl

accepted :
    validate_relative_artifact_path "artifacts/team-summary.json"
    ≡ ok (codes "artifacts/team-summary.json")
unfolding storage_program
accepted = refl

keyed_there : artifact_object_key first_id "artifacts/team-summary.json" ≡ ok key
unfolding storage_program
keyed_there = refl

write_artifact-read_example :
    (read_artifact_bytes fake_digest first_id "team-summary" 100 with_summary ≡ ok (codes "{}"))
    × (artifact_reference_integrity fake_digest first_id
          (reference_to fake_digest team_summary)
          with_summary
        ≡ ok true)
write_artifact-read_example =
    write_artifact-read fake_digest first_id team_summary 100 []
      (reference_to fake_digest team_summary) with_summary writes not_there (omega arith)
      (omega arith)

store_all-unchanged_example :
    find key (
      store_all fake_digest
        (call_put_input first_id (codes "film") (codes ".mp4") "video/mp4" ∷ [])
        with_summary)
    ≡ some (stored_artifact fake_digest team_summary)
store_all-unchanged_example =
    store_all-unchanged fake_digest key (stored_artifact fake_digest team_summary)
      (call_put_input first_id (codes "film") (codes ".mp4") "video/mp4" ∷ []) with_summary there

validate-confined_example :
    (codes "artifacts/team-summary.json" ≡ codes "artifacts/team-summary.json")
    × (starts_with (codes "artifacts/team-summary.json") (codes "artifacts/") ≡ true)
    × (contains (path_parts (codes "artifacts/team-summary.json")) (codes "..") ≡ false)
validate-confined_example =
    validate-confined "artifacts/team-summary.json" (codes "artifacts/team-summary.json") accepted

artifact_object_key-own_example :
    (starts_with key (codes "runs/" ++ codes first_id ++ codes "/" ++ codes "artifacts/") ≡ true)
    × (codes first_id ≡ codes first_id)
    × (codes "artifacts/team-summary.json" ≡ codes "artifacts/team-summary.json")
artifact_object_key-own_example =
    artifact_object_key-own first_id "artifacts/team-summary.json" first_id
      "artifacts/team-summary.json" key keyed_there keyed_there
