-- ===== src/Tests/Uploads.antt =====
-- A direct upload at a sample object.
use technical_test_mitus_ai.Prelude.{
  ◌≡◌, refl, none, some, [], ◌∷◌, ◌++◌, codes, starts_with, ok, err, upload_not_found,
}
use technical_test_mitus_ai.Contract.References.{input_reference}
use technical_test_mitus_ai.Contract.Run.{AnalysisRun, DataOrigin}
use technical_test_mitus_ai.Contract.Text.{is_sha256}
use technical_test_mitus_ai.Contract.Transitions.{new}
use technical_test_mitus_ai.Repository.{attempt_row}
use technical_test_mitus_ai.Repository.Saves.{row_of}
use technical_test_mitus_ai.Queue.Local.{Queue}
use technical_test_mitus_ai.Storage.Memory.{Objects, input_object}
use technical_test_mitus_ai.Storage.Inputs.{finalize_upload}
use technical_test_mitus_ai.Storage.Keys.{run_prefix, input_prefix}
use technical_test_mitus_ai.Uploads.Characters.{character, text_of}
use technical_test_mitus_ai.Uploads.Service.{
  DirectUploadService, Finalization, queued_stages, prepare, submit, admit, finalize,
}
use technical_test_mitus_ai.Uploads.Repeats.{finalize-repeated}
use technical_test_mitus_ai.Tests.Repository.{created, empty}
use technical_test_mitus_ai.Tests.Queue.{queue_program}
use technical_test_mitus_ai.Tests.Samples.{logical_id, first_id, second_id, digest, queued_run}

unfoldable pub upload_program : Unit {0}
unfolding queue_program is_sha256 starts_with input_reference new input_object finalize_upload
    run_prefix input_prefix character text_of prepare submit admit finalize
upload_program = tt

abbrev service : DirectUploadService
service = record {
  max_upload_bytes = 1000;
  code_reference = queued_run.code;
  expires_seconds = 900;
}

abbrev request : Finalization
request = record {
  run_id = first_id;
  profile = "demo_fast";
  data_origin = DataOrigin.real;
  parameters = none;
}

abbrev uploaded : Objects
uploaded =
    (
      codes "runs/" ++ codes first_id ++ codes "/input/source.mp4",
      record {
        content = codes "film";
        artifact_id = none;
        sha256 = digest;
        size_bytes = 4;
        content_type = "video/mp4";
      },
    )
    ∷ []

abbrev uploaded_run : AnalysisRun
uploaded_run = record queued_run {
  input = record {
    uri = "blob://runs/aaaaaaaa-bbbb-4ccc-8ddd-eeeeeeeeeeee/input/source.mp4";
    sha256 = digest;
    media_type = "video/mp4";
  };
  stages = queued_stages 1;
}

abbrev no_jobs : Queue
no_jobs = record { files = []; run_index = [] }

prepares : prepare service request logical_id 100 uploaded ≡ ok uploaded_run
unfolding upload_program
prepares = refl

prepares_later :
    prepare service request logical_id 200 uploaded ≡ ok (record uploaded_run { created_at = 200 })
unfolding upload_program
prepares_later = refl

-- The first finalize stores the attempt and enqueues its job; without an upload there is nothing.
finalizes :
    ((finalize service request logical_id second_id 100 uploaded empty no_jobs).0 ≡ ok uploaded_run)
    × ((finalize service request logical_id second_id 100 uploaded empty no_jobs).2.run_index
        ≡ first_id ∷ [])
    × (finalize service request logical_id second_id 100 [] empty no_jobs
        ≡ (err upload_not_found, empty, no_jobs))
unfolding upload_program
finalizes = (refl, refl, refl)

stored : row_of first_id created ≡ some (attempt_row queued_run 1)
unfolding upload_program
stored = refl

finalize-repeated_example :
    finalize service request logical_id second_id 200 uploaded created no_jobs
    ≡ (ok queued_run, created, no_jobs)
finalize-repeated_example =
    finalize-repeated service request logical_id second_id 200 uploaded created no_jobs
      (record uploaded_run { created_at = 200 }) (attempt_row queued_run 1) prepares_later stored
