-- ===== src/Tests/Coordinator.antt =====
-- A retry and a clone of a sample attempt.
use technical_test_mitus_ai.Prelude.{
  ℕ, String, ◌≡◌, refl, none, List, [], ◌∷◌, ◌++◌, codes, ok, err, object_not_found, arith,
}
use technical_test_mitus_ai.Contract.Json.{JsonValue}
use technical_test_mitus_ai.Contract.Transitions.{retry_from, with_stages, fail}
use technical_test_mitus_ai.Repository.{load}
use technical_test_mitus_ai.Storage.Memory.{Objects, put_input}
use technical_test_mitus_ai.Storage.Inputs.{copy_input, suffix}
use technical_test_mitus_ai.Storage.Keys.{input_object_key}
use technical_test_mitus_ai.Coordinator.{Planes, Readings, deliver, compensate, retry, clone}
use technical_test_mitus_ai.Coordinator.Planned.{Retries, Clones}
use technical_test_mitus_ai.Coordinator.Compensation.{IsFailed}
use technical_test_mitus_ai.Coordinator.Delivery.{Settled, retry-Settled, clone-Settled}
use technical_test_mitus_ai.Repository.History.{call_create, call_save, perform_all}
use technical_test_mitus_ai.Tests.Repository.{empty}
use technical_test_mitus_ai.Tests.Uploads.{upload_program}
use technical_test_mitus_ai.Tests.Samples.{
  logical_id, first_id, second_id, digest, queued_run, failed_run,
}

unfoldable pub coordinator_program : Unit {0}
unfolding upload_program retry_from with_stages fail copy_input put_input suffix input_object_key
    deliver compensate retry clone
coordinator_program = tt

abbrev fake_digest : List ℕ → String
fake_digest content = digest

abbrev str : JsonValue → String
str value = "None"

abbrev readings : Readings
readings = record {
  run_id = second_id;
  logical_analysis_id = logical_id;
  job_id = logical_id;
  run_time = 400;
  created_time = 401;
  job_time = 402;
  error_time = 403;
  failed_time = 404;
  saved_time = 405;
}

abbrev film : Objects
film =
    (
      codes "runs/" ++ codes first_id ++ codes "/input/source.mp4",
      record {
        content = codes "film";
        artifact_id = none;
        sha256 = digest;
        size_bytes = 4;
        content_type = "video/mp4";
      },
    )
    ∷ []

abbrev planes : Objects → Planes
planes objects = record {
  db = perform_all (call_create queued_run 100 ∷ call_save failed_run none 300 ∷ []) empty;
  objects = objects;
  queue = record { files = []; run_index = [] };
}

loads : (objects : Objects) → load first_id (planes objects).db ≡ ok failed_run
unfolding coordinator_program
loads objects = refl

-- Without an input the retry raises, and its attempt is stored as failed.
retry-unfed :
    ((retry fake_digest str first_id readings (planes [])).0 ≡ err object_not_found)
    × IsFailed second_id (retry fake_digest str first_id readings (planes [])).1.db
unfolding coordinator_program
retry-unfed = (refl, (_, refl, refl))

retry-Settled_example :
    Settled fake_digest str readings
      (Retries failed_run)
      first_id
      (planes film)
      (retry fake_digest str first_id readings (planes film))
unfolding coordinator_program
retry-Settled_example =
    retry-Settled fake_digest str readings first_id (planes film) failed_run (loads film) refl
      (omega arith)

clone-Settled_example :
    Settled fake_digest str readings
      (Clones failed_run queued_run.code logical_id)
      first_id
      (planes film)
      (clone fake_digest str first_id queued_run.code readings (planes film))
unfolding coordinator_program
clone-Settled_example =
    clone-Settled fake_digest str readings first_id queued_run.code (planes film) failed_run
      (loads film) refl (omega arith)
