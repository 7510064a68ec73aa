-- ===== src/Storage/Keys.antt =====
-- v2/src/footballai_v2/storage/object_storage/keys.py: a key is the code points of its text.
use technical_test_mitus_ai.Prelude.{
  ℕ, String, not, ◌||◌, List, ◌++◌, nat_eq, codes, starts_with, contains, Result, ok, ◌>>=◌, ◌>>◌,
  forbid, value_error,
}
use technical_test_mitus_ai.Contract.Text.{validate_run_id}
use technical_test_mitus_ai.Storage.Paths.{slash, backslash, validate_relative_artifact_path}

unfoldable pub run_prefix : String → Result (List ℕ)
unfolding validate_run_id
run_prefix run_id = do validate_run_id run_id; ok (codes "runs/" ++ codes run_id ++ codes "/")

unfoldable pub input_prefix : String → Result (List ℕ)
unfolding run_prefix
input_prefix run_id = do prefix ← run_prefix run_id; ok (prefix ++ codes "input/")

unfoldable pub input_object_key : String → List ℕ → Result (List ℕ)
unfolding input_prefix starts_with contains
input_object_key run_id extension = do
  forbid
      (not (starts_with extension (codes "."))
        || contains extension slash
        || contains extension backslash)
      value_error
  prefix ← input_prefix run_id
  ok (prefix ++ codes "source" ++ extension)

unfoldable pub artifact_object_key : String → String → Result (List ℕ)
unfolding run_prefix validate_relative_artifact_path
artifact_object_key run_id relative_path = do
  normalized ← validate_relative_artifact_path relative_path
  prefix ← run_prefix run_id
  ok (prefix ++ normalized)
