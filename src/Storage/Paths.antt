-- ===== src/Storage/Paths.antt =====
-- The artifact paths of v2/src/footballai_v2/contracts/v1/analysis_run.py, and the references that hold
-- them.
use technical_test_mitus_ai.Prelude.{
  ℕ, String, not, ◌||◌, ◌&&◌, Option, none, some, List, [], ◌∷◌, ◌++◌, ◌==◌, nat_eq, list_eq,
  if◌then◌else◌, codes, split_on, starts_with, contains, is_empty, Result, ok, err, ◌>>=◌, ◌>>◌,
  require, forbid, contract_validation, index_error,
}
use technical_test_mitus_ai.Contract.Text.{require_identifier, require_non_empty, is_sha256}
use technical_test_mitus_ai.Contract.References.{ArtifactReference}

abbrev pub slash : ℕ
slash = 47

abbrev pub backslash : ℕ
backslash = 92

-- The parts of a path that `PurePosixPath` keeps: neither empty nor `.`
abbrev kept_parts : List (List ℕ) → List (List ℕ)
kept_parts [] = []
kept_parts (part ∷ parts) =
    let rest = kept_parts parts in if is_empty part || part == codes "." then rest else part ∷ rest

abbrev pub path_parts : List ℕ → List (List ℕ)
path_parts s = kept_parts (split_on slash s)

abbrev pub join_parts : List (List ℕ) → List ℕ
join_parts [] = []
join_parts (part ∷ []) = part
join_parts (part ∷ parts) = part ++ slash ∷ join_parts parts

-- The root of a path: two slashes where it starts with exactly two, one where it starts with another
-- number of them
abbrev pub path_root : List ℕ → List ℕ
path_root s =
    if not (starts_with s (codes "/"))
    then []
    else if starts_with s (codes "//") && not (starts_with s (codes "///"))
    then codes "//"
    else codes "/"

-- `str(PurePosixPath(s))`
unfoldable pub posix_path : List ℕ → List ℕ
unfolding split_on starts_with contains
posix_path s =
    let text = path_root s ++ join_parts (path_parts s) in if is_empty text then codes "." else text

abbrev pub check_parts : List (List ℕ) → Result (Unit {0})
check_parts [] = err index_error
check_parts (first ∷ parts) = do
  require (first == codes "artifacts")
      (contract_validation "relative_path must be inside the run's artifacts/ directory")
  forbid (is_empty parts) (contract_validation "relative_path must name an artifact")

unfoldable pub validate_relative_artifact_path : String → Result (List ℕ)
unfolding posix_path starts_with contains
validate_relative_artifact_path value = do
  require_non_empty value
  forbid (contains (codes value) backslash)
      (contract_validation "relative_path must use POSIX separators")
  require (codes value == posix_path (codes value))
      (contract_validation "relative_path must be normalized")
  forbid (starts_with (codes value) (codes "/") || contains (path_parts (codes value)) (codes ".."))
      (contract_validation "relative_path must be a normalized path within the run")
  check_parts (path_parts (codes value))
  ok (posix_path (codes value))

abbrev pub check_schema_version : Option String → Result (Unit {0})
check_schema_version none = ok tt
check_schema_version (some version) = require_non_empty version

-- `ArtifactReference.__post_init__`
unfoldable pub artifact_reference : ArtifactReference → Result ArtifactReference
unfolding validate_relative_artifact_path
artifact_reference r = do
  require_identifier r.artifact_id
  require_non_empty r.name
  normalized ← validate_relative_artifact_path r.relative_path
  require_non_empty r.media_type
  require (is_sha256 r.sha256)
      (contract_validation "artifact.sha256 must be 64 lowercase hexadecimal characters")
  check_schema_version r.schema_version
  ok r
