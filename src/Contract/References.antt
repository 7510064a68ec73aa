-- ===== src/Contract/References.antt =====
-- The value objects of contracts/v1/analysis_run.py: each has its checks of `__post_init__`.
-- A timestamp is a number of microseconds since the epoch, in UTC.
use technical_test_mitus_ai.Prelude.{
  ℕ, String, ◌≡◌, refl, Bool, true, ◌&&◌, Option, none, some, Eq, ◌==◌, nat_eq, string_eq, bool_eq,
  option_eq, contract_validation, Result, ok, ◌>>◌, require, text_eq_refl, arith,
}
use technical_test_mitus_ai.Contract.Text.{
  is_sha256, is_git_revision, require_identifier, require_non_empty, validate_safe_text,
}
use technical_test_mitus_ai.Contract.Json.{Fields, validate_safe_details}

pub record InputReference : Type 0 where
  pub uri : String
  pub sha256 : String
  pub media_type : String

unfoldable pub input_reference : String → String → String → Result InputReference
input_reference uri sha256 media_type = do
  require_non_empty uri
  require_non_empty media_type
  require (is_sha256 sha256) (contract_validation "input.sha256 must be 64 lowercase hexadecimal")
  ok (record { uri = uri; sha256 = sha256; media_type = media_type })

pub record CodeReference : Type 0 where
  pub repository : String
  pub revision : String
  pub dirty : Bool

unfoldable pub code_reference : String → String → Bool → Result CodeReference
code_reference repository revision dirty = do
  require_non_empty repository
  require (is_git_revision revision) (contract_validation "code.revision must be a Git hash")
  ok (record { repository = repository; revision = revision; dirty = dirty })

pub record ModelReference : Type 0 where
  pub name : String
  pub version : String
  pub sha256 : Option String

abbrev optional_sha256 : Option String → Bool
optional_sha256 none = true
optional_sha256 (some s) = is_sha256 s

unfoldable pub model_reference : String → String → Option String → Result ModelReference
model_reference name version sha256 = do
  require_non_empty name
  require_non_empty version
  require (optional_sha256 sha256)
      (contract_validation "model.sha256 must be 64 lowercase hexadecimal")
  ok (record { name = name; version = version; sha256 = sha256 })

-- Dataclass equality compares the fields in order.
instance abbrev pub input_eq : Eq InputReference
input_eq = record {
  beq = λ a b. a.uri == b.uri && a.sha256 == b.sha256 && a.media_type == b.media_type;
}

instance abbrev pub code_eq : Eq CodeReference
code_eq = record {
  beq = λ a b. a.repository == b.repository && a.revision == b.revision && a.dirty == b.dirty;
}

instance abbrev pub model_eq : Eq ModelReference
model_eq = record {
  beq = λ a b. a.name == b.name && a.version == b.version && a.sha256 == b.sha256;
}

pub data ArtifactCategory : Type 0 where
  source tracks metrics summary workload_advisory visualization other : ArtifactCategory

pub record ArtifactReference : Type 0 where
  pub artifact_id : String
  pub name : String
  pub category : ArtifactCategory
  pub relative_path : String
  pub media_type : String
  pub sha256 : String
  pub size_bytes : ℕ
  pub schema_version : Option String

pub record StructuredError : Type 0 where
  pub error_code : String
  pub safe_message : String
  pub retryable : Bool
  pub occurred_at : ℕ
  pub technical_details : Option Fields

abbrev validate_details : Option Fields → Result (Unit {0})
validate_details none = ok tt
validate_details (some fs) = validate_safe_details fs

unfoldable pub structured_error :
    String → String → Bool → ℕ → Option Fields → Result StructuredError
structured_error error_code safe_message retryable occurred_at technical_details = do
  require_identifier error_code
  validate_safe_text safe_message
  validate_details technical_details
  ok (record {
    error_code = error_code;
    safe_message = safe_message;
    retryable = retryable;
    occurred_at = occurred_at;
    technical_details = technical_details;
  })

pub input_eq_refl : (a : InputReference) → (a == a) ≡ true
input_eq_refl a =
    ground (arith, text_eq_refl a.uri, text_eq_refl a.sha256, text_eq_refl a.media_type)

pub code_eq_refl : (a : CodeReference) → (a == a) ≡ true
code_eq_refl a = ground (arith, text_eq_refl a.repository, text_eq_refl a.revision)

option_text_refl : (o : Option String) → (o == o) ≡ true
option_text_refl none = refl
option_text_refl (some s) = text_eq_refl s

pub model_eq_refl : (a : ModelReference) → (a == a) ≡ true
model_eq_refl a =
    ground (arith, text_eq_refl a.name, text_eq_refl a.version, option_text_refl a.sha256)
