-- ===== src/Storage/Inputs.antt =====
-- The inputs of runs in v2/src/footballai_v2/storage/object_storage/memory.py: copies, and uploads that
-- the client makes itself.
use technical_test_mitus_ai.Prelude.{
  ℕ, ◌+◌, ◌*◌, String, Bool, true, false, not, ◌||◌, ◌&&◌, Option, none, some, List, [], ◌∷◌, ◌++◌,
  ◌==◌, nat_eq, string_eq, if◌then◌else◌, codes, ltb, is_empty, contains, Result, ok, err, ◌>>=◌,
  ◌>>◌, forbid, value_error, object_not_found, upload_not_found, invalid_storage_object,
}
use technical_test_mitus_ai.Storage.Paths.{slash}
use technical_test_mitus_ai.Storage.Keys.{input_object_key}
use technical_test_mitus_ai.Storage.Memory.{StoredObject, Objects, input_object, put_input}

-- The text after the last separator
abbrev after_last : ℕ → List ℕ → Option (List ℕ)
after_last separator [] = none
after_last separator (c ∷ s) = elim (after_last separator s) [
  | some rest ↦ some rest
  | none ↦ if c == separator then some s else none
]

abbrev file_name : List ℕ → List ℕ
file_name key = elim (after_last slash key) [ some name ↦ name | none ↦ key ]

-- From the last dot of a name on, unless it is the first or the last character
abbrev suffix_of : List ℕ → List ℕ
suffix_of [] = []
suffix_of (c ∷ name) = elim (after_last 46 name) [
  | some rest ↦ if is_empty rest then [] else 46 ∷ rest
  | none ↦ []
]

-- `Path(key).suffix`
unfoldable pub suffix : List ℕ → List ℕ
suffix key = suffix_of (file_name key)

abbrev refuse_upload : Result (List ℕ × StoredObject) → Result (List ℕ × StoredObject)
refuse_upload (ok entry) = ok entry
refuse_upload (err object_not_found) = err upload_not_found
refuse_upload (err raised) = err raised

-- `has_input`
abbrev is_input : Result (List ℕ × StoredObject) → Result Bool
is_input (ok entry) = ok true
is_input (err object_not_found) = ok false
is_input (err raised) = err raised

unfoldable pub has_input : String → Objects → Result Bool
unfolding input_object
has_input run_id objects = is_input (input_object run_id objects)

-- `_extension_for`
unfoldable pub extension_for : String → Result (List ℕ)
extension_for content_type =
    if content_type == "video/mp4"
    then ok (codes ".mp4")
    else if content_type == "video/quicktime"
    then ok (codes ".mov")
    else if content_type == "video/x-matroska"
    then ok (codes ".mkv")
    else if content_type == "video/webm"
    then ok (codes ".webm")
    else err value_error

-- `UploadGrant`, without its constant method and with the header's content type once
pub record UploadGrant : Type 0 where
  pub url : List ℕ
  pub object_reference : List ℕ
  pub max_bytes : ℕ
  pub expires_at : ℕ
  pub required_content_type : String

unfoldable pub authorize_upload :
    String → (content_type : String) → (max_bytes expires_seconds now : ℕ) → Result UploadGrant
unfolding extension_for input_object_key
authorize_upload run_id content_type max_bytes expires_seconds now = do
  extension ← extension_for content_type
  key ← input_object_key run_id extension
  ok (record {
    url = codes "memory://upload/" ++ key;
    object_reference = key;
    max_bytes = max_bytes;
    expires_at = now + expires_seconds * 1000000;
    required_content_type = content_type;
  })

pub record FinalizedUpload : Type 0 where
  pub object_reference : List ℕ
  pub sha256 : String
  pub size_bytes : ℕ
  pub content_type : String

unfoldable pub finalize_upload :
    String
    → (max_bytes : ℕ) → (allowed_content_types : List String) → Objects
    → Result FinalizedUpload
unfolding input_object contains
finalize_upload run_id max_bytes allowed_content_types objects = do
  (key, stored) ← refuse_upload (input_object run_id objects)
  forbid (ltb stored.size_bytes 1 || ltb max_bytes stored.size_bytes) invalid_storage_object
  forbid
      (not (is_empty allowed_content_types)
        && not (contains allowed_content_types stored.content_type))
      invalid_storage_object
  ok (record {
    object_reference = key;
    sha256 = stored.sha256;
    size_bytes = stored.size_bytes;
    content_type = stored.content_type;
  })

module _ (sha256_of : List ℕ → String) where
  unfoldable pub copy_input :
      (source_run_id destination_run_id : String) → Objects → Result (List ℕ) × Objects
  unfolding input_object suffix put_input
  copy_input source_run_id destination_run_id objects = elim (input_object source_run_id objects) [
    | ok entry ↦
        put_input sha256_of destination_run_id entry.1.content (suffix entry.0) entry.1.content_type
          objects
    | err raised ↦ (err raised, objects)
  ]
