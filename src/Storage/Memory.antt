-- ===== src/Storage/Memory.antt =====
-- v2/src/footballai_v2/storage/object_storage/memory.py. Bytes are numbers, the digest is a parameter,
-- and the objects stand in the order in which their keys were first stored.
use technical_test_mitus_ai.Prelude.{
  ℕ, String, Bool, true, false, not, ◌||◌, ◌&&◌, Option, none, some, List, [], ◌∷◌, ◌++◌, ◌==◌,
  nat_eq, string_eq, list_eq, option_eq, if◌then◌else◌, codes, ltb, length, starts_with, Result, ok,
  err, ◌>>=◌, ◌>>◌, forbid, value_error, object_already_exists, object_not_found, storage_integrity,
}
use technical_test_mitus_ai.Contract.References.{ArtifactCategory, ArtifactReference}
use technical_test_mitus_ai.Storage.Paths.{artifact_reference}
use technical_test_mitus_ai.Storage.Keys.{
  run_prefix, input_prefix, input_object_key, artifact_object_key,
}

-- `_StoredObject`, with its metadata. The size is kept as a decimal text and read back as a number.
pub record StoredObject : Type 0 where
  pub content : List ℕ
  pub artifact_id : Option String
  pub sha256 : String
  pub size_bytes : ℕ
  pub content_type : String

abbrev pub Objects : Type 0
Objects = List (List ℕ × StoredObject)

-- `key in self._objects`
abbrev pub find : List ℕ → Objects → Option StoredObject
find key [] = none
find key ((k, o) ∷ objects) = let rest = find key objects in if k == key then some o else rest

-- `self._objects[key] = o`: in the place of the key where the dict has it, and at the end where not
abbrev pub assign : List ℕ → StoredObject → Objects → Objects
assign key o [] = (key, o) ∷ []
assign key o ((k, old) ∷ objects) =
    let rest = assign key o objects in if k == key then (key, o) ∷ objects else (k, old) ∷ rest

abbrev pub is_stored : Option StoredObject → Bool
is_stored none = false
is_stored (some o) = true

-- The loop of `_resolve_artifact`
unfoldable pub first_artifact : List ℕ → String → Objects → Result StoredObject
unfolding starts_with
first_artifact prefix artifact_id [] = err object_not_found
first_artifact prefix artifact_id ((k, o) ∷ objects) =
    let rest = first_artifact prefix artifact_id objects in
    if starts_with k prefix && o.artifact_id == some artifact_id then ok o else rest

unfoldable pub resolve_artifact : String → String → Objects → Result StoredObject
unfolding run_prefix first_artifact
resolve_artifact run_id artifact_id objects = do
  prefix ← run_prefix run_id
  first_artifact (prefix ++ codes "artifacts/") artifact_id objects

-- The objects whose keys start with a prefix
abbrev pub matches : List ℕ → Objects → Objects
matches prefix [] = []
matches prefix ((k, o) ∷ objects) =
    let rest = matches prefix objects in if starts_with k prefix then (k, o) ∷ rest else rest

abbrev only_one : Objects → Result (List ℕ × StoredObject)
only_one (entry ∷ []) = ok entry
only_one _ = err object_not_found

-- `_input_object`
unfoldable pub input_object : String → Objects → Result (List ℕ × StoredObject)
unfolding input_prefix starts_with
input_object run_id objects = do prefix ← input_prefix run_id; only_one (matches prefix objects)

-- The arguments of `write_artifact` besides the run
pub record Artifact : Type 0 where
  pub artifact_id : String
  pub name : String
  pub category : ArtifactCategory
  pub relative_path : String
  pub content : List ℕ
  pub media_type : String
  pub schema_version : Option String

module _ (sha256_of : List ℕ → String) where
  abbrev pub stored_artifact : Artifact → StoredObject
  stored_artifact a = record {
    content = a.content;
    artifact_id = some a.artifact_id;
    sha256 = sha256_of a.content;
    size_bytes = length a.content;
    content_type = a.media_type;
  }

  abbrev pub reference_to : Artifact → ArtifactReference
  reference_to a = record {
    artifact_id = a.artifact_id;
    name = a.name;
    category = a.category;
    relative_path = a.relative_path;
    media_type = a.media_type;
    sha256 = sha256_of a.content;
    size_bytes = length a.content;
    schema_version = a.schema_version;
  }

  -- `write_artifact` once its key is known
  unfoldable pub store_artifact : List ℕ → Artifact → Objects → Result ArtifactReference × Objects
  unfolding artifact_reference
  store_artifact key a objects =
      if is_stored (find key objects)
      then (err object_already_exists, objects)
      else (artifact_reference (reference_to a), assign key (stored_artifact a) objects)

  unfoldable pub write_artifact : String → Artifact → Objects → Result ArtifactReference × Objects
  unfolding artifact_object_key store_artifact
  write_artifact run_id a objects = elim (artifact_object_key run_id a.relative_path) [
    | ok key ↦ store_artifact key a objects
    | err raised ↦ (err raised, objects)
  ]

  unfoldable pub read_artifact_bytes : String → String → (max_bytes : ℕ) → Objects → Result (List ℕ)
  unfolding resolve_artifact
  read_artifact_bytes run_id artifact_id max_bytes objects = do
    forbid (ltb max_bytes 1) value_error
    stored ← resolve_artifact run_id artifact_id objects
    forbid (ltb max_bytes stored.size_bytes) value_error
    forbid
        (not (length stored.content == stored.size_bytes)
          || not (sha256_of stored.content == stored.sha256))
        storage_integrity
    ok stored.content

  abbrev pub matches_reference : ArtifactReference → Result StoredObject → Result Bool
  matches_reference r (ok stored) =
      ok (length stored.content == r.size_bytes && sha256_of stored.content == r.sha256)
  matches_reference r (err object_not_found) = ok false
  matches_reference r (err raised) = err raised

  unfoldable pub artifact_reference_integrity : String → ArtifactReference → Objects → Result Bool
  unfolding resolve_artifact
  artifact_reference_integrity run_id r objects =
      matches_reference r (resolve_artifact run_id r.artifact_id objects)

  abbrev stored_input : List ℕ → String → StoredObject
  stored_input content content_type = record {
    content = content;
    artifact_id = none;
    sha256 = sha256_of content;
    size_bytes = length content;
    content_type = content_type;
  }

  unfoldable pub put_input :
      String
      → (content extension : List ℕ) → (content_type : String) → Objects
      → Result (List ℕ) × Objects
  unfolding input_object_key
  put_input run_id content extension content_type objects =
      elim (input_object_key run_id extension) [
        | ok key ↦
            if is_stored (find key objects)
            then (err object_already_exists, objects)
            else (ok key, assign key (stored_input content content_type) objects)
        | err raised ↦ (err raised, objects)
      ]
