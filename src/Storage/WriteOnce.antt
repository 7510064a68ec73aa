-- ===== src/Storage/WriteOnce.antt =====
-- Objects of v2/src/footballai_v2/storage/object_storage/memory.py are written once.
use technical_test_mitus_ai.Prelude.{
  ℕ, String, ◌≡◌, inl, inr, some, List, [], ◌∷◌, Bool-cases, Result-cases,
}
use technical_test_mitus_ai.Storage.Keys.{input_object_key, artifact_object_key}
use technical_test_mitus_ai.Storage.Memory.{
  StoredObject, Objects, find, is_stored, input_object, Artifact, store_artifact, write_artifact,
  put_input,
}
use technical_test_mitus_ai.Storage.Inputs.{suffix, copy_input}
use technical_test_mitus_ai.Storage.Lookup.{find-assign}

-- The calls that change the storage
pub data StorageCall : Type 0 where
  call_write_artifact : String → Artifact → StorageCall
  call_put_input : String → (content extension : List ℕ) → (content_type : String) → StorageCall
  call_copy_input : (source_run_id destination_run_id : String) → StorageCall

module _ (sha256_of : List ℕ → String) where
  unfoldable pub store : StorageCall → Objects → Objects
  unfolding write_artifact put_input copy_input
  store (call_write_artifact run_id a) objects = (write_artifact sha256_of run_id a objects).1
  store (call_put_input run_id content extension content_type) objects =
      (put_input sha256_of run_id content extension content_type objects).1
  store (call_copy_input source destination) objects =
      (copy_input sha256_of source destination objects).1

  unfoldable pub store_all : List StorageCall → Objects → Objects
  unfolding store
  store_all [] objects = objects
  store_all (call ∷ calls) objects = store_all calls (store call objects)

  module _ (k : List ℕ) (o : StoredObject) where
    write_artifact-Kept :
        (run_id : String) (a : Artifact) (objects : Objects)
        → find k objects ≡ some o
        → find k (write_artifact sha256_of run_id a objects).1 ≡ some o
    unfolding write_artifact store_artifact
    write_artifact-Kept run_id a objects h =
        elim (Result-cases (artifact_object_key run_id a.relative_path)) [
          | inl (key, known) ↦ elim (Bool-cases (is_stored (find key objects))) [
            | inl taken ↦ rw (known, write_artifact) (rw taken h)
            | inr free ↦ rw (known, write_artifact) (rw free (find-assign k key o _ objects free h))
          ]
          | inr (raised, bad) ↦ rw (bad, write_artifact) h
        ]

    put_input-Kept :
        (run_id : String) (content extension : List ℕ) (content_type : String) (objects : Objects)
        → find k objects ≡ some o
        → find k (put_input sha256_of run_id content extension content_type objects).1 ≡ some o
    unfolding put_input
    put_input-Kept run_id content extension content_type objects h =
        elim (Result-cases (input_object_key run_id extension)) [
          | inl (key, known) ↦ elim (Bool-cases (is_stored (find key objects))) [
            | inl taken ↦ rw (known, put_input) (rw taken h)
            | inr free ↦ rw (known, put_input) (rw free (find-assign k key o _ objects free h))
          ]
          | inr (raised, bad) ↦ rw (bad, put_input) h
        ]

    copy_input-Kept :
        (source destination : String) (objects : Objects)
        → find k objects ≡ some o
        → find k (copy_input sha256_of source destination objects).1 ≡ some o
    unfolding copy_input
    copy_input-Kept source destination objects h =
        elim (Result-cases (input_object source objects)) [
          | inl (entry, known) ↦
              rw (known, copy_input)
                (put_input-Kept destination entry.1.content (suffix entry.0) entry.1.content_type
                  objects h)
          | inr (raised, bad) ↦ rw (bad, copy_input) h
        ]

    store-Kept :
        (call : StorageCall) (objects : Objects)
        → find k objects ≡ some o
        → find k (store call objects) ≡ some o
    unfolding store
    store-Kept (call_write_artifact run_id a) objects h = write_artifact-Kept run_id a objects h
    store-Kept (call_put_input run_id content extension content_type) objects h =
        put_input-Kept run_id content extension content_type objects h
    store-Kept (call_copy_input source destination) objects h =
        copy_input-Kept source destination objects h

    -- Whatever is written afterwards, an object that is stored under a key stays there unchanged.
    pub store_all-unchanged :
        (calls : List StorageCall) (objects : Objects)
        → find k objects ≡ some o
        → find k (store_all calls objects) ≡ some o
    unfolding store_all
    store_all-unchanged [] objects h = h
    store_all-unchanged (call ∷ calls) objects h =
        store_all-unchanged calls (store call objects) (store-Kept call objects h)
