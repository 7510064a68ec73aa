-- ===== src/Storage/Lookup.antt =====
-- Objects that are stored last, and what finds them.
use technical_test_mitus_ai.Prelude.{
  ℕ, String, ◌≡◌, refl, ap, ◌∙◌, false, inl, inr, true, ◌&&◌, &&_iff, some, List, [], ◌∷◌, ◌++◌,
  ◌==◌, nat_eq, string_eq, list_eq, option_eq, starts_with, Bool-cases, nat_eq_iff, text_eq_refl,
  ok, err, object_not_found,
}
use technical_test_mitus_ai.Storage.Memory.{
  StoredObject, Objects, find, is_stored, assign, first_artifact,
}

-- Storing under another key keeps what is found.
pub find-append :
    (key : List ℕ) (o : StoredObject) (objects : Objects) (entry : List ℕ × StoredObject)
    → find key objects ≡ some o
    → find key (objects ++ entry ∷ []) ≡ some o
find-append key o [] entry h = cc h
find-append key o ((k, found) ∷ objects) entry h = elim (Bool-cases (k == key)) [
  | inl same ↦ rw same (rw same at h)
  | inr other ↦ rw other (find-append key o objects entry (rw other at h))
]

-- An assignment of a key that the dict does not have adds it.
pub assign-fresh :
    (key : List ℕ) (o : StoredObject) (objects : Objects)
    → is_stored (find key objects) ≡ false
    → assign key o objects ≡ objects ++ (key, o) ∷ []
assign-fresh key o [] h = refl
assign-fresh key o ((k, old) ∷ objects) h = elim (Bool-cases (k == key)) [
  | inl here ↦ cc (rw here at h)
  | inr away ↦ rw away (rw (assign-fresh key o objects (rw away at h)) refl)
]

-- An object of a key stays where a key that the dict does not have is assigned.
pub find-assign :
    (k key : List ℕ) (o new : StoredObject) (objects : Objects)
    → is_stored (find key objects) ≡ false
    → find k objects ≡ some o
    → find k (assign key new objects) ≡ some o
find-assign k key o new objects free h =
    ap (find k) (assign-fresh key new objects free) ∙ find-append k o objects (key, new) h

pub first_artifact-append :
    (prefix key : List ℕ) (artifact_id : String) (o : StoredObject) (objects : Objects)
    → first_artifact prefix artifact_id objects ≡ err object_not_found
    → starts_with key prefix ≡ true
    → o.artifact_id ≡ some artifact_id
    → first_artifact prefix artifact_id (objects ++ (key, o) ∷ []) ≡ ok o
unfolding first_artifact
first_artifact-append prefix key artifact_id o [] none_yet inside mine =
    rw inside (rw mine (rw (text_eq_refl artifact_id) refl))
first_artifact-append prefix key artifact_id o ((k, found) ∷ objects) none_yet inside mine =
    elim (Bool-cases (starts_with k prefix && found.artifact_id == some artifact_id)) [
      | inl taken ↦ cc (rw taken at none_yet)
      | inr other ↦ rw other (
          first_artifact-append prefix key artifact_id o objects (rw other at none_yet) inside mine)
    ]

pub starts_with-++ : (prefix s : List ℕ) → starts_with (prefix ++ s) prefix ≡ true
unfolding starts_with
starts_with-++ [] [] = refl
starts_with-++ [] (c ∷ s) = refl
starts_with-++ (p ∷ prefix) s =
    (&&_iff (p == p) (starts_with (prefix ++ s) prefix)).1
      ((nat_eq_iff p p).1 refl, starts_with-++ prefix s)
