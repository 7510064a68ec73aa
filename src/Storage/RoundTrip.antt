-- ===== src/Storage/RoundTrip.antt =====
-- Reading back what v2/src/footballai_v2/storage/object_storage/memory.py has stored.
use technical_test_mitus_ai.Prelude.{
  ℕ, ◌≤◌, String, ◌≡◌, refl, sym, ap, ◌∙◌, inl, inr, true, false, &&_iff, List, [], ◌∷◌, ◌++◌, ◌==◌,
  nat_eq, string_eq, length, ltb, codes, Bool-cases, nat_eq_iff, text_eq_refl, subst, ok, err,
  Result-cases, >>-eq-ok, >>=-eq-ok, ok-injective, require, object_not_found, arith,
}
use technical_test_mitus_ai.Contract.Text.{require_identifier, require_non_empty, is_sha256}
use technical_test_mitus_ai.Contract.References.{ArtifactReference}
use technical_test_mitus_ai.Storage.Paths.{
  validate_relative_artifact_path, check_schema_version, artifact_reference,
}
use technical_test_mitus_ai.Storage.Keys.{run_prefix, artifact_object_key}
use technical_test_mitus_ai.Storage.Memory.{
  Objects, find, is_stored, first_artifact, resolve_artifact, Artifact, stored_artifact,
  reference_to, store_artifact, write_artifact, read_artifact_bytes, matches_reference,
  artifact_reference_integrity,
}
use technical_test_mitus_ai.Storage.Lookup.{first_artifact-append, assign-fresh}
use technical_test_mitus_ai.Storage.Confinement.{artifact_object_key-prefix}

pub artifact_reference-ok : (r made : ArtifactReference) → artifact_reference r ≡ ok made → r ≡ made
unfolding artifact_reference
artifact_reference-ok r made h =
    let h1 = (>>-eq-ok (require_identifier r.artifact_id) _ h).1 in
    let h2 = (>>-eq-ok (require_non_empty r.name) _ h1).1 in
    let (normalized, valid, h3) =
      >>=-eq-ok (validate_relative_artifact_path r.relative_path) _ h2 in
    let h4 = (>>-eq-ok (require_non_empty r.media_type) _ h3).1 in
    let h5 = (>>-eq-ok (require (is_sha256 r.sha256) _) _ h4).1 in
    ok-injective (>>-eq-ok (check_schema_version r.schema_version) _ h5).1

module _ (sha256_of : List ℕ → String) where
  -- What a write that returns has done.
  abbrev Written : String → Artifact → Objects → ArtifactReference → Objects → Type 0
  Written run_id a objects r objects' =
      (key : List ℕ) × (artifact_object_key run_id a.relative_path ≡ ok key)
      × (r ≡ reference_to sha256_of a)
      × (objects' ≡ objects ++ (key, stored_artifact sha256_of a) ∷ [])

  store_artifact-Written :
      (run_id : String) (key : List ℕ) (a : Artifact) (objects : Objects) (r : ArtifactReference)
      (objects' : Objects)
      → artifact_object_key run_id a.relative_path ≡ ok key
      → store_artifact sha256_of key a objects ≡ (ok r, objects')
      → Written run_id a objects r objects'
  unfolding store_artifact
  store_artifact-Written run_id key a objects r objects' known h =
      elim (Bool-cases (is_stored (find key objects))) [
        | inl taken ↦ cc (ap (λ p. p.0) (rw taken at h))
        | inr free ↦
            let done = rw free at h in
            (
              key,
              known,
              sym (artifact_reference-ok (reference_to sha256_of a) r (ap (λ p. p.0) done)),
              sym (ap (λ p. p.1) done)
                  ∙ assign-fresh key (stored_artifact sha256_of a) objects free,
            )
      ]

  write_artifact-Written :
      (run_id : String) (a : Artifact) (objects : Objects) (r : ArtifactReference)
      (objects' : Objects)
      → write_artifact sha256_of run_id a objects ≡ (ok r, objects')
      → Written run_id a objects r objects'
  unfolding write_artifact
  write_artifact-Written run_id a objects r objects' h =
      elim (Result-cases (artifact_object_key run_id a.relative_path)) [
        | inl (key, known) ↦
            store_artifact-Written run_id key a objects r objects' known
              (rw (known, write_artifact) at h)
        | inr (raised, bad) ↦ cc (ap (λ p. p.0) (rw (bad, write_artifact) at h))
      ]

  resolve_artifact-prefix :
      (run_id artifact_id : String) (prefix : List ℕ) (objects : Objects)
      → run_prefix run_id ≡ ok prefix
      → resolve_artifact run_id artifact_id objects
        ≡ first_artifact (prefix ++ codes "artifacts/") artifact_id objects
  unfolding resolve_artifact
  resolve_artifact-prefix run_id artifact_id prefix objects known =
      rw (known, resolve_artifact) refl

  resolve_artifact-Written :
      (run_id : String) (a : Artifact) (objects : Objects) (r : ArtifactReference)
      (objects' : Objects)
      → Written run_id a objects r objects'
      → resolve_artifact run_id a.artifact_id objects ≡ err object_not_found
      → resolve_artifact run_id a.artifact_id objects' ≡ ok (stored_artifact sha256_of a)
  resolve_artifact-Written run_id a objects r objects' (key, known, made, stored) fresh =
      let (prefix, named, inside) = artifact_object_key-prefix run_id a.relative_path key known in
      resolve_artifact-prefix run_id a.artifact_id prefix objects' named
      ∙ ap (first_artifact (prefix ++ codes "artifacts/") a.artifact_id) stored
      ∙ first_artifact-append (prefix ++ codes "artifacts/") key a.artifact_id
          (stored_artifact sha256_of a) objects
          (sym (resolve_artifact-prefix run_id a.artifact_id prefix objects named) ∙ fresh) inside
          refl

  read-resolved :
      (run_id : String) (a : Artifact) (max_bytes : ℕ) (objects : Objects)
      → 1 ≤ max_bytes
      → length a.content ≤ max_bytes
      → resolve_artifact run_id a.artifact_id objects ≡ ok (stored_artifact sha256_of a)
      → read_artifact_bytes sha256_of run_id a.artifact_id max_bytes objects ≡ ok a.content
  unfolding read_artifact_bytes
  read-resolved run_id a max_bytes objects positive fits found =
      let some_bytes : ltb max_bytes 1 ≡ false = ground arith in
      let in_limit : ltb max_bytes (length a.content) ≡ false = ground arith in
      let same_size : length a.content == length a.content ≡ true =
        (nat_eq_iff (length a.content) (length a.content)).1 refl in
      rw (some_bytes, found, in_limit, same_size, text_eq_refl (sha256_of a.content)) refl

  integrity-resolved :
      (run_id : String) (a : Artifact) (objects : Objects)
      → resolve_artifact run_id a.artifact_id objects ≡ ok (stored_artifact sha256_of a)
      → artifact_reference_integrity sha256_of run_id (reference_to sha256_of a) objects ≡ ok true
  unfolding artifact_reference_integrity
  integrity-resolved run_id a objects found =
      ap (matches_reference sha256_of (reference_to sha256_of a)) found
      ∙ ap ok (
          (&&_iff (length a.content == length a.content)
              (sha256_of a.content == sha256_of a.content)).1
            (
              (nat_eq_iff (length a.content) (length a.content)).1 refl,
              text_eq_refl (sha256_of a.content),
            ))

  -- A write of an artifact that returns, under an artifact id that the run does not have, can be read
  -- back: reading the id gives the same bytes where they fit the limit, and the returned reference passes
  -- the integrity test.
  pub write_artifact-read :
      (run_id : String) (a : Artifact) (max_bytes : ℕ) (objects : Objects) (r : ArtifactReference)
      (objects' : Objects)
      → write_artifact sha256_of run_id a objects ≡ (ok r, objects')
      → resolve_artifact run_id a.artifact_id objects ≡ err object_not_found
      → 1 ≤ max_bytes
      → length a.content ≤ max_bytes
      → (read_artifact_bytes sha256_of run_id r.artifact_id max_bytes objects' ≡ ok a.content)
        × (artifact_reference_integrity sha256_of run_id r objects' ≡ ok true)
  write_artifact-read run_id a max_bytes objects r objects' h fresh positive fits =
      let written = write_artifact-Written run_id a objects r objects' h in
      let found = resolve_artifact-Written run_id a objects r objects' written fresh in
      let made = written.2 in
      subst
        (λ m.
          (read_artifact_bytes sha256_of run_id m.artifact_id max_bytes objects' ≡ ok a.content)
          × (artifact_reference_integrity sha256_of run_id m objects' ≡ ok true))
        (sym made)
        (
          read-resolved run_id a max_bytes objects' positive fits found,
          integrity-resolved run_id a objects' found,
        )
