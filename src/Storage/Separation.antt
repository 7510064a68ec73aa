-- ===== src/Storage/Separation.antt =====
-- Runs do not share keys of v2/src/footballai_v2/storage/object_storage/keys.py.
use technical_test_mitus_ai.Prelude.{
  ℕ, suc, ◌+◌, String, ◌≡◌, refl, sym, ap, ◌∙◌, true, List, [], ◌∷◌, ◌++◌, append_assoc, codes,
  length, starts_with, subst, arith, ok, >>=-eq-ok, >>-eq-ok, ok-injective, require-ok,
}
use technical_test_mitus_ai.Contract.Text.{
  uuid_chars, is_uuid_v4, validate_run_id, validate_uuid_v4, require_non_empty,
}
use technical_test_mitus_ai.Storage.Paths.{validate_relative_artifact_path}
use technical_test_mitus_ai.Storage.Keys.{run_prefix, artifact_object_key}
use technical_test_mitus_ai.Storage.Confinement.{validate-confined, starts_with-shared}

uuid_chars-length : (i : ℕ) (s : List ℕ) → uuid_chars i s ≡ true → i + length s ≡ 36
unfolding uuid_chars
uuid_chars-length i [] h = ground arith
uuid_chars-length i (c ∷ s) h =
    let rest = uuid_chars-length (suc i) s (ground arith) in omega (arith, rest)

is_uuid_v4-length : (value : String) → is_uuid_v4 value ≡ true → length (codes value) ≡ 36
unfolding is_uuid_v4
is_uuid_v4-length value h =
    let counted = uuid_chars-length 0 (codes value) (ground arith) in omega (arith, counted)

-- A run identifier that is accepted has the length of a UUID.
validate_run_id-length :
    (run_id : String) → validate_run_id run_id ≡ ok tt → length (codes run_id) ≡ 36
unfolding validate_run_id validate_uuid_v4
validate_run_id-length run_id h =
    let (_, valid) = >>-eq-ok (require_non_empty run_id) _ h in
    is_uuid_v4-length run_id (require-ok (is_uuid_v4 run_id) _ valid)

split_apart : (a b s t : List ℕ) → length a ≡ length b → a ++ s ≡ b ++ t → (a ≡ b) × (s ≡ t)
split_apart [] [] s t same h = (refl, h)
split_apart [] (y ∷ b) s t same h = absurd (omega arith)
split_apart (x ∷ a) [] s t same h = absurd (omega arith)
split_apart (x ∷ a) (y ∷ b) s t same h =
    let (first, rest) = split_apart a b s t (omega arith) (cc) in (cc, rest)

drop_shared : (p s t : List ℕ) → p ++ s ≡ p ++ t → s ≡ t
drop_shared p s t h = (split_apart p p s t refl h).1

-- A key that is made, written out
Written : (run_id relative_path : String) → List ℕ → Type 0
Written run_id relative_path key =
    (length (codes run_id) ≡ 36)
    × (key ≡ codes "runs/" ++ codes run_id ++ codes "/" ++ codes relative_path)
    × (starts_with (codes relative_path) (codes "artifacts/") ≡ true)

artifact_object_key-Written :
    (run_id relative_path : String) (key : List ℕ)
    → artifact_object_key run_id relative_path ≡ ok key
    → Written run_id relative_path key
unfolding artifact_object_key run_prefix Written
artifact_object_key-Written run_id relative_path key h =
    let (normalized, valid, h1) = >>=-eq-ok (validate_relative_artifact_path relative_path) _ h in
    let (prefix, named, h2) = >>=-eq-ok (run_prefix run_id) _ h1 in
    let (known, made) = >>-eq-ok (validate_run_id run_id) _ named in
    let confined = validate-confined relative_path normalized valid in
    (
      validate_run_id-length run_id known,
      sym (ok-injective h2)
          ∙ ap (λ p. p ++ normalized) (sym (ok-injective made))
          ∙ ap (λ n. codes "runs/" ++ codes run_id ++ codes "/" ++ n) confined.0,
      subst (λ n. starts_with n (codes "artifacts/") ≡ true) confined.0 confined.1,
    )

-- A key that is made of a run and a path starts with runs/, the run and /artifacts/, and it is made of no
-- other run and no other path.
pub artifact_object_key-own :
    (run_id relative_path other_id other_path : String) (key : List ℕ)
    → artifact_object_key run_id relative_path ≡ ok key
    → artifact_object_key other_id other_path ≡ ok key
    → (starts_with key (codes "runs/" ++ codes run_id ++ codes "/" ++ codes "artifacts/") ≡ true)
      × (codes other_id ≡ codes run_id)
      × (codes other_path ≡ codes relative_path)
unfolding Written
artifact_object_key-own run_id relative_path other_id other_path key h other =
    let (size, written, under) = artifact_object_key-Written run_id relative_path key h in
    let (other_size, rewritten, _) = artifact_object_key-Written other_id other_path key other in
    let id = codes run_id in
    let from_id = append_assoc id (codes "/") (codes relative_path) in
    let from_other = append_assoc (codes other_id) (codes "/") (codes other_path) in
    let same =
      drop_shared (codes "runs/") (codes other_id ++ codes "/" ++ codes other_path)
        (id ++ codes "/" ++ codes relative_path) (sym rewritten ∙ written) in
    let (ids, rests) =
      split_apart (codes other_id) id (codes "/" ++ codes other_path)
        (codes "/" ++ codes relative_path) (other_size ∙ sym size)
        (sym from_other ∙ same ∙ from_id) in
    (
      rw written (
          starts_with-shared (codes "runs/" ++ id ++ codes "/") (codes relative_path)
            (codes "artifacts/") under),
      ids,
      drop_shared (codes "/") (codes other_path) (codes relative_path) rests,
    )
