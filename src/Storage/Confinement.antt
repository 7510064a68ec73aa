-- ===== src/Storage/Confinement.antt =====
-- Where the keys of v2/src/footballai_v2/storage/object_storage/keys.py lie.
use technical_test_mitus_ai.Prelude.{
  ℕ, String, ◌≡◌, refl, sym, ap, ◌∙◌, Bool, true, false, ◌||◌, List, [], ◌∷◌, ◌++◌, ◌==◌, nat_eq,
  list_eq, list_beq_iff, codes, is_empty, starts_with, contains, nat_eq_iff, &&_iff, ok, >>-eq-ok,
  >>=-eq-ok, ok-injective, require, forbid, require-ok, forbid-ok,
}
use technical_test_mitus_ai.Contract.Text.{require_non_empty}
use technical_test_mitus_ai.Storage.Paths.{
  slash, backslash, path_parts, join_parts, posix_path, check_parts,
  validate_relative_artifact_path,
}
use technical_test_mitus_ai.Storage.Keys.{run_prefix, artifact_object_key}

join_parts-artifacts :
    (parts : List (List ℕ))
    → check_parts parts ≡ ok tt
    → starts_with (join_parts parts) (codes "artifacts/") ≡ true
unfolding starts_with
join_parts-artifacts [] h = cc h
join_parts-artifacts (first ∷ []) h = cc ((>>-eq-ok (require (first == codes "artifacts") _) _ h).1)
join_parts-artifacts (first ∷ second ∷ parts) h =
    let named =
      require-ok (first == codes "artifacts") _
        (>>-eq-ok (require (first == codes "artifacts") _) _ h).0 in
    let same = (list_beq_iff (λ a b. a == b) nat_eq_iff first (codes "artifacts")).0 named in
    ap (λ f. starts_with (f ++ slash ∷ join_parts (second ∷ parts)) (codes "artifacts/")) same

starts_with-is_empty :
    (s : List ℕ) (p : ℕ) (prefix : List ℕ) → starts_with s (p ∷ prefix) ≡ true → is_empty s ≡ false
unfolding starts_with
starts_with-is_empty [] p prefix h = cc h
starts_with-is_empty (c ∷ s) p prefix h = refl

||-false : (a b : Bool) → (a || b) ≡ false → (a ≡ false) × (b ≡ false)
||-false true b h = cc h
||-false false b h = (refl, h)

posix_path-plain :
    (s : List ℕ)
    → starts_with s (codes "/") ≡ false
    → starts_with (join_parts (path_parts s)) (codes "artifacts/") ≡ true
    → posix_path s ≡ join_parts (path_parts s)
unfolding posix_path
posix_path-plain s relative inside =
    rw relative
      (rw (starts_with-is_empty (join_parts (path_parts s)) 97 (codes "rtifacts/") inside) refl)

-- A path that the contract accepts is handed on unchanged, lies inside `artifacts/`, and has no part
-- `..`.
pub validate-confined :
    (value : String) (normalized : List ℕ)
    → validate_relative_artifact_path value ≡ ok normalized
    → (normalized ≡ codes value)
      × (starts_with normalized (codes "artifacts/") ≡ true)
      × (contains (path_parts normalized) (codes "..") ≡ false)
unfolding validate_relative_artifact_path
validate-confined value normalized h =
    let s = codes value in
    let h1 = (>>-eq-ok (require_non_empty value) _ h).1 in
    let h2 = (>>-eq-ok (forbid (contains s backslash) _) _ h1).1 in
    let (normal, h3) = >>-eq-ok (require (s == posix_path s) _) _ h2 in
    let (within, h4) =
      >>-eq-ok (forbid (starts_with s (codes "/") || contains (path_parts s) (codes "..")) _) _
        h3 in
    let (named, h5) = >>-eq-ok (check_parts (path_parts s)) _ h4 in
    let relative =
      ||-false (starts_with s (codes "/")) (contains (path_parts s) (codes ".."))
        (forbid-ok _ _ within) in
    let inside = join_parts-artifacts (path_parts s) named in
    let made : posix_path s ≡ normalized = ok-injective h5 in
    let same : normalized ≡ s = sym (
      (list_beq_iff (λ a b. a == b) nat_eq_iff s (posix_path s)).0 (require-ok _ _ normal)
      ∙ made) in
    (
      same,
      ap (λ n. starts_with n (codes "artifacts/")) (sym made ∙ posix_path-plain s relative.0 inside)
          ∙ inside,
      ap (λ n. contains (path_parts n) (codes "..")) same ∙ relative.1,
    )

pub starts_with-shared :
    (p s q : List ℕ) → starts_with s q ≡ true → starts_with (p ++ s) (p ++ q) ≡ true
unfolding starts_with
starts_with-shared [] s q h = h
starts_with-shared (c ∷ p) s q h =
    (&&_iff (c == c) (starts_with (p ++ s) (p ++ q))).1
      ((nat_eq_iff c c).1 refl, starts_with-shared p s q h)

pub artifact_object_key-prefix :
    (run_id relative_path : String) (key : List ℕ)
    → artifact_object_key run_id relative_path ≡ ok key
    → (prefix : List ℕ) × (run_prefix run_id ≡ ok prefix)
      × (starts_with key (prefix ++ codes "artifacts/") ≡ true)
unfolding artifact_object_key
artifact_object_key-prefix run_id relative_path key h =
    let (normalized, valid, h1) = >>=-eq-ok (validate_relative_artifact_path relative_path) _ h in
    let (prefix, known, h2) = >>=-eq-ok (run_prefix run_id) _ h1 in
    (
      prefix,
      known,
      ap (λ k. starts_with k (prefix ++ codes "artifacts/")) (sym (ok-injective h2))
          ∙ starts_with-shared prefix normalized (codes "artifacts/")
              (validate-confined relative_path normalized valid).1,
    )
