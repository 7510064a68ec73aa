-- ===== src/LocalStore/RoundTrip.antt =====
-- An artifact written by v2/src/footballai_v2/storage/local_analysis_runs.py passes the test of its reference.
use technical_test_mitus_ai.Prelude.{
  codes_refl, ℕ, nat_eq, ◌==◌, string_eq, list_eq, codes, text_eq_refl, nat_eq_iff, ap, String, ◌≡◌,
  ◌↔◌, refl, ◌∙◌, Bool, true, false, some, List, [], ◌∷◌, ◌++◌, Result, ok, err, >>-eq-ok,
  >>=-eq-ok, require, require-ok, is_some, inl, inr, Bool-cases, ok-injective, length,
}
use technical_test_mitus_ai.Contract.Text.{validate_run_id}
use technical_test_mitus_ai.Contract.References.{ArtifactReference}
use technical_test_mitus_ai.Storage.Paths.{path_parts, join_parts, validate_relative_artifact_path}
use technical_test_mitus_ai.Storage.Memory.{Artifact, reference_to}
use technical_test_mitus_ai.LocalStore.Tree.{Node, file, Folder, folder, Tree, at_name}
use technical_test_mitus_ai.LocalStore.Runs.{
  validate_run_directory, is_manifest_file, require_run_directory, load, entry_at, artifact_path,
}
use technical_test_mitus_ai.LocalStore.Files.{
  is_running, make_directories, parents_of, drop_last, link_file, prepare_artifact, link_artifact,
  place_artifact, write_artifact, with_entries, artifact_reference_integrity,
}
use technical_test_mitus_ai.LocalStore.Rules.{found_folder}
use technical_test_mitus_ai.Storage.Confinement.{validate-confined}
use technical_test_mitus_ai.Storage.RoundTrip.{artifact_reference-ok}
use technical_test_mitus_ai.LocalStore.Growth.{at_name-replace}

-- What `require_run_directory` has found
record Required (k : String) (tree : Tree) (f : Folder) : Type 0 where
  valid : validate_run_id k ≡ ok tt
  found : at_name k tree ≡ some (folder f)
  listed : is_manifest_file f.manifest_file ≡ true

require_run_directory_iff :
    (k : String) (tree : Tree) (f : Folder)
    → (require_run_directory k tree ≡ ok f) ↔ Required k tree f
unfolding require_run_directory
require_run_directory_iff k tree f = (
  λ h.
      let (valid, h1) = >>-eq-ok (validate_run_id k) _ h in
      let (g, there, h2) = >>=-eq-ok (validate_run_directory (at_name k tree)) _ h1 in
      let (file_there, last) = >>-eq-ok (require (is_manifest_file g.manifest_file) _) _ h2 in
      let same : g ≡ f = ok-injective last in
      record {
        valid = valid;
        found = rw (← same) (found_folder (at_name k tree) g there);
        listed = rw (← same) (require-ok (is_manifest_file g.manifest_file) _ file_there);
      },
  λ r. rw (r.valid, r.found, r.listed) refl,
)

entry_at-last :
    (path content : List ℕ) (entries : List (List ℕ × Node))
    → is_some (entry_at path entries) ≡ false
    → entry_at path (entries ++ (path, file content) ∷ []) ≡ some (file content)
entry_at-last path content [] h = rw (codes_refl path) refl
entry_at-last path content ((p, first) ∷ entries) h = elim (Bool-cases (p == path)) [
  | inl here ↦ cc (rw here at h)
  | inr away ↦ rw away (entry_at-last path content entries (rw away at h))
]

link_file-last :
    (path content : List ℕ) (entries linked : List (List ℕ × Node))
    → link_file path content entries ≡ ok linked
    → entry_at path linked ≡ some (file content)
link_file-last path content entries linked h = elim (Bool-cases (is_some (entry_at path entries))) [
  | inl there ↦ cc (rw there at h)
  | inr free ↦
      let done = ok-injective (rw free at h) in
      rw (← done) (entry_at-last path content entries free)
]

module _ (sha256_of : List ℕ → String) (is_inside : String → List ℕ → Bool) where
  -- What a write that returns has done
  record Written (k : String) (a : Artifact) (tree out : Tree) (reference : ArtifactReference)
      : Type 0 where
    place : Folder
    entries : List (List ℕ × Node)
    required : Required k tree place
    normalized : List ℕ
    valid : validate_relative_artifact_path a.relative_path ≡ ok normalized
    stored : entry_at normalized entries ≡ some (file a.content)
    referred : reference_to sha256_of a ≡ reference
    placed : with_entries k place entries tree ≡ out

  link_artifact-Written :
      (k : String) (a : Artifact) (f : Folder) (made : List (List ℕ × Node)) (tree out : Tree)
      (reference : ArtifactReference) (path : List ℕ) (linked : Result (List (List ℕ × Node)))
      → Required k tree f
      → validate_relative_artifact_path a.relative_path ≡ ok path
      → link_file path a.content made ≡ linked
      → link_artifact sha256_of is_inside k a f made tree linked ≡ (ok reference, out)
      → Written k a tree out reference
  link_artifact-Written k a f made tree out reference path (err raised) r valid e h =
      cc (ap (λ x. x.0) h)
  link_artifact-Written k a f made tree out reference path (ok linked) r valid e h = record {
    place = f;
    entries = linked;
    required = r;
    normalized = path;
    valid = valid;
    stored = link_file-last path a.content made linked e;
    referred = artifact_reference-ok (reference_to sha256_of a) reference (ap (λ x. x.0) h);
    placed = ap (λ x. x.1) h;
  }

  prepared-Required :
      (k : String) (a : Artifact) (tree : Tree) (path : List ℕ) (f : Folder)
      (made : List (List ℕ × Node))
      → prepare_artifact sha256_of is_inside k a tree ≡ ok (path, f, made)
      → Required k tree f × (validate_relative_artifact_path a.relative_path ≡ ok path)
  prepared-Required k a tree path f made h =
      let (g, required, h1) = >>=-eq-ok (require_run_directory k tree) _ h in
      let (run, _, h2) = >>=-eq-ok (load k tree) _ h1 in
      let (_, h3) = >>-eq-ok (require (is_running run.status) _) _ h2 in
      let (p, valid, h4) = >>=-eq-ok (validate_relative_artifact_path a.relative_path) _ h3 in
      let (entries, _, h5) =
        >>=-eq-ok (make_directories (parents_of (path_parts p)) g.entries) _ h4 in
      let all = ok-injective h5 in
      (
        (require_run_directory_iff k tree f).0 (required ∙ ap (λ x. ok (x.1)) all),
        valid ∙ ap (λ x. ok (x.0)) all,
      )

  place_artifact-Written :
      (k : String) (a : Artifact) (tree out : Tree) (reference : ArtifactReference)
      (prepared : Result (List ℕ × Folder × List (List ℕ × Node)))
      → prepare_artifact sha256_of is_inside k a tree ≡ prepared
      → place_artifact sha256_of is_inside k a tree prepared ≡ (ok reference, out)
      → Written k a tree out reference
  place_artifact-Written k a tree out reference (err raised) e h = cc (ap (λ x. x.0) h)
  place_artifact-Written k a tree out reference (ok (path, f, made)) e h =
      let (required, valid) = prepared-Required k a tree path f made e in
      elim (Bool-cases (is_inside k (join_parts (drop_last (path_parts path))))) [
        | inl inside ↦
            link_artifact-Written k a f made tree out reference path (link_file path a.content made)
              required valid refl (rw inside at h)
        | inr outside ↦ cc (ap (λ x. x.0) (rw outside at h))
      ]

  -- An artifact that is written, under a path that resolves to one in the directory of the run, passes the
  -- integrity test of the reference that is returned.
  pub write_artifact-integrity :
      (k : String) (a : Artifact) (tree out : Tree) (reference : ArtifactReference)
      → is_inside k (codes a.relative_path) ≡ true
      → write_artifact sha256_of is_inside k a tree ≡ (ok reference, out)
      → artifact_reference_integrity sha256_of is_inside k reference out ≡ ok true
  unfolding write_artifact artifact_reference_integrity artifact_path
  write_artifact-integrity k a tree out reference inside h =
      let w =
        place_artifact-Written k a tree out reference
          (prepare_artifact sha256_of is_inside k a tree) refl h in
      let new : Folder = record w.place { entries = w.entries } in
      let there : Required k (with_entries k w.place w.entries tree) new = record {
        valid = w.required.valid;
        found = at_name-replace k new tree w.required.found;
        listed = w.required.listed;
      } in
      let required =
        (require_run_directory_iff k (with_entries k w.place w.entries tree) new).1 there in
      let named = (validate-confined a.relative_path w.normalized w.valid).0 in
      let resolves : is_inside k w.normalized ≡ true = rw named inside in
      rw (← w.placed, ← w.referred)
        (rw
          (
            required,
            w.valid,
            resolves,
            w.stored,
            (nat_eq_iff (length a.content) (length a.content)).1 refl,
            text_eq_refl (sha256_of a.content),
          )
          refl)
