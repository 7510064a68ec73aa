-- ===== src/LocalStore/Objects.antt =====
-- What the inputs and artifacts of v2/src/footballai_v2/storage/local_analysis_runs.py add to the directories.
use technical_test_mitus_ai.Prelude.{
  ℕ, nat_eq, ◌==◌, string_eq, ap, String, ◌≡◌, refl, Bool, true, false, Option, none, some, List,
  [], ◌∷◌, Result, ok, err, >>-eq-ok, >>=-eq-ok, require, is_some, inl, inr, Bool-cases,
  ok-injective,
}
use technical_test_mitus_ai.Storage.Paths.{path_parts, join_parts}
use technical_test_mitus_ai.Storage.Memory.{Artifact}
use technical_test_mitus_ai.LocalStore.Tree.{
  Node, file, link, directory, Folder, folder, Tree, at_name,
}
use technical_test_mitus_ai.LocalStore.Runs.{require_run_directory, load, entry_at}
use technical_test_mitus_ai.LocalStore.Files.{
  write_input, input_path, copy_input, make_directory, make_directories, parents_of, drop_last,
  link_file, prepare_artifact, link_artifact, place_artifact, write_artifact, with_entries,
}
use technical_test_mitus_ai.LocalStore.Growth.{
  Keeps, Grows, Grows-refl, replace-Grows, append-Keeps,
}
use technical_test_mitus_ai.LocalStore.Steps.{required-found, written_input-Grows, entries-Extends}
use technical_test_mitus_ai.LocalStore.Files.{is_running}
use technical_test_mitus_ai.Storage.Paths.{validate_relative_artifact_path}

make_directory-Keeps :
    (path : List ℕ) (entries made : List (List ℕ × Node))
    → make_directory path (entry_at path entries) entries ≡ ok made
    → Keeps entries made
make_directory-Keeps path entries made h = go (entry_at path entries) h
  where
    go : (node : Option Node) → make_directory path node entries ≡ ok made → Keeps entries made
    go none e =
        let same = ok-injective e in rw (← same) (append-Keeps entries ((path, directory) ∷ []))
    go (some directory) e = let same = ok-injective e in rw (← same) (λ p content there. there)
    go (some (link true)) e = let same = ok-injective e in rw (← same) (λ p content there. there)
    go (some (link false)) e = cc
    go (some (file content)) e = cc

make_directories-Keeps :
    (parents : List (List (List ℕ))) (entries made : List (List ℕ × Node))
    → make_directories parents entries ≡ ok made
    → Keeps entries made
make_directories-Keeps [] entries made h =
    let same = ok-injective h in rw (← same) (λ p content there. there)
make_directories-Keeps (parent ∷ parents) entries made h =
    let (first, one, h1) =
      >>=-eq-ok (make_directory (join_parts parent) (entry_at (join_parts parent) entries) entries)
        _ h in
    λ p content there.
      make_directories-Keeps parents first made h1 p content
        (make_directory-Keeps (join_parts parent) entries first one p content there)

link_file-Keeps :
    (path content : List ℕ) (entries linked : List (List ℕ × Node))
    → link_file path content entries ≡ ok linked
    → Keeps entries linked
link_file-Keeps path content entries linked h =
    elim (Bool-cases (is_some (entry_at path entries))) [
      | inl there ↦ cc (rw there at h)
      | inr free ↦
          let done = ok-injective (rw free at h) in
          rw (← done) (append-Keeps entries ((path, file content) ∷ []))
    ]

entries-Grows :
    (k : String) (f : Folder) (entries : List (List ℕ × Node)) (tree : Tree)
    → at_name k tree ≡ some (folder f)
    → Keeps f.entries entries
    → Grows tree (with_entries k f entries tree)
entries-Grows k f entries tree found kept =
    replace-Grows k f (record f { entries = entries }) tree found (entries-Extends f entries kept)

module _ (sha256_of : List ℕ → String) (is_inside : String → List ℕ → Bool) where
  pub copy_input-Grows :
      (source destination : String) (tree out : Tree)
      → copy_input sha256_of is_inside source destination tree ≡ ok out
      → Grows tree out
  unfolding copy_input
  copy_input-Grows source destination tree out h =
      let (run, _, h1) = >>=-eq-ok (load source tree) _ h in
      let (found, _, h2) = >>=-eq-ok (input_path sha256_of is_inside source tree) _ h1 in
      let (f, required, h3) = >>=-eq-ok (require_run_directory destination tree) _ h2 in
      let (written, wrote, h4) = >>=-eq-ok (write_input destination found.0 found.1 f tree) _ h3 in
      let (_, h5) = >>-eq-ok (require (sha256_of found.1 == run.input.sha256) _) _ h4 in
      let same = ok-injective h5 in
      rw (← same) (
        written_input-Grows destination found.0 found.1 f tree written
          (required-found destination tree f required) wrote)

  -- What `prepare_artifact` returns is of the directory of the run.
  prepared :
      (k : String) (a : Artifact) (tree : Tree) (normalized : List ℕ) (f : Folder)
      (made : List (List ℕ × Node))
      → prepare_artifact sha256_of is_inside k a tree ≡ ok (normalized, f, made)
      → (at_name k tree ≡ some (folder f)) × Keeps f.entries made
  prepared k a tree normalized f made h =
      let (g, required, h1) = >>=-eq-ok (require_run_directory k tree) _ h in
      let (run, _, h2) = >>=-eq-ok (load k tree) _ h1 in
      let (_, h3) = >>-eq-ok (require (is_running run.status) _) _ h2 in
      let (path, _, h4) = >>=-eq-ok (validate_relative_artifact_path a.relative_path) _ h3 in
      let (entries, dirs, h5) =
        >>=-eq-ok (make_directories (parents_of (path_parts path)) g.entries) _ h4 in
      let all = ok-injective h5 in
      let same : g ≡ f = ap (λ x. x.1) all in
      let here : entries ≡ made = ap (λ x. x.2) all in
      (
        rw (← same) (required-found k tree g required),
        rw (← same, ← here)
            (make_directories-Keeps (parents_of (path_parts path)) g.entries entries dirs),
      )

  link_artifact-Grows :
      (k : String) (a : Artifact) (f : Folder) (made : List (List ℕ × Node)) (tree : Tree)
      (path : List ℕ) (linked : Result (List (List ℕ × Node)))
      → at_name k tree ≡ some (folder f)
      → Keeps f.entries made
      → link_file path a.content made ≡ linked
      → Grows tree (link_artifact sha256_of is_inside k a f made tree linked).1
  link_artifact-Grows k a f made tree path (err raised) found kept e =
      entries-Grows k f made tree found kept
  link_artifact-Grows k a f made tree path (ok linked) found kept e =
      entries-Grows k f linked tree found (λ p content there.
        link_file-Keeps path a.content made linked e p content (kept p content there))

  place_artifact-Grows :
      (k : String) (a : Artifact) (tree : Tree)
      (prepared_as : Result (List ℕ × Folder × List (List ℕ × Node)))
      → prepare_artifact sha256_of is_inside k a tree ≡ prepared_as
      → Grows tree (place_artifact sha256_of is_inside k a tree prepared_as).1
  place_artifact-Grows k a tree (err raised) e = Grows-refl tree
  place_artifact-Grows k a tree (ok (path, f, made)) e =
      let p = prepared k a tree path f made e in
      elim (Bool-cases (is_inside k (join_parts (drop_last (path_parts path))))) [
        | inl inside ↦
            rw inside (
              link_artifact-Grows k a f made tree path (link_file path a.content made) p.0 p.1 refl)
        | inr outside ↦ rw outside (entries-Grows k f made tree p.0 p.1)
      ]

  pub write_artifact-Grows :
      (k : String) (a : Artifact) (tree : Tree)
      → Grows tree (write_artifact sha256_of is_inside k a tree).1
  unfolding write_artifact
  write_artifact-Grows k a tree =
      place_artifact-Grows k a tree (prepare_artifact sha256_of is_inside k a tree) refl
