-- ===== src/LocalStore/Steps.antt =====
-- Each operation of v2/src/footballai_v2/storage/local_analysis_runs.py extends the directories.
use technical_test_mitus_ai.Prelude.{
  ℕ, nat_eq, String, ◌≡◌, refl, Bool, some, List, [], ◌∷◌, ◌++◌, codes, not, ◌||◌, starts_with,
  contains, ok, >>-eq-ok, >>=-eq-ok, require, forbid, is_some, inl, inr, Bool-cases, ok-injective,
}
use technical_test_mitus_ai.Contract.Text.{validate_run_id}
use technical_test_mitus_ai.Contract.Run.{is_terminal, AnalysisRun}
use technical_test_mitus_ai.Contract.Transitions.{RetryArguments, retry_from, is_queued}
use technical_test_mitus_ai.Lifecycle.Rules.{allowed_iff, same_provenance-SameIdentity}
use technical_test_mitus_ai.Repository.Immutability.{rest, then_move, Move-active}
use technical_test_mitus_ai.Storage.Paths.{slash, backslash}
use technical_test_mitus_ai.LocalStore.Tree.{Node, file, manifest, Folder, folder, Tree, at_name}
use technical_test_mitus_ai.LocalStore.Runs.{
  validate_run_directory, is_manifest_file, require_run_directory, load, create, save, check_update,
  verify_concluded, is_directory, request_cancellation, create_retry_attempt, entry_at, new_folder,
}
use technical_test_mitus_ai.LocalStore.Files.{write_input, put_input_file}
use technical_test_mitus_ai.LocalStore.Rules.{found_folder, load_iff, check_update_iff}
use technical_test_mitus_ai.LocalStore.Growth.{
  Descends-refl, Keeps, Extends, Grows, Grows-refl, append-Grows, replace-Grows, append-Keeps,
}

pub create-Grows :
    (run : AnalysisRun) (tree : Tree) (out : String × Tree)
    → create run tree ≡ ok out
    → Grows tree out.1
unfolding create
create-Grows run tree out h =
    let (_, h1) = >>-eq-ok (require (is_queued run.status) _) _ h in
    let (_, h2) = >>-eq-ok (validate_run_id run.run_id) _ h1 in
    let (_, h3) = >>-eq-ok (forbid (is_some (at_name run.run_id tree)) _) _ h2 in
    let done : tree ++ (run.run_id, folder (new_folder run)) ∷ [] ≡ out.1 = cc in
    rw (← done) (append-Grows tree ((run.run_id, folder (new_folder run)) ∷ []))

pub required-found :
    (k : String) (tree : Tree) (f : Folder)
    → require_run_directory k tree ≡ ok f
    → at_name k tree ≡ some (folder f)
unfolding require_run_directory
required-found k tree f h =
    let (_, h1) = >>-eq-ok (validate_run_id k) _ h in
    let (g, there, h2) = >>=-eq-ok (validate_run_directory (at_name k tree)) _ h1 in
    let (_, last) = >>-eq-ok (require (is_manifest_file g.manifest_file) _) _ h2 in
    let same : g ≡ f = cc in rw (← same) (found_folder (at_name k tree) g there)

-- A manifest that replaces another along the rules descends from it.
written-Extends :
    (f : Folder) (current run : AnalysisRun)
    → f.manifest_file ≡ manifest current
    → check_update current run ≡ ok tt
    → Extends f (record f { manifest_file = manifest run })
written-Extends f current run stored checked =
    let moved = (allowed_iff current run).0 ((check_update_iff current run).0 checked) in
    record {
      input = λ path content h. h;
      entries = λ path content h. h;
      cancelled = λ payload h. (payload, h);
      stored = λ r h.
          let same : current ≡ r = cc (stored, h) in
          (
            run,
            refl,
            rw (← same) (record {
              identity = same_provenance-SameIdentity current run moved.1;
              status = then_move moved.0 rest;
              frozen = λ t. cc (Move-active moved.0, t);
            }),
          );
    }

marked-Extends :
    (f : Folder) (payload : List ℕ) → Extends f (record f { cancel_marker = some (file payload) })
marked-Extends f payload = record {
  input = λ path content h. h;
  entries = λ path content h. h;
  cancelled = λ old h. (payload, refl);
  stored = λ r h. (r, h, Descends-refl r);
}

input-Extends :
    (f : Folder) (more : List (List ℕ × Node)) → Extends f (record f { input = f.input ++ more })
input-Extends f more = record {
  input = append-Keeps f.input more;
  entries = λ path content h. h;
  cancelled = λ payload h. (payload, h);
  stored = λ r h. (r, h, Descends-refl r);
}

pub entries-Extends :
    (f : Folder) (entries : List (List ℕ × Node))
    → Keeps f.entries entries
    → Extends f (record f { entries = entries })
entries-Extends f entries kept = record {
  input = λ path content h. h;
  entries = kept;
  cancelled = λ payload h. (payload, h);
  stored = λ r h. (r, h, Descends-refl r);
}

pub request-Grows :
    (k : String) (payload : List ℕ) (tree out : Tree)
    → request_cancellation k payload tree ≡ ok out
    → Grows tree out
unfolding request_cancellation
request-Grows k payload tree out h =
    let (f, required, h1) = >>=-eq-ok (require_run_directory k tree) _ h in
    let (run, loaded, h2) = >>=-eq-ok (load k tree) _ h1 in
    elim (Bool-cases (is_terminal run.status)) [
      | inl over ↦
          let same : tree ≡ out = ok-injective (rw over at h2) in rw (← same) (Grows-refl tree)
      | inr active ↦ elim (Bool-cases (is_directory f.cancel_marker)) [
        | inl blocked ↦ cc (rw (active, blocked) at h2)
        | inr free ↦
            let done = ok-injective (rw (active, free) at h2) in
            rw (← done) (
              replace-Grows k f (record f { cancel_marker = some (file payload) }) tree
                (required-found k tree f required) (marked-Extends f payload))
      ]
    ]

pub written_input-Grows :
    (k : String) (name content : List ℕ) (f : Folder) (tree out : Tree)
    → at_name k tree ≡ some (folder f)
    → write_input k name content f tree ≡ ok out
    → Grows tree out
written_input-Grows k name content f tree out found h =
    elim (Bool-cases (is_some (entry_at name f.input))) [
      | inl there ↦ cc (rw there at h)
      | inr free ↦
          let done = ok-injective (rw free at h) in
          rw (← done) (
            replace-Grows k f (record f { input = f.input ++ (name, file content) ∷ [] }) tree found
              (input-Extends f ((name, file content) ∷ [])))
    ]

pub put_input-Grows :
    (k : String) (content extension : List ℕ) (tree : Tree) (out : List ℕ × Tree)
    → put_input_file k content extension tree ≡ ok out
    → Grows tree out.1
unfolding put_input_file
put_input-Grows k content extension tree out h =
    let (_, h1) =
      >>-eq-ok
        (forbid
          (not (starts_with extension (codes "."))
            || contains extension slash
            || contains extension backslash)
          _)
        _ h in
    let (f, required, h2) = >>=-eq-ok (require_run_directory k tree) _ h1 in
    let (written, wrote, h3) =
      >>=-eq-ok (write_input k (codes "source" ++ extension) content f tree) _ h2 in
    let same : written ≡ out.1 = cc in
    rw (← same) (
      written_input-Grows k (codes "source" ++ extension) content f tree written
        (required-found k tree f required) wrote)

pub retry-Grows :
    (k : String) (a : RetryArguments) (fresh : String) (now : ℕ) (tree : Tree)
    (out : AnalysisRun × Tree)
    → create_retry_attempt k a fresh now tree ≡ ok out
    → Grows tree out.1
unfolding create_retry_attempt
retry-Grows k a fresh now tree out h =
    let (previous, _, h1) = >>=-eq-ok (load k tree) _ h in
    let (retry, _, h2) = >>=-eq-ok (retry_from previous a fresh now) _ h1 in
    let (created, made, h3) = >>=-eq-ok (create retry tree) _ h2 in
    let same : created.1 ≡ out.1 = cc in rw (← same) (create-Grows retry tree created made)

module _ (sha256_of : List ℕ → String) (is_inside : String → List ℕ → Bool) where
  pub save-Grows :
      (run : AnalysisRun) (tree out : Tree)
      → save sha256_of is_inside run tree ≡ ok out
      → Grows tree out
  unfolding save
  save-Grows run tree out h =
      let (current, loaded, h1) = >>=-eq-ok (load run.run_id tree) _ h in
      let (checked, h2) = >>-eq-ok (check_update current run) _ h1 in
      let (_, h3) = >>-eq-ok (verify_concluded sha256_of is_inside run tree) _ h2 in
      let l = (load_iff run.run_id tree current).0 loaded in
      let done = ok-injective (rw l.found at h3) in
      rw (← done) (
        replace-Grows run.run_id l.place (record l.place { manifest_file = manifest run }) tree
          l.found (written-Extends l.place current run l.stored checked))
