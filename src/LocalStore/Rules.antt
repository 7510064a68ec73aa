-- ===== src/LocalStore/Rules.antt =====
-- `save` of v2/src/footballai_v2/storage/local_analysis_runs.py against the rules of v2/src/footballai_v2/storage/lifecycle.py.
use technical_test_mitus_ai.Prelude.{
  ℕ, String, ◌≡◌, refl, ◌↔◌, Bool, List, some, ok, >>=-eq-ok, >>-eq-ok, require, require-ok, inl,
  inr, Bool-cases, ◌==◌, string_eq, text_eq_iff,
}
use technical_test_mitus_ai.Contract.Text.{validate_run_id}
use technical_test_mitus_ai.Contract.Run.{
  AnalysisRunStatus, queued, running, succeeded, partial, failed, cancelled, is_terminal,
  AnalysisRun,
}
use technical_test_mitus_ai.Lifecycle.{permitted, same_provenance, ensure_transition_allowed}
use technical_test_mitus_ai.LocalStore.Tree.{
  Folder, folder, Tree, at_name, manifest, absent, linked, raising, Manifest, Top, foreign_file,
  linked_folder,
}
use technical_test_mitus_ai.LocalStore.Runs.{
  allowed, same_fields, check_update, load, save, verify_concluded, validate_run_directory,
  write_manifest, read_manifest,
}
use mathlib.Core.Option.{Option, none}

allowed-permitted : (a b : AnalysisRunStatus) → allowed a b ≡ permitted a b
unfolding allowed permitted
allowed-permitted queued queued = refl
allowed-permitted queued running = refl
allowed-permitted queued succeeded = refl
allowed-permitted queued partial = refl
allowed-permitted queued failed = refl
allowed-permitted queued cancelled = refl
allowed-permitted running queued = refl
allowed-permitted running running = refl
allowed-permitted running succeeded = refl
allowed-permitted running partial = refl
allowed-permitted running failed = refl
allowed-permitted running cancelled = refl
allowed-permitted succeeded b = refl
allowed-permitted partial b = refl
allowed-permitted failed b = refl
allowed-permitted cancelled b = refl

same_fields-same_provenance : (a b : AnalysisRun) → same_fields a b ≡ same_provenance a b
unfolding same_fields same_provenance
same_fields-same_provenance a b = refl

-- The checks of the local store accept what the shared rules accept.
pub check_update_iff :
    (current run : AnalysisRun)
    → (check_update current run ≡ ok tt) ↔ (ensure_transition_allowed current run ≡ ok tt)
unfolding check_update ensure_transition_allowed
check_update_iff current run =
    rw (allowed-permitted current.status run.status, same_fields-same_provenance current run)
      (elim (Bool-cases (is_terminal current.status)) [
        | inl over ↦ rw over (λ h. cc, λ h. cc)
        | inr active ↦ rw active (elim (Bool-cases (permitted current.status run.status)) [
          | inr stuck ↦ rw stuck (λ h. cc, λ h. cc)
          | inl moves ↦ rw moves (elim (Bool-cases (same_provenance current run)) [
            | inr changed ↦ rw changed (λ h. cc, λ h. cc)
            | inl same ↦ rw same (λ h. refl, λ h. refl)
          ])
        ])
      ])

pub found_folder :
    (top : Option Top) (f : Folder) → validate_run_directory top ≡ ok f → top ≡ some (folder f)
found_folder none f h = cc
found_folder (some foreign_file) f h = cc
found_folder (some (linked_folder g)) f h = cc
found_folder (some (folder g)) f h = cc

read_manifest-manifest : (m : Manifest) (r : AnalysisRun) → read_manifest m ≡ ok r → m ≡ manifest r
read_manifest-manifest absent r h = cc
read_manifest-manifest linked r h = cc
read_manifest-manifest (raising raised) r h = cc
read_manifest-manifest (manifest run) r h = cc

-- What a load has found
pub record Loaded (k : String) (tree : Tree) (r : AnalysisRun) : Type 0 where
  pub valid : validate_run_id k ≡ ok tt
  pub place : Folder
  pub found : at_name k tree ≡ some (folder place)
  pub stored : place.manifest_file ≡ manifest r
  pub named : r.run_id ≡ k

pub load_iff : (k : String) (tree : Tree) (r : AnalysisRun) → (load k tree ≡ ok r) ↔ Loaded k tree r
unfolding load
load_iff k tree r = (
  λ h.
      let (valid, h1) = >>-eq-ok (validate_run_id k) _ h in
      let (f, there, h2) = >>=-eq-ok (validate_run_directory (at_name k tree)) _ h1 in
      let (run, read, h3) = >>=-eq-ok (read_manifest f.manifest_file) _ h2 in
      let (same, last) = >>-eq-ok (require (run.run_id == k) _) _ h3 in
      let named = (text_eq_iff run.run_id k).0 (require-ok (run.run_id == k) _ same) in
      let equal : run ≡ r = cc in
      record {
        valid = valid;
        place = f;
        found = found_folder (at_name k tree) f there;
        stored = read_manifest-manifest f.manifest_file r (rw (← equal) read);
        named = rw (← equal) named;
      },
  λ l. rw (l.valid, l.found, l.stored, (text_eq_iff r.run_id k).1 l.named) refl,
)

-- A save over a stored run returns exactly when the shared rules allow the replacement and, where the
-- new status is succeeded or partial, the artifacts pass their check.
module _ (sha256_of : List ℕ → String) (is_inside : String → List ℕ → Bool) where
  pub save_iff :
      (run current : AnalysisRun) (tree : Tree)
      → load run.run_id tree ≡ ok current
      → ((after : Tree) × (save sha256_of is_inside run tree ≡ ok after)) ↔ (
          (ensure_transition_allowed current run ≡ ok tt)
          × (verify_concluded sha256_of is_inside run tree ≡ ok tt))
  unfolding save
  save_iff run current tree h =
      let l = (load_iff run.run_id tree current).0 h in
      (
        λ (after, saved).
            let (old, loaded, h1) = >>=-eq-ok (load run.run_id tree) _ saved in
            let same : old ≡ current = cc in
            let (checked, h2) = >>-eq-ok (check_update old run) _ h1 in
            let (verified, h3) = >>-eq-ok (verify_concluded sha256_of is_inside run tree) _ h2 in
            ((check_update_iff current run).0 (rw (← same) checked), verified),
        λ (fine, verified). (
          write_manifest run l.place tree,
          rw (h, (check_update_iff current run).1 fine, verified, l.found) refl,
        ),
      )
