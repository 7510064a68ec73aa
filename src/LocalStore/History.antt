-- ===== src/LocalStore/History.antt =====
-- Sequences of calls of v2/src/footballai_v2/storage/local_analysis_runs.py.
use technical_test_mitus_ai.Prelude.{
  ℕ, Bool, sym, String, ◌≡◌, refl, ◌∙◌, some, List, [], ◌∷◌, Result, ok, err,
}
use technical_test_mitus_ai.Contract.Run.{AnalysisRun}
use technical_test_mitus_ai.Contract.Transitions.{RetryArguments}
use technical_test_mitus_ai.Storage.Memory.{Artifact}
use technical_test_mitus_ai.LocalStore.Tree.{Folder, folder, Tree, at_name}
use technical_test_mitus_ai.LocalStore.Runs.{
  load, create, save, request_cancellation, create_retry_attempt,
}
use technical_test_mitus_ai.LocalStore.Files.{put_input_file, copy_input, write_artifact}
use technical_test_mitus_ai.LocalStore.Rules.{Loaded, load_iff}
use technical_test_mitus_ai.LocalStore.Growth.{Descends, Extends, Grows, Grows-refl, Grows-trans}
use technical_test_mitus_ai.LocalStore.Steps.{
  create-Grows, request-Grows, put_input-Grows, retry-Grows, save-Grows,
}
use technical_test_mitus_ai.LocalStore.Objects.{copy_input-Grows, write_artifact-Grows}

-- The methods that write
pub data Call : Type 0 where
  call_create : AnalysisRun → Call
  call_save : AnalysisRun → Call
  call_put_input_file : String → (content extension : List ℕ) → Call
  call_copy_input : (source_run_id destination_run_id : String) → Call
  call_request_cancellation : String → (payload : List ℕ) → Call
  call_create_retry_attempt : String → RetryArguments → (fresh : String) (now : ℕ) → Call
  call_write_artifact : String → Artifact → Call

abbrev pub after : Tree → Result Tree → Tree
after tree (ok out) = out
after tree (err raised) = tree

abbrev pub after_pair : {A : Type 0} → Tree → Result (A × Tree) → Tree
after_pair tree (ok out) = out.1
after_pair tree (err raised) = tree

after-Grows :
    (tree : Tree) (result : Result Tree)
    → ((out : Tree) → result ≡ ok out → Grows tree out)
    → Grows tree (after tree result)
after-Grows tree (ok out) h = h out refl
after-Grows tree (err raised) h = Grows-refl tree

after_pair-Grows :
    {A : Type 0} (tree : Tree) (result : Result (A × Tree))
    → ((out : A × Tree) → result ≡ ok out → Grows tree out.1)
    → Grows tree (after_pair tree result)
after_pair-Grows tree (ok out) h = h out refl
after_pair-Grows tree (err raised) h = Grows-refl tree

module _ (sha256_of : List ℕ → String) (is_inside : String → List ℕ → Bool) where
  unfoldable pub perform : Call → Tree → Tree
  unfolding create save put_input_file copy_input request_cancellation create_retry_attempt
      write_artifact
  perform (call_create run) tree = after_pair tree (create run tree)
  perform (call_save run) tree = after tree (save sha256_of is_inside run tree)
  perform (call_put_input_file run_id content extension) tree =
      after_pair tree (put_input_file run_id content extension tree)
  perform (call_copy_input source destination) tree =
      after tree (copy_input sha256_of is_inside source destination tree)
  perform (call_request_cancellation run_id payload) tree =
      after tree (request_cancellation run_id payload tree)
  perform (call_create_retry_attempt previous arguments fresh now) tree =
      after_pair tree (create_retry_attempt previous arguments fresh now tree)
  perform (call_write_artifact run_id a) tree = (write_artifact sha256_of is_inside run_id a tree).1

  unfoldable pub perform_all : List Call → Tree → Tree
  unfolding perform
  perform_all [] tree = tree
  perform_all (c ∷ calls) tree = perform_all calls (perform c tree)

  perform-Grows : (c : Call) (tree : Tree) → Grows tree (perform c tree)
  unfolding perform
  perform-Grows (call_create run) tree =
      after_pair-Grows tree (create run tree) (create-Grows run tree)
  perform-Grows (call_save run) tree =
      after-Grows tree (save sha256_of is_inside run tree) (save-Grows sha256_of is_inside run tree)
  perform-Grows (call_put_input_file k content extension) tree =
      after_pair-Grows tree (put_input_file k content extension tree)
        (put_input-Grows k content extension tree)
  perform-Grows (call_copy_input source destination) tree =
      after-Grows tree (copy_input sha256_of is_inside source destination tree)
        (copy_input-Grows sha256_of is_inside source destination tree)
  perform-Grows (call_request_cancellation k payload) tree =
      after-Grows tree (request_cancellation k payload tree) (request-Grows k payload tree)
  perform-Grows (call_create_retry_attempt previous arguments fresh now) tree =
      after_pair-Grows tree (create_retry_attempt previous arguments fresh now tree)
        (retry-Grows previous arguments fresh now tree)
  perform-Grows (call_write_artifact k a) tree = write_artifact-Grows sha256_of is_inside k a tree

  calls-Grows : (calls : List Call) (tree : Tree) → Grows tree (perform_all calls tree)
  unfolding perform_all
  calls-Grows [] tree = Grows-refl tree
  calls-Grows (c ∷ calls) tree =
      Grows-trans tree (perform c tree) (perform_all calls (perform c tree)) (perform-Grows c tree)
        (calls-Grows calls (perform c tree))

  -- Whatever writing calls follow, accepted or refused, a run that loads still loads: with its identity,
  -- moved along the lifecycle, unchanged if it was terminal. Each file among its inputs and artifacts
  -- stays with its bytes, and a requested cancellation stays requested.
  pub perform_all-Extends :
      (calls : List Call) (k : String) (tree : Tree) (r : AnalysisRun) (h : load k tree ≡ ok r)
      → (later : AnalysisRun) × (g : Folder) × (load k (perform_all calls tree) ≡ ok later)
        × Descends r later
        × (at_name k (perform_all calls tree) ≡ some (folder g))
        × Extends ((load_iff k tree r).0 h).place g
  perform_all-Extends calls k tree r h =
      let l = (load_iff k tree r).0 h in
      let (g, found, e) = calls-Grows calls tree k l.place l.found in
      let (later, stored, descends) = e.stored r l.stored in
      let loads : Loaded k (perform_all calls tree) later = record {
        valid = l.valid;
        place = g;
        found = found;
        stored = stored;
        named = sym descends.identity.run_id ∙ l.named;
      } in
      (later, g, (load_iff k (perform_all calls tree) later).1 loads, descends, found, e)
